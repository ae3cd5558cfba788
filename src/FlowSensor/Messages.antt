-- ===== src/FlowSensor/Messages.antt =====
-- The handlers of Motes/firmwares/flow-sensor/flow-sensor.c: what a message and the button set, the
-- range of the simulation, the published record, and the end of the process.
use native.Mathlib.Decide.{dec_le}
use dam_monitoring.Prelude.{
  ℕ, ◌*◌, ◌≤◌, ◌<◌, ◌≡◌, ◌≢◌, ◌⊎◌, inl, inr, refl, ◌++◌, length, length-append, arith, ◌∙◌,
}
use dam_monitoring.Prelude.Int.{ℤ, pos, negsuc, ◌<ℤ◌, ◌*ℤ◌}
use dam_monitoring.Clib.Text.{Text, codes, snprintf_whole}
use dam_monitoring.Clib.Format.{format_d, length-format_d}
use dam_monitoring.Common.Json.{
  JsonParser, FieldResult, good, bad_value, missing, get_json_int_field,
}
use dam_monitoring.Common.Urn.{LinkAddr, urn, length-urn}
use dam_monitoring.SensorSim.{
  Channel, inflow, outflow_1, outflow_2, gate, max_flow, get, put, scale_exp,
}
use dam_monitoring.SensorSim.Asked.{gate_field_whole}
use dam_monitoring.FlowSensor.{Sim, apply_gate, handle_message, build_message, app_buffer_size}

-- A value that sets no gate.
abbrev pub IsRefused : FieldResult → ℤ → Type 0
IsRefused res v = (res ≢ good) ⊎ ((v <ℤ pos 0) ⊎ (pos 100 <ℤ v))

apply_gate_sets :
    (c : Channel) (s : Sim) (v : ℕ)
    → v ≤ 100
    → s.new_gate_value ≡ pos v
    → apply_gate c good s ≡ record s { target_flow = put s.target_flow c (pos (v * max_flow c)) }
unfolding apply_gate ◌*ℤ◌
apply_gate_sets inflow s v h e = ground arith
apply_gate_sets _ s v h e = ground arith

apply_gate_refuses :
    (c : Channel) (res : FieldResult) (s : Sim)
    → IsRefused res s.new_gate_value
    → apply_gate c res s ≡ s
unfolding apply_gate
apply_gate_refuses c res s h = ground arith

reading_cases :
    (res : FieldResult) (v : ℤ)
    → ((k : ℕ) × (res ≡ good) × (v ≡ pos k) × (k ≤ 100)) ⊎ IsRefused res v
reading_cases good (pos k) = elim (dec_le k 100) [
  | yes h ↦ inl (k, refl, refl, h)
  | no h ↦ inr (inr (inr (omega arith)))
]
reading_cases good (negsuc k) = inr (inr (inl (omega arith)))
reading_cases bad_value v = inr (inl (ground arith))
reading_cases missing v = inr (inl (ground arith))

module _ (p : JsonParser) (c : Channel) (garbage chunk : Text) (s : Sim) {res : FieldResult} {v : ℤ}
    (found : get_json_int_field p garbage chunk (codes "gate-" ++ gate c) s.new_gate_value
      ≡ (res, v)) where
  handle_message_applies :
      handle_message p c garbage chunk s ≡ apply_gate c res (record s { new_gate_value = v })
  unfolding handle_message
  handle_message_applies = rw (gate_field_whole c, found)

  sets :
      (k : ℕ)
      → res ≡ good
      → v ≡ pos k
      → k ≤ 100
      → handle_message p c garbage chunk s
        ≡ record s { new_gate_value = v; target_flow = put s.target_flow c (pos (k * max_flow c)) }
  sets k e f h =
      rw handle_message_applies
        (rw (e, f) (apply_gate_sets c (record s { new_gate_value = pos k }) k h refl))

  keeps : IsRefused res v → handle_message p c garbage chunk s ≡ record s { new_gate_value = v }
  keeps h = handle_message_applies ∙ apply_gate_refuses c res (record s { new_gate_value = v }) h

  -- A message whose field `gate-<channel>` reads as a number from 0 to 100 sets the channel's target
  -- to that many hundredths of the channel's greatest flow; any other message (no such field, a field
  -- that is no number, a number out of range) changes no flow and no target.
  handle_message_lem :
      ((k : ℕ) × (res ≡ good)
        × (v ≡ pos k)
        × (k ≤ 100)
        × (handle_message p c garbage chunk s ≡ record s {
          new_gate_value = v;
          target_flow = put s.target_flow c (pos (k * max_flow c));
        }))
      ⊎ (IsRefused res v × (handle_message p c garbage chunk s ≡ record s { new_gate_value = v }))
  handle_message_lem = elim (reading_cases res v) [
    | inl (k, e, f, h) ↦ inl (k, e, f, h, sets k e f h)
    | inr h ↦ inr (h, keeps h)
  ]

-- The record that a sensor publishes, with nothing cut off.
abbrev pub record_text : LinkAddr → Text → ℤ → Text
record_text addr name v =
    codes "{\"bn\":\""
    ++ (urn addr
        ++ (codes "\",\"bu\":\"m3/s\", \"e\": [{\"n\":\""
            ++ (name
                ++ (codes "\", \"v\":"
                    ++ (format_d v ++ (codes "e-" ++ (format_d scale_exp ++ codes "}]}")))))))

length-gate : (c : Channel) → length (gate c) ≤ 9
length-gate inflow = omega arith
length-gate outflow_1 = omega arith
length-gate outflow_2 = omega arith

length-record_text :
    (addr : LinkAddr) (c : Channel) (v : ℤ) → length (record_text addr (gate c) v) < app_buffer_size
length-record_text addr c v =
    omega (arith, length-append {0}, length-urn, length-gate, length-format_d)

-- The record that is published has the device's name, the channel and its flow in thousandths, and
-- fits its buffer of 512 bytes with its end.
pub build_message_lem :
    (addr : LinkAddr) (c : Channel) (s : Sim)
    → (build_message addr c s ≡ record_text addr (gate c) (get s.flow c))
      × (length (build_message addr c s) < app_buffer_size)
unfolding build_message
build_message_lem addr c s =
    let whole =
      snprintf_whole app_buffer_size (record_text addr (gate c) (get s.flow c))
        (length-record_text addr c (get s.flow c)) in
    (whole, rw whole (length-record_text addr c (get s.flow c)))
