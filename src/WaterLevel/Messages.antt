-- ===== src/WaterLevel/Messages.antt =====
-- The messages of Motes/firmwares/water-level-sensor/water-level-sensor.c: what it publishes, and what
-- a message sets.
use dam_monitoring.Prelude.{ℕ, ◌<◌, ◌≡◌, refl, ap, ◌∙◌, Option, ◌++◌, length, length-append, arith}
use dam_monitoring.Prelude.Int.{ℤ, pos, negsuc, ◌*ℤ◌}
use dam_monitoring.Clib.Text.{Text, codes, snprintf, snprintf_whole}
use dam_monitoring.Clib.Format.{format_d, length-format_d}
use dam_monitoring.Common.Json.{JsonParser, FieldResult, good, get_json_int_field}
use dam_monitoring.Common.Urn.{LinkAddr, urn, length-urn}
use dam_monitoring.SensorSim.{Channel, inflow, outflow_1, outflow_2, gate, get, put, scale_exp}
use dam_monitoring.SensorSim.Asked.{level, asked, set_by, level-get_json_int_field}
use dam_monitoring.WaterLevel.{
  Sim, balance, apply_gate, gate_round, handle_message, build_message, app_buffer_size,
}

-- What a level does: the flow of the channel, and the balance of all flows.
abbrev after : Channel → Option ℕ → Sim → Sim
after c o s =
    let flow = put s.flow c (set_by c o (get s.flow c)) in
    record s { flow = flow; balance_flow = balance flow }

apply_level :
    (c : Channel) (res : FieldResult) (v : ℤ) (s : Sim)
    → s.balance_flow ≡ balance s.flow
    → apply_gate c res (record s { new_gate_value = v })
      ≡ after c (level res v) (record s { new_gate_value = v })
unfolding apply_gate ◌*ℤ◌
apply_level inflow good (pos k) s h = ground arith
apply_level outflow_1 good (pos k) s h = ground arith
apply_level outflow_2 good (pos k) s h = ground arith
apply_level inflow good (negsuc k) s h = ground arith
apply_level outflow_1 good (negsuc k) s h = ground arith
apply_level outflow_2 good (negsuc k) s h = ground arith
apply_level inflow _ v s h = ground arith
apply_level outflow_1 _ v s h = ground arith
apply_level outflow_2 _ v s h = ground arith

module _ (p : JsonParser) (garbage : Channel → Text) (chunk : Text) where
  -- The state with the value left in `new_gate_value`.
  abbrev reads : Channel → Sim → Sim
  reads c s = record s {
    new_gate_value =
        (get_json_int_field p (garbage c) chunk (snprintf 15 (codes "gate-" ++ gate c))
          s.new_gate_value).1;
  }

  gate_round_lem :
      (c : Channel) (s : Sim)
      → s.balance_flow ≡ balance s.flow
      → gate_round p garbage chunk c s ≡ after c (asked p garbage chunk c) (reads c s)
  unfolding gate_round
  gate_round_lem c s h =
      let (res, v) =
        get_json_int_field p (garbage c) chunk (snprintf 15 (codes "gate-" ++ gate c))
          s.new_gate_value in
      apply_level c res v s h
      ∙ ap (λ o. after c o (record s { new_gate_value = v }))
          (level-get_json_int_field p garbage chunk c s.new_gate_value)

  -- Where the stored balance is that of the flows, a message sets each of the three flows to the level
  -- that its own field asks for, and leaves it where the field is missing, is no number or is out of
  -- range, whatever the other fields hold and whatever was read before; the stored balance is then that
  -- of the new flows, and the reservoir and the level stay.
  handle_message_flows :
      (s : Sim)
      → s.balance_flow ≡ balance s.flow
      → let s' = handle_message p garbage chunk s in
        ((c : Channel) → get s'.flow c ≡ set_by c (asked p garbage chunk c) (get s.flow c))
        × (s'.balance_flow ≡ balance s'.flow)
        × (s'.reservoir ≡ s.reservoir)
        × (s'.water_level ≡ s.water_level)
  unfolding handle_message
  handle_message_flows s h =
      let first = gate_round_lem inflow s h in
      let second =
        gate_round_lem outflow_1 (after inflow (asked p garbage chunk inflow) (reads inflow s))
          refl in
      let third =
        gate_round_lem outflow_2
          (after outflow_1 (asked p garbage chunk outflow_1)
            (reads outflow_1 (after inflow (asked p garbage chunk inflow) (reads inflow s))))
          refl in
      rw (first, second, third) (each, refl, refl, refl)
    where
      each :
          (c : Channel)
          → get
              (put
                (put
                  (put s.flow inflow
                    (set_by inflow (asked p garbage chunk inflow) (get s.flow inflow)))
                  outflow_1
                  (set_by outflow_1 (asked p garbage chunk outflow_1) (get s.flow outflow_1)))
                outflow_2
                (set_by outflow_2 (asked p garbage chunk outflow_2) (get s.flow outflow_2)))
              c
            ≡ set_by c (asked p garbage chunk c) (get s.flow c)
      each inflow = refl
      each outflow_1 = refl
      each outflow_2 = refl

-- The record that the sensor publishes, with nothing cut off.
abbrev pub level_text : LinkAddr → ℕ → Text
level_text addr v =
    codes "{\"bn\":\""
    ++ (urn addr
        ++ (codes "\",\"bu\": \"m\", \"e\":[{\"n\":\"water-level\", \"v\":"
            ++ (format_d (pos v) ++ (codes "e-" ++ (format_d scale_exp ++ codes "}]}")))))

length-level_text : (addr : LinkAddr) (v : ℕ) → length (level_text addr v) < app_buffer_size
length-level_text addr v = omega (arith, length-append {0}, length-urn, length-format_d)

build_message_whole :
    (addr : LinkAddr) (s : Sim)
    → length (level_text addr s.water_level) < app_buffer_size
    → build_message addr s ≡ level_text addr s.water_level
unfolding build_message
build_message_whole addr s fits =
    snprintf_whole app_buffer_size (level_text addr s.water_level) fits

-- The record that the sensor publishes has the device's name and the water level in thousandths, and
-- fits its buffer of 512 bytes with its end.
pub build_message_level :
    (addr : LinkAddr) (s : Sim)
    → (build_message addr s ≡ level_text addr s.water_level)
      × (length (build_message addr s) < app_buffer_size)
build_message_level addr s =
    let fits = length-level_text addr s.water_level in
    let whole = build_message_whole addr s fits in (whole, rw whole fits)
