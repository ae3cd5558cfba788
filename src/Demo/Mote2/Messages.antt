-- ===== src/Demo/Mote2/Messages.antt =====
-- The messages of Motes/demo/mote-2/mote-2.c: what it publishes, and what a message sets.
use dam_monitoring.Prelude.{◌<◌, ◌≡◌, refl, ap, ◌∙◌, ◌++◌, length, length-append, arith}
use dam_monitoring.Prelude.Int.{ℤ}
use dam_monitoring.Clib.Text.{Text, codes, snprintf, snprintf_whole}
use dam_monitoring.Clib.Format.{format_d, length-format_d}
use dam_monitoring.Common.Json.{JsonParser, get_json_int_field}
use dam_monitoring.Common.Urn.{LinkAddr, urn, length-urn}
use dam_monitoring.SensorSim.{
  Channel, inflow, outflow_1, outflow_2, gate, Flows, get, put, scale_exp,
}
use dam_monitoring.SensorSim.Asked.{asked, set_by, level-get_json_int_field}
use dam_monitoring.Mqtt.{app_buffer_size}
use dam_monitoring.FlowSensor.{Sim}
use dam_monitoring.FlowSensor.Wanted.{apply_level}
use dam_monitoring.Demo.Mote2.{gate_round, handle_message, build_message}

module _ (p : JsonParser) (garbage : Channel → Text) (chunk : Text) where
  -- The value left in `new_gate_value`.
  abbrev read_value : Channel → Sim → ℤ
  read_value c s =
      (get_json_int_field p (garbage c) chunk (snprintf 15 (codes "gate-" ++ gate c))
        s.new_gate_value).1

  gate_round_lem :
      (c : Channel) (s : Sim)
      → gate_round p garbage chunk c s ≡ record s {
        new_gate_value = read_value c s;
        target_flow =
            put s.target_flow c (set_by c (asked p garbage chunk c) (get s.target_flow c));
      }
  unfolding gate_round
  gate_round_lem c s =
      let (res, v) =
        get_json_int_field p (garbage c) chunk (snprintf 15 (codes "gate-" ++ gate c))
          s.new_gate_value in
      apply_level c res v s
      ∙ ap
          (λ o. record s {
            new_gate_value = v;
            target_flow = put s.target_flow c (set_by c o (get s.target_flow c));
          })
          (level-get_json_int_field p garbage chunk c s.new_gate_value)

  -- A message sets the target of each outflow to the level that its own field asks for, and leaves it
  -- where the field is missing, is no number or is out of range, whatever the other field holds and
  -- whatever was read before; the inflow's target and all flows stay.
  pub handle_message_targets :
      (s : Sim)
      → let s' = handle_message p garbage chunk s in
        (get s'.target_flow inflow ≡ get s.target_flow inflow)
        × (get s'.target_flow outflow_1
            ≡ set_by outflow_1 (asked p garbage chunk outflow_1) (get s.target_flow outflow_1))
        × (get s'.target_flow outflow_2
            ≡ set_by outflow_2 (asked p garbage chunk outflow_2) (get s.target_flow outflow_2))
        × (s'.flow ≡ s.flow)
  unfolding handle_message
  handle_message_targets s =
      let first = gate_round_lem outflow_1 s in
      rw (first, gate_round_lem outflow_2 _) (refl, refl, refl, refl)

-- The record that the mote publishes, with nothing cut off.
abbrev pub record_text : LinkAddr → Flows → Text
record_text addr f =
    codes "{\"bn\":\""
    ++ (urn addr
        ++ (codes "\",\"bu\":\"m3/s\", \"e\": [{\"n\":\"inflow\", \"v\":"
            ++ ((format_d f.at_inflow ++ (codes "e-" ++ format_d scale_exp))
                ++ (codes "},{\"n\":\"outflow-1\", \"v\":"
                    ++ ((format_d f.at_outflow_1 ++ (codes "e-" ++ format_d scale_exp))
                        ++ (codes "},{\"n\":\"outflow-2\", \"v\":"
                            ++ ((format_d f.at_outflow_2 ++ (codes "e-" ++ format_d scale_exp))
                                ++ codes "}]}")))))))

length-record_text : (addr : LinkAddr) (f : Flows) → length (record_text addr f) < app_buffer_size
length-record_text addr f = omega (arith, length-append {0}, length-urn, length-format_d)

build_message_whole :
    (addr : LinkAddr) (s : Sim)
    → length (record_text addr s.flow) < app_buffer_size
    → build_message addr s ≡ record_text addr s.flow
unfolding build_message
build_message_whole addr s fits = snprintf_whole app_buffer_size (record_text addr s.flow) fits

-- The record that the mote publishes has the device's name and the flows of all three channels in
-- thousandths, and fits its buffer of 512 bytes with its end.
pub build_message_flows :
    (addr : LinkAddr) (s : Sim)
    → (build_message addr s ≡ record_text addr s.flow)
      × (length (build_message addr s) < app_buffer_size)
build_message_flows addr s =
    let fits = length-record_text addr s.flow in
    let whole = build_message_whole addr s fits in (whole, rw whole fits)
