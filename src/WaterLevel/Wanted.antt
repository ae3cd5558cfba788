-- ===== src/WaterLevel/Wanted.antt =====
-- What a message sets in Motes/firmwares/water-level-sensor/water-level-sensor.c, whatever balance is
-- stored.
use dam_monitoring.Prelude.{◌≡◌, refl, ap, ◌∙◌, ◌++◌, arith}
use dam_monitoring.Prelude.Int.{ℤ, pos, negsuc, ◌*ℤ◌}
use dam_monitoring.Clib.Text.{Text, codes, snprintf}
use dam_monitoring.Common.Json.{JsonParser, FieldResult, good, get_json_int_field}
use dam_monitoring.SensorSim.{Channel, inflow, outflow_1, outflow_2, gate, Flows, get, put}
use dam_monitoring.SensorSim.Asked.{level, asked, set_by, level-get_json_int_field}
use dam_monitoring.WaterLevel.{Sim, apply_gate, gate_round, handle_message}

apply_flow :
    (c : Channel) (res : FieldResult) (v : ℤ) (s : Sim)
    → (apply_gate c res (record s { new_gate_value = v })).flow
      ≡ put s.flow c (set_by c (level res v) (get s.flow c))
unfolding apply_gate ◌*ℤ◌
apply_flow inflow good (pos k) s = ground arith
apply_flow outflow_1 good (pos k) s = ground arith
apply_flow outflow_2 good (pos k) s = ground arith
apply_flow inflow good (negsuc k) s = ground arith
apply_flow outflow_1 good (negsuc k) s = ground arith
apply_flow outflow_2 good (negsuc k) s = ground arith
apply_flow inflow _ v s = ground arith
apply_flow outflow_1 _ v s = ground arith
apply_flow outflow_2 _ v s = ground arith

module _ (p : JsonParser) (garbage : Channel → Text) (chunk : Text) where
  -- The flows with one channel set by its field.
  abbrev set_one : Channel → Flows → Flows
  set_one c f = put f c (set_by c (asked p garbage chunk c) (get f c))

  gate_round_flow :
      (c : Channel) (s : Sim) → (gate_round p garbage chunk c s).flow ≡ set_one c s.flow
  unfolding gate_round
  gate_round_flow c s =
      let (res, v) =
        get_json_int_field p (garbage c) chunk (snprintf 15 (codes "gate-" ++ gate c))
          s.new_gate_value in
      apply_flow c res v s
      ∙ ap (λ o. put s.flow c (set_by c o (get s.flow c)))
          (level-get_json_int_field p garbage chunk c s.new_gate_value)

  set_all :
      (c : Channel) (f : Flows)
      → get (set_one outflow_2 (set_one outflow_1 (set_one inflow f))) c
        ≡ set_by c (asked p garbage chunk c) (get f c)
  set_all inflow f = refl
  set_all outflow_1 f = refl
  set_all outflow_2 f = refl

  -- Each flow is the level that its field asks for, or stays.
  pub handle_message_flow :
      (c : Channel) (s : Sim)
      → get (handle_message p garbage chunk s).flow c
        ≡ set_by c (asked p garbage chunk c) (get s.flow c)
  unfolding handle_message
  handle_message_flow c s =
      let s1 = gate_round p garbage chunk inflow s in
      let s2 = gate_round p garbage chunk outflow_1 s1 in
      ap (λ f. get f c)
        (gate_round_flow outflow_2 s2
          ∙ ap (set_one outflow_2)
              (gate_round_flow outflow_1 s1 ∙ ap (set_one outflow_1) (gate_round_flow inflow s)))
      ∙ set_all c s.flow
