-- ===== src/FlowSensor/Wanted.antt =====
-- What a message sets in Motes/firmwares/flow-sensor/flow-sensor.c, on every branch of its test at once.
use dam_monitoring.Prelude.{◌≡◌, refl, ap, ◌∙◌, ◌++◌, arith}
use dam_monitoring.Prelude.Int.{ℤ, pos, negsuc, ◌*ℤ◌}
use dam_monitoring.Clib.Text.{Text, codes, snprintf}
use dam_monitoring.Common.Json.{JsonParser, FieldResult, good, get_json_int_field}
use dam_monitoring.SensorSim.{Channel, inflow, outflow_1, outflow_2, gate, get, put}
use dam_monitoring.SensorSim.Asked.{level, asked, set_by, level-get_json_int_field}
use dam_monitoring.FlowSensor.{Sim, apply_gate, handle_message}

pub apply_level :
    (c : Channel) (res : FieldResult) (v : ℤ) (s : Sim)
    → apply_gate c res (record s { new_gate_value = v }) ≡ record s {
      new_gate_value = v;
      target_flow = put s.target_flow c (set_by c (level res v) (get s.target_flow c));
    }
unfolding apply_gate ◌*ℤ◌
apply_level inflow good (pos k) s = ground arith
apply_level outflow_1 good (pos k) s = ground arith
apply_level outflow_2 good (pos k) s = ground arith
apply_level inflow good (negsuc k) s = ground arith
apply_level outflow_1 good (negsuc k) s = ground arith
apply_level outflow_2 good (negsuc k) s = ground arith
apply_level inflow _ v s = ground arith
apply_level outflow_1 _ v s = ground arith
apply_level outflow_2 _ v s = ground arith

get-put : (c : Channel) (s : Sim) (v : ℤ) → get (put s.target_flow c v) c ≡ v
get-put inflow s v = refl
get-put outflow_1 s v = refl
get-put outflow_2 s v = refl

module _ (p : JsonParser) (c : Channel) (garbage chunk : Text) (s : Sim) where
  handle_message_level :
      let (res, v) =
        get_json_int_field p garbage chunk
          (snprintf 15 (codes "gate-" ++ gate c))
          s.new_gate_value in
      handle_message p c garbage chunk s ≡ record s {
        new_gate_value = v;
        target_flow = put s.target_flow c (set_by c (level res v) (get s.target_flow c));
      }
  unfolding handle_message
  handle_message_level =
      let (res, v) =
        get_json_int_field p garbage chunk (snprintf 15 (codes "gate-" ++ gate c))
          s.new_gate_value in
      apply_level c res v s

  -- The target of the channel is the level that its field asks for, or stays.
  pub handle_message_target :
      get (handle_message p c garbage chunk s).target_flow c
      ≡ set_by c (asked p (λ d. garbage) chunk c) (get s.target_flow c)
  handle_message_target =
      ap (λ x. get x.target_flow c) handle_message_level
      ∙ get-put c s _
      ∙ ap (λ o. set_by c o (get s.target_flow c))
          (level-get_json_int_field p (λ d. garbage) chunk c s.new_gate_value)

  -- No flow changes.
  pub handle_message-flow : (handle_message p c garbage chunk s).flow ≡ s.flow
  handle_message-flow = ap (λ x. x.flow) handle_message_level
