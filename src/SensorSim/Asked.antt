-- ===== src/SensorSim/Asked.antt =====
-- What a message asks of a gate (the message handlers of Motes/firmwares and Motes/demo): the value of
-- the gate's field, if that is a number from 0 to 100. It does not depend on what was read before.
use dam_monitoring.Prelude.{ℕ, ◌*◌, ◌≡◌, refl, Option, none, some, ◌++◌, leb, if◌then◌else◌}
use dam_monitoring.Prelude.Int.{ℤ, pos}
use dam_monitoring.Clib.Text.{Text, codes, snprintf}
use dam_monitoring.Clib.Atoi.{atoi}
use dam_monitoring.Common.Json.{JsonParser, FieldResult, good, converted, get_json_int_field}
use dam_monitoring.Common.Json.Fields.{number_field, int_outcome, get_json_int_field-number_field}
use dam_monitoring.SensorSim.{Channel, inflow, outflow_1, outflow_2, gate, max_flow}

-- The buffer of 15 bytes holds the field's name.
pub gate_field_whole :
    (c : Channel) → snprintf 15 (codes "gate-" ++ gate c) ≡ codes "gate-" ++ gate c
unfolding snprintf
gate_field_whole inflow = refl
gate_field_whole outflow_1 = refl
gate_field_whole outflow_2 = refl

-- A value that sets a gate.
abbrev pub level : FieldResult → ℤ → Option ℕ
level good (pos k) = if leb k 100 then some k else none
level _ v = none

abbrev pub asked_by : Option Text → Option ℕ
asked_by none = none
asked_by (some t) = level (converted t (atoi t)) (atoi t)

abbrev pub asked : JsonParser → (Channel → Text) → Text → Channel → Option ℕ
asked p garbage chunk c = asked_by (number_field p (garbage c) chunk (codes "gate-" ++ gate c))

-- The flow that a level stands for, or the flow as it was.
abbrev pub set_by : Channel → Option ℕ → ℤ → ℤ
set_by c none v = v
set_by c (some k) v = pos (k * max_flow c)

pub level-int_outcome :
    (value : ℤ) (o : Option Text)
    → level (int_outcome value o).0 (int_outcome value o).1 ≡ asked_by o
unfolding int_outcome
level-int_outcome value none = refl
level-int_outcome value (some t) = refl

-- What a reading gives for a gate, whatever was read before.
pub level-get_json_int_field :
    (p : JsonParser) (garbage : Channel → Text) (chunk : Text) (c : Channel) (value : ℤ)
    → let (res, v) =
        get_json_int_field p (garbage c) chunk (snprintf 15 (codes "gate-" ++ gate c)) value in
      level res v ≡ asked p garbage chunk c
level-get_json_int_field p garbage chunk c value =
    let read =
      get_json_int_field-number_field p (garbage c) chunk (codes "gate-" ++ gate c) value in
    rw (gate_field_whole c, read)
      (level-int_outcome value (number_field p (garbage c) chunk (codes "gate-" ++ gate c)))
