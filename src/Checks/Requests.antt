-- ===== src/Checks/Requests.antt =====
-- The properties of the resources (Motes/lib/resources) and of Motes/lib/common at concrete inputs.
use dam_monitoring.Prelude.{ℕ, ◌+◌, ◌-◌, ◌≤◌, true, suc, ◌≡◌, refl, false, List, [], ◌∷◌, some}
use dam_monitoring.Prelude.Int.{pos}
use dam_monitoring.Clib.Text.{codes}
use dam_monitoring.Common.Json.{int_loop, get_json_int_field}
use dam_monitoring.Common.Json.Fields.{
  Token, Tokens, named, first_number, int_outcome, get_json_int_field_lem,
}
use dam_monitoring.Coap.{application_json, Request}
use dam_monitoring.Gate.{Gate}
use dam_monitoring.Gate.Blinking.{expire_times, toggled, blink_times_stop}
use dam_monitoring.Alarm
use dam_monitoring.Alarm.{init_alarm}
use dam_monitoring.Alarm.Requests
use dam_monitoring.Alarm.Requests.{IsConsistent, run-init_alarm}
use dam_monitoring.Checks.{half_open, switched_on, put_text}

get_json_int_field_lem_example :
    (l : List Token) × Tokens half_open (half_open.setup []) l
    × (int_loop half_open
          (suc (half_open.remaining (half_open.setup [])))
          (half_open.setup [])
          []
          (codes "gate-inflow")
          (pos 7)
        ≡ some (get_json_int_field half_open [] [] (codes "gate-inflow") (pos 7)))
    × (get_json_int_field half_open [] [] (codes "gate-inflow") (pos 7)
        ≡ int_outcome (pos 7) (first_number (codes "gate-inflow") (named [] l)))
get_json_int_field_lem_example =
    get_json_int_field_lem half_open [] [] (codes "gate-inflow") (pos 7)

-- The first gate after a new level.
abbrev moved_gate : Gate
moved_gate = record { opening_level = pos 50; timer = true; blinks = 5; lit = false }

blink_times_stop_example :
    ((j : ℕ)
      → j ≤ 5
      → expire_times j moved_gate
        ≡ record moved_gate { lit = toggled j false; blinks = 5 - j; timer = true })
    × ((m : ℕ)
        → expire_times (m + suc 5) moved_gate
          ≡ record moved_gate { lit = false; blinks = 5; timer = false })
blink_times_stop_example = blink_times_stop 5 moved_gate refl refl

run-init_alarm_example : IsConsistent (
    Requests.run switched_on
      (Requests.put [] (put_text (codes "true")) ∷ Requests.expire ∷ [])
      init_alarm)
run-init_alarm_example =
    run-init_alarm switched_on (Requests.put [] (put_text (codes "true")) ∷ Requests.expire ∷ [])

abbrev json_request : Request
json_request = record (put_text []) {
  content_format = some application_json;
  payload = (2, codes "{}");
}
