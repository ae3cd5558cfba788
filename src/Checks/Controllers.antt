-- ===== src/Checks/Controllers.antt =====
-- The properties of the registration, of the gate controller and of mote 1 (Motes/firmwares,
-- Motes/demo) at concrete inputs.
use dam_monitoring.History
use dam_monitoring.Prelude.{List, ◌<◌, ◌≡◌, ◌≢◌, refl, true, false, [], ◌∷◌, none, some, length}
use dam_monitoring.Prelude.Int.{pos, ◌-ℤ◌}
use dam_monitoring.Clib.Text.{Text, codes, snprintf}
use dam_monitoring.Clib.Format.{format_d}
use dam_monitoring.Coap.{Request, Response, content_2_05}
use dam_monitoring.Gate
use dam_monitoring.Gate.{Gates, init_gates, level_report, res_index, gate_at}
use dam_monitoring.Gate.Wanted.{wanted}
use dam_monitoring.Gate.Puts.{IsPut, res_put_handler-IsPut}
use dam_monitoring.Registration.{
  Network, created_2_01, other_code, no_response, serving, Controller, idle, pause, reply,
  process_event, post, serve, handle_coap_response, addr_size, msg_len, uri_field, IsWithin,
}
use dam_monitoring.Registration.Required.{HasConsent}
use dam_monitoring.Registration.Runs
use dam_monitoring.Registration.Runs.{Inv, run-idle-Inv}
use dam_monitoring.Registration.Consent.{replies, consent_serves}
use dam_monitoring.GateController
use dam_monitoring.GateController.{firmware, message, registration, gate_path, alarm_path}
use dam_monitoring.GateController.Messages.{message_lem}
use dam_monitoring.Alarm
use dam_monitoring.Alarm.{state_report}
use dam_monitoring.GateController.Register.{first, put, expire, at_path, level_of}
use dam_monitoring.GateController.Actuators as Nodes
use dam_monitoring.GateController.Actuators.{
  Actuators, to_gates, put_alarm, initial, Settings, settings, settings_after, actuators_refine,
}
use dam_monitoring.Demo.Mote1
use dam_monitoring.Demo.Mote1.Waiting.{null_address}
use dam_monitoring.Checks.{half_open, addr, put_text}

abbrev global : Text
global = codes "fd00::212:4b00:60d:b2ff"

abbrev shown : Text
shown = snprintf addr_size global

abbrev online : Network
online = record { address = some global; default_route = true }

-- A refusal, and the consent.
abbrev registered_node : Controller
registered_node = record {
  phase = serving;
  registered = true;
  n_msg = 2;
  sent = message 1 shown ∷ message 1 shown ∷ [];
  led = true;
  resources = alarm_path ∷ gate_path 1 ∷ [];
  webserver = false;
}

registers :
    Runs.run
      (firmware 1)
      (pause online ∷ reply other_code online ∷ reply created_2_01 online ∷ [])
      (record idle { webserver = false })
    ≡ some registered_node
unfolding History.run process_event post serve handle_coap_response GateController.offline
registers = refl

run-idle-Inv_example :
    Inv (firmware 1) registered_node
    × (registered_node.phase ≡ serving
        → HasConsent (pause online ∷ reply other_code online ∷ reply created_2_01 online ∷ []))
run-idle-Inv_example =
    run-idle-Inv (firmware 1) false
      (pause online ∷ reply other_code online ∷ reply created_2_01 online ∷ []) registers

goes_on : GateController.offline online ≡ false
unfolding GateController.offline
goes_on = refl

consent_serves_example :
    (c : Controller) × (Runs.run
        (firmware 1)
        (pause online ∷ replies online (other_code ∷ no_response ∷ []))
        (record idle { webserver = false })
      ≡ some c)
    × (c.phase ≡ serving)
    × (c.registered ≡ true)
    × (c.resources ≡ alarm_path ∷ gate_path 1 ∷ [])
    × (c.led ≡ true)
    × (length c.sent ≡ 3)
consent_serves_example =
    consent_serves (firmware 1) online global refl (other_code ∷ no_response ∷ []) false goes_on
      (λ e. cc, (λ e. cc, tt))

message_lem_example :
    (message 1 shown ≡ registration 1 shown)
    × (length (message 1 shown) < msg_len)
    × IsWithin (uri_field shown (gate_path 1)) (message 1 shown)
    × IsWithin (uri_field shown alarm_path) (message 1 shown)
message_lem_example = message_lem 1 global

-- A PUT to the path of the first gate.
abbrev gate_request : Request
gate_request = record (put_text (codes "50")) { uri_path = gate_path 1 }

gate_index : res_index gate_request ≡ some (pos 0)
unfolding res_index format_d ◌-ℤ◌
gate_index = refl

gate_found : gate_at (pos 0) init_gates ≡ some init_gates.gate_1
unfolding gate_at
gate_found = refl

res_put_handler-IsPut_example :
    (r : Response) × (gs' : Gates) × (Gate.res_put_handler half_open [] gate_request init_gates
      ≡ some (r, gs'))
    × IsPut (pos 0) init_gates init_gates.gate_1 (wanted half_open [] gate_request) r gs'
res_put_handler-IsPut_example =
    res_put_handler-IsPut half_open [] gate_request (pos 0) init_gates init_gates.gate_1 gate_index
      gate_found

-- A level for the first gate, the expiry of its timer, and the alarm switched on.
abbrev inputs : List Nodes.Input
inputs =
    to_gates (put first [] (put_text (codes "50")))
    ∷ to_gates (expire first)
    ∷ put_alarm [] (put_text (codes "true"))
    ∷ []

abbrev after : Settings
after = settings_after half_open inputs (settings initial)

actuators_refine_example :
    (a : Actuators) × (History.run (Nodes.step half_open) inputs initial ≡ some a)
    × (settings a ≡ after)
    × ((answer : Response) × (Gate.res_get_handler addr (at_path first (put_text [])) a.gates
          ≡ some answer)
        × (answer.code ≡ content_2_05)
        × (answer.body ≡ level_report addr (level_of first after.levels)))
    × ((Alarm.res_get_handler addr a.alarm).body ≡ state_report addr after.on)
actuators_refine_example = actuators_refine half_open inputs first addr (put_text [])

abbrev routed : Network
routed = record { address = none; default_route = true }

null_address_example :
    (process_event (firmware 1) (pause routed) idle ≡ none)
    × (process_event Mote1.firmware (pause routed) idle ≡ some idle)
    × ((m : Network) → process_event Mote1.firmware (pause m) idle ≢ none)
null_address_example = null_address 1 routed idle refl refl refl refl
