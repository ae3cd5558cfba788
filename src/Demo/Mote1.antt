-- ===== src/Demo/Mote1.antt =====
-- Motes/demo/mote-1/mote-1.c: the controller of both gates and of the alarm, with the web server.
pub mod Messages
pub mod Waiting
use dam_monitoring.Prelude.{ℕ, Bool, true, List, [], ◌∷◌, ◌++◌}
use dam_monitoring.Clib.Text.{Text, codes, snprintf}
use dam_monitoring.Registration
use dam_monitoring.Registration.{Network, Firmware, Controller, Reply, idle}
use dam_monitoring.GateController.{is_null}

abbrev pub msg_len : ℕ
msg_len = 512

-- The callback of the request, word for word the gate controller's.
abbrev pub handle_coap_response : Reply → Controller → Controller
handle_coap_response = Registration.handle_coap_response

-- The test of the first loop.
unfoldable pub offline : Network → Bool
offline n = is_null n.address

-- The text that the message is formatted from.
abbrev pub registration : Text → Text
registration addr =
    codes
      "[{\"name\":\"outflow-1\",\"type\":\"gate\",\"description\":\"Gate controller\",\"tag\":\"Primary\",\"uri\":\"coap://["
    ++ (addr
        ++ (codes
              "]/actuator/gate/outflow-1\",\"value\":0},{\"name\":\"outflow-2\", \"type\":\"gate\",\"description\":\"Gate controller\",\"tag\":\"Emergency\",\"uri\":\"coap://["
            ++ (addr
                ++ (codes
                      "]/actuator/gate/outflow-2\",\"value\":0},{\"name\":\"alarm\", \"type\":\"alarm\",\"description\":\"Alarm controller\",\"uri\":\"coap://["
                    ++ (addr ++ codes "]/actuator/alarm\",\"value\":0}]")))))

unfoldable pub message : Text → Text
unfolding snprintf
message addr = snprintf msg_len (registration addr)

-- The paths of `res_gate_1`, `res_gate_2` and `res_alarm`.
abbrev pub paths : List Text
paths =
    codes "actuator/gate/outflow-1" ∷ codes "actuator/gate/outflow-2" ∷ codes "actuator/alarm" ∷ []

abbrev pub firmware : Firmware
firmware = record { offline = offline; message = message; paths = paths }

-- The process up to its first loop.
unfoldable pub boot : Controller
boot = record idle { webserver = true }
