-- ===== src/GateController.antt =====
-- Motes/firmwares/gate-controller/gate-controller.c: the controller of one outflow's gate and of the
-- alarm. `FLOW` is the number that the build chooses, 1 or 2.
pub mod Messages
pub mod Routes
pub mod Register
pub mod Actuators
use dam_monitoring.Prelude.{
  ℕ, Bool, true, false, not, ◌&&◌, [], ◌∷◌, ◌++◌, Option, none, some, ◌==◌, if◌then◌else◌,
}
use dam_monitoring.Prelude.Int.{pos}
use dam_monitoring.Clib.Text.{Text, codes, snprintf}
use dam_monitoring.Clib.Format.{format_d}
use dam_monitoring.Registration.{Network, Firmware, Controller, idle, msg_len}

-- `== NULL`.
abbrev pub is_null : Option Text → Bool
is_null none = true
is_null (some a) = false

-- The test of the first loop.
unfoldable pub offline : Network → Bool
offline n = is_null n.address && not n.default_route

abbrev pub tag : ℕ → Text
tag flow = if flow == 1 then codes "Primary" else codes "Emergency"

-- The text that the message is formatted from.
abbrev pub registration : ℕ → Text → Text
registration flow addr =
    codes "[{\"name\":\"outflow-"
    ++ (format_d (pos flow)
        ++ (codes "\", \"type\":\"gate\",\"description\":\"Gate controller\",\"tag\":\""
            ++ (tag flow
                ++ (codes "\",\"uri\":\"coap://["
                    ++ (addr
                        ++ (codes "]/actuator/gate/outflow-"
                            ++ (format_d (pos flow)
                                ++ (codes "\",\"value\":0},{\"name\":\"alarm-"
                                    ++ (format_d (pos flow)
                                        ++ (codes
                                              "\", \"type\":\"alarm\",\"description\":\"Alarm controller\",\"uri\":\"coap://["
                                            ++ (addr
                                                ++ codes
                                                    "]/actuator/alarm\",\"value\":0}]")))))))))))

unfoldable pub message : ℕ → Text → Text
unfolding snprintf
message flow addr = snprintf msg_len (registration flow addr)

-- The path of `res_gate_1`, and that of `res_alarm`.
abbrev pub gate_path : ℕ → Text
gate_path flow = codes "actuator/gate/outflow-" ++ format_d (pos flow)

abbrev pub alarm_path : Text
alarm_path = codes "actuator/alarm"

abbrev pub firmware : ℕ → Firmware
firmware flow = record {
  offline = offline;
  message = message flow;
  paths = gate_path flow ∷ alarm_path ∷ [];
}

-- The process up to its first loop.
unfoldable pub boot : Controller
boot = idle
