-- ===== src/GateController/Routes.antt =====
-- The gates that the paths of Motes/firmwares/gate-controller/gate-controller.c and
-- Motes/demo/mote-1/mote-1.c lead to, in the handlers of Motes/lib/resources/res-gate.c.
use dam_monitoring.Prelude.{◌≡◌, refl, some}
use dam_monitoring.Prelude.Int.{ℤ, pos, ◌-ℤ◌}
use dam_monitoring.Clib.Text.{Text}
use dam_monitoring.Clib.Format.{format_d}
use dam_monitoring.Coap.{Request}
use dam_monitoring.Gate.{Gates, gate_at, res_index}
use dam_monitoring.GateController.{gate_path}

res_index_at :
    (req : Request) (path : Text) (i : ℤ)
    → req.uri_path ≡ path
    → res_index (record req { uri_path = path }) ≡ some i
    → res_index req ≡ some i
unfolding res_index
res_index_at req path i at e = rw at e

pub index_1 : (req : Request) → req.uri_path ≡ gate_path 1 → res_index req ≡ some (pos 0)
index_1 req at = res_index_at req (gate_path 1) (pos 0) at (unfold res_index format_d ◌-ℤ◌ in refl)

pub index_2 : (req : Request) → req.uri_path ≡ gate_path 2 → res_index req ≡ some (pos 1)
index_2 req at = res_index_at req (gate_path 2) (pos 1) at (unfold res_index format_d ◌-ℤ◌ in refl)

pub gate_1_found : (gs : Gates) → gate_at (pos 0) gs ≡ some gs.gate_1
unfolding gate_at
gate_1_found gs = refl

pub gate_2_found : (gs : Gates) → gate_at (pos 1) gs ≡ some gs.gate_2
unfolding gate_at
gate_2_found gs = refl
