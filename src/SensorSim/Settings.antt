-- ===== src/SensorSim/Settings.antt =====
-- The gate values that the sensors take (Motes/lib/common/sensor-sim.h and its users), and the flow
-- that a value stands for.
use native.Mathlib.Decide.{dec_le}
use dam_monitoring.Prelude.{ℕ, ◌*◌, ◌≤◌, ◌≡◌, ◌⊎◌, inl, inr, refl, true, ◌||◌, arith}
use dam_monitoring.Prelude.Int.{ℤ, pos, negsuc, ltb_ℤ, ◌*ℤ◌}
use dam_monitoring.SensorSim.{Channel, inflow, outflow_1, outflow_2, Flows, get, put}

pub get-put : (f : Flows) (c : Channel) (v : ℤ) → get (put f c v) c ≡ v
get-put f inflow v = refl
get-put f outflow_1 v = refl
get-put f outflow_2 v = refl

pub times : (k m : ℕ) → pos k *ℤ pos m ≡ pos (k * m)
unfolding ◌*ℤ◌
times k m = ground arith

-- The test on a gate's value refuses it, or the value is a number from 0 to 100.
pub gate_value-cases :
    (v : ℤ) → ((ltb_ℤ v (pos 0) || ltb_ℤ (pos 100) v) ≡ true) ⊎ ((k : ℕ) × (k ≤ 100) × (v ≡ pos k))
gate_value-cases (pos n) = elim (dec_le n 100) [
  | yes h ↦ inr (n, h, refl)
  | no h ↦ inl (ground arith)
]
gate_value-cases (negsuc n) = inl (ground arith)
