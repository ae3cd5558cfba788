-- ===== src/SensorSim.antt =====
-- Motes/lib/common/sensor-sim.h: the constants of the simulation and its two formulas.
-- `VAR_THRESHOLD` is the double 0.15 * 1000, which is 150 exactly, and is used as that integer.
pub mod Settings
pub mod Asked
pub mod Heard
use dam_monitoring.Prelude.{ℕ, ◌+◌, ◌*◌, ◌/◌, Option, some, ◌>>=◌, if◌then◌else◌}
use dam_monitoring.Prelude.Int.{ℤ, pos, pos_part, ltb_ℤ, eqb_ℤ, ◌+ℤ◌, ◌-ℤ◌, ◌*ℤ◌}
use dam_monitoring.Clib.Text.{Text, codes}
use dam_monitoring.Clib.Arith.{rem_int}

abbrev pub scale_exp : ℤ
scale_exp = pos 3

abbrev pub multiplier : ℕ
multiplier = 1000

abbrev pub max_outflow_1 : ℕ
max_outflow_1 = 100 * multiplier / 100

abbrev pub max_outflow_2 : ℕ
max_outflow_2 = 35 * multiplier / 100

abbrev pub max_inflow : ℕ
max_inflow = 80 * multiplier / 100

abbrev pub init_outgate : ℕ
init_outgate = 0

abbrev pub init_ingate : ℕ
init_ingate = 40

abbrev pub init_water_level : ℕ
init_water_level = 32 * multiplier

abbrev pub max_water_level : ℕ
max_water_level = 64 * multiplier

abbrev pub init_balance_flow : ℤ
unfolding ◌-ℤ◌
init_balance_flow =
    pos (max_inflow * init_ingate)
    -ℤ pos (init_outgate * max_outflow_1 + init_outgate * max_outflow_2)

abbrev pub max_reservoir : ℕ
max_reservoir = 1048576 / 16 * multiplier

abbrev pub surface : ℕ
surface = 16384 / 16

abbrev pub init_reservoir : ℕ
init_reservoir = 737280 / 16 * multiplier

unfoldable pub min_balance_flow : ℤ
unfolding ◌-ℤ◌
min_balance_flow = (pos 0 -ℤ pos max_outflow_1 -ℤ pos max_outflow_2) *ℤ pos 100

unfoldable pub max_balance_flow : ℤ
max_balance_flow = pos (max_inflow * 100)

abbrev pub var_threshold : ℕ
var_threshold = 150

abbrev pub water_level_var : ℕ
water_level_var = 5

-- The indices 0, 1 and 2 of the arrays over the three channels.
pub data Channel : Type 0 where
  inflow outflow_1 outflow_2 : Channel

-- `MAX_FLOW(i)`, and `MAX_FLOW` of a build for one channel.
abbrev pub max_flow : Channel → ℕ
max_flow inflow = max_inflow
max_flow outflow_1 = max_outflow_1
max_flow outflow_2 = max_outflow_2

-- `GATE(i)`.
abbrev pub gate : Channel → Text
gate inflow = codes "inflow"
gate outflow_1 = codes "outflow-1"
gate outflow_2 = codes "outflow-2"

-- An `int` array over the channels.
pub record Flows : Type 0 where
  pub at_inflow : ℤ
  pub at_outflow_1 : ℤ
  pub at_outflow_2 : ℤ

abbrev pub get : Flows → Channel → ℤ
get f inflow = f.at_inflow
get f outflow_1 = f.at_outflow_1
get f outflow_2 = f.at_outflow_2

abbrev pub put : Flows → Channel → ℤ → Flows
put f inflow v = record f { at_inflow = v }
put f outflow_1 v = record f { at_outflow_1 = v }
put f outflow_2 v = record f { at_outflow_2 = v }

-- The initial value of the flow arrays.
abbrev pub init_flows : Flows
init_flows = record {
  at_inflow = pos (max_inflow * init_ingate);
  at_outflow_1 = pos (max_outflow_1 * init_outgate);
  at_outflow_2 = pos (max_outflow_2 * init_outgate);
}

-- `LINEAR_VAR`; undefined where the distance from the bound is below 10.
unfoldable pub linear_var : ℕ → ℤ → ℤ → Option ℤ
unfolding rem_int
linear_var random bound flow =
    let distance = if ltb_ℤ flow bound then bound -ℤ flow else flow -ℤ bound in
    rem_int random (pos (pos_part distance / 10)) >>= λ r. some (pos (r + 100))

-- `STEADY_VAR`.
unfoldable pub steady_var : ℤ → ℕ → ℤ → ℤ → Option ℤ
unfolding rem_int
steady_var target random max min =
    if eqb_ℤ target (pos 0)
    then some (pos 0)
    else (rem_int random (max -ℤ min +ℤ pos 1) >>= λ r. some (pos r +ℤ min))
