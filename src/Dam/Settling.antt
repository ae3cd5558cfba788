-- ===== src/Dam/Settling.antt =====
-- The flow that a flow sensor simulates and the one that the water level sensor counts with
-- (Motes/firmwares), after the same messages and enough readings.
use dam_monitoring.Prelude.{ℕ, ◌+◌, ◌*◌, ◌≤◌, ◌≡◌, sym, ap, ◌∙◌, List, some, length, arith}
use dam_monitoring.Prelude.Int.{ℤ, pos}
use dam_monitoring.Common.Json.{JsonParser}
use dam_monitoring.Common.Urn.{LinkAddr}
use dam_monitoring.SensorSim.{Channel, get, init_flows}
use dam_monitoring.SensorSim.Heard.{settle}
use dam_monitoring.FlowSensor
use dam_monitoring.FlowSensor.{FlowDevice}
use dam_monitoring.FlowSensor.Device as FlowRuns
use dam_monitoring.FlowSensor.Settle.{excess, simulate_flows, simulate_flows_settle}
use dam_monitoring.FlowSensor.Response.{readings, readings-simulate_flows}
use dam_monitoring.WaterLevel
use dam_monitoring.WaterLevel.{WaterDevice}
use dam_monitoring.WaterLevel.Device as WaterRuns
use dam_monitoring.History.{All}
use dam_monitoring.Dam.Listener.{messages}
use dam_monitoring.Dam.Flow.{IsQuietFlow, flow_payload}
use dam_monitoring.Dam.Water.{IsQuietWater, water_payload}
use dam_monitoring.Dam.Agreement.{target-settle, flow-settle}

-- A flow sensor and a water level sensor, each at its own pace: if from their starts they got the same
-- messages in the same order, whatever else came between, no button of the inflow sensor among it, and
-- no uninitialised buffer held the channel's field name, and the flow sensor has then had readings that
-- C defines, enough of them to close at 100 a reading the distance from its flow to the one that the
-- water level sensor has for the channel, then the two flows are within 150 of each other.
pub dam_settles :
    (p : JsonParser) (addr addr' : LinkAddr) (clock_second : ℕ) (to_clock_time : ℤ → ℤ)
    (c : Channel) (is : List FlowRuns.Input) (js : List WaterRuns.Input) (rs : List ℕ) (f t : ℕ)
    {d e : FlowDevice} {w : WaterDevice}
    → All (IsQuietFlow c) is
    → All (IsQuietWater c) js
    → messages flow_payload is ≡ messages water_payload js
    → FlowRuns.run p addr clock_second to_clock_time c is
        (FlowSensor.start p addr clock_second to_clock_time c)
      ≡ some d
    → WaterRuns.run p addr' clock_second to_clock_time js
        (WaterLevel.start p addr' clock_second to_clock_time)
      ≡ some w
    → get d.sim.flow c ≡ pos f
    → get w.sim.flow c ≡ pos t
    → excess t f ≤ 100 * length rs
    → FlowRuns.run p addr clock_second to_clock_time c (readings rs) d ≡ some e
    → (v : ℕ) × (get e.sim.flow c ≡ pos v) × (t ≤ v + 150) × (v ≤ t + 150)
unfolding excess
dam_settles p addr addr' clock_second to_clock_time c is js rs f t {d} {e} {w} quiet quiet' same
      runs runs' flow counted enough later =
    let target : get d.sim.target_flow c ≡ pos t =
      target-settle p addr clock_second to_clock_time c is quiet runs
      ∙ ap (λ l. settle p c l (get init_flows c)) same
      ∙ sym (flow-settle p addr' clock_second to_clock_time c js quiet' runs')
      ∙ counted in
    let steps : simulate_flows rs (pos t) (pos f) ≡ some (get e.sim.flow c) =
      rw (sym target, sym flow)
        (readings-simulate_flows p addr clock_second to_clock_time c rs d later) in
    let (v, at, near) = simulate_flows_settle rs t f enough steps in
    (v, at, omega arith, omega arith)
