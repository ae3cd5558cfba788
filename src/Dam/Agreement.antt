-- ===== src/Dam/Agreement.antt =====
-- The devices of a dam after the same messages (Motes/firmwares): the water level sensor computes its
-- balance from the flows that the flow sensors aim at.
use dam_monitoring.Prelude.{ℕ, ◌≡◌, refl, sym, ap, ◌∙◌, List, some}
use dam_monitoring.Prelude.Int.{ℤ, ◌-ℤ◌}
use dam_monitoring.Common.Json.{JsonParser}
use dam_monitoring.Common.Urn.{LinkAddr}
use dam_monitoring.SensorSim.{Channel, inflow, outflow_1, outflow_2, get, init_flows}
use dam_monitoring.SensorSim.Heard.{settle}
use dam_monitoring.FlowSensor
use dam_monitoring.FlowSensor.{FlowDevice}
use dam_monitoring.FlowSensor.Device as FlowRuns
use dam_monitoring.WaterLevel
use dam_monitoring.WaterLevel.{WaterDevice, balance}
use dam_monitoring.WaterLevel.Device as WaterRuns
use dam_monitoring.WaterLevel.Device.{run-start-IsSound}
use dam_monitoring.History.{All}
use dam_monitoring.Dam.Listener.{messages, run_hears}
use dam_monitoring.Dam.Flow.{IsQuietFlow, flow_payload, flow_listener}
use dam_monitoring.Dam.Water.{IsQuietWater, water_payload, water_listener}

module _ (p : JsonParser) (addr : LinkAddr) (clock_second : ℕ) (to_clock_time : ℤ → ℤ)
    (c : Channel) where
  first_target :
      get (FlowSensor.start p addr clock_second to_clock_time c).sim.target_flow c
      ≡ get init_flows c
  unfolding FlowSensor.start FlowSensor.init_sim
  first_target = refl

  -- The target of a flow sensor is what its messages settle.
  pub target-settle :
      (is : List FlowRuns.Input) {d : FlowDevice}
      → All (IsQuietFlow c) is
      → FlowRuns.run p addr clock_second to_clock_time c is
          (FlowSensor.start p addr clock_second to_clock_time c)
        ≡ some d
      → get d.sim.target_flow c ≡ settle p c (messages flow_payload is) (get init_flows c)
  target-settle is quiet h =
      run_hears (flow_listener p addr clock_second to_clock_time c) is _ quiet h
      ∙ ap (settle p c (messages flow_payload is)) first_target

  first_flow :
      get (WaterLevel.start p addr clock_second to_clock_time).sim.flow c ≡ get init_flows c
  unfolding WaterLevel.start WaterLevel.init_sim
  first_flow = refl

  -- A flow of the water level sensor is what its messages settle.
  pub flow-settle :
      (js : List WaterRuns.Input) {w : WaterDevice}
      → All (IsQuietWater c) js
      → WaterRuns.run p addr clock_second to_clock_time js
          (WaterLevel.start p addr clock_second to_clock_time)
        ≡ some w
      → get w.sim.flow c ≡ settle p c (messages water_payload js) (get init_flows c)
  flow-settle js quiet h =
      run_hears (water_listener p addr clock_second to_clock_time c) js _ quiet h
      ∙ ap (settle p c (messages water_payload js)) first_flow

-- The balance of flows that are equal.
balance_of_targets :
    (w : WaterDevice) (t : Channel → ℤ)
    → w.sim.balance_flow ≡ balance w.sim.flow
    → ((c : Channel) → get w.sim.flow c ≡ t c)
    → w.sim.balance_flow ≡ t inflow -ℤ t outflow_1 -ℤ t outflow_2
unfolding balance
balance_of_targets w t b e =
    b
    ∙ ap (λ x. x -ℤ w.sim.flow.at_outflow_1 -ℤ w.sim.flow.at_outflow_2) (e inflow)
    ∙ ap (λ x. t inflow -ℤ x -ℤ w.sim.flow.at_outflow_2) (e outflow_1)
    ∙ ap (λ x. t inflow -ℤ t outflow_1 -ℤ x) (e outflow_2)

-- Three flow sensors, one for each channel, and a water level sensor, each at its own pace: if from
-- their starts they got the same messages in the same order, whatever else came between, no button of
-- the inflow sensor among it, and no uninitialised buffer held a field's name, then the water level
-- sensor has for each channel the flow that the channel's sensor aims at, and its balance is the aim of
-- the inflow less those of the two outflows.
pub dam_agrees :
    (p : JsonParser) (addr : Channel → LinkAddr) (addr' : LinkAddr) (clock_second : ℕ)
    (to_clock_time : ℤ → ℤ) (is : Channel → List FlowRuns.Input) (js : List WaterRuns.Input)
    (d : Channel → FlowDevice) {w : WaterDevice}
    → ((c : Channel) → All (IsQuietFlow c) (is c) × All (IsQuietWater c) js)
    → ((c : Channel) → messages flow_payload (is c) ≡ messages water_payload js)
    → ((c : Channel)
        → FlowRuns.run p
            (addr c)
            clock_second
            to_clock_time
            c
            (is c)
            (FlowSensor.start p (addr c) clock_second to_clock_time c)
          ≡ some (d c))
    → WaterRuns.run p addr' clock_second to_clock_time js
        (WaterLevel.start p addr' clock_second to_clock_time)
      ≡ some w
    → ((c : Channel) → get w.sim.flow c ≡ get (d c).sim.target_flow c)
      × (w.sim.balance_flow
          ≡ get (d inflow).sim.target_flow inflow
            -ℤ get (d outflow_1).sim.target_flow outflow_1
            -ℤ get (d outflow_2).sim.target_flow outflow_2)
dam_agrees p addr addr' clock_second to_clock_time is js d {w} quiet same runs runs' =
    let each : (c : Channel) → get w.sim.flow c ≡ get (d c).sim.target_flow c = λ c.
      flow-settle p addr' clock_second to_clock_time c js (quiet c).1 runs'
      ∙ ap (λ l. settle p c l (get init_flows c)) (sym (same c))
      ∙ sym (target-settle p (addr c) clock_second to_clock_time c (is c) (quiet c).0 (runs c)) in
    let sound = (run-start-IsSound p addr' clock_second to_clock_time js runs').0 in
    (each, balance_of_targets w (λ c. get (d c).sim.target_flow c) sound.balanced.balanced each)
