-- ===== src/Checks/Recovering.antt =====
-- The way of the sensors (Motes/firmwares) and of mote 2 (Motes/demo) to their next record, at concrete
-- histories.
use dam_monitoring.History
use dam_monitoring.Prelude.{
  ℕ, ◌+◌, ◌*◌, ◌≤◌, ◌≡◌, refl, sym, ap, ◌∙◌, ◌++◌, List, [], ◌∷◌, some, length, arith,
}
use dam_monitoring.Prelude.Int.{pos, ◌-ℤ◌, ◌+ℤ◌, ◌*ℤ◌}
use dam_monitoring.Clib.Text.{codes, snprintf, strcmp_eq, strncmp_eq}
use dam_monitoring.Clib.Atoi.{atoi}
use dam_monitoring.Common.Json.{good, get_json_int_field}
use dam_monitoring.SensorSim.{inflow, gate, get, put, linear_var, steady_var}
use dam_monitoring.SensorSim.Asked.{asked, level, level-get_json_int_field}
use dam_monitoring.Mqtt.{publish_event, connected_event, disconnected_event}
use dam_monitoring.Process.Advance.{HasNext}
use dam_monitoring.FlowSensor
use dam_monitoring.FlowSensor.{FlowDevice, simulate_flow}
use dam_monitoring.FlowSensor.Settle.{excess}
use dam_monitoring.FlowSensor.Device as FlowRuns
use dam_monitoring.FlowSensor.Messages as FlowMessages
use dam_monitoring.FlowSensor.Recovery as FlowRecovery
use dam_monitoring.FlowSensor.Recovery.{flow_recovers}
use dam_monitoring.FlowSensor.Response.{readings, flow_responds}
use dam_monitoring.WaterLevel
use dam_monitoring.WaterLevel.{WaterDevice}
use dam_monitoring.WaterLevel.Device as WaterRuns
use dam_monitoring.WaterLevel.Messages.{level_text}
use dam_monitoring.WaterLevel.Recovery as WaterRecovery
use dam_monitoring.WaterLevel.Recovery.{level_recovers}
use dam_monitoring.Demo.Mote2
use dam_monitoring.Demo.Mote2.Runs as MoteRuns
use dam_monitoring.Demo.Mote2.Messages as MoteMessages
use dam_monitoring.Demo.Mote2.Recovery as MoteRecovery
use dam_monitoring.Demo.Mote2.Recovery.{mote_2_recovers}
use dam_monitoring.Checks.{little_more, seven, half_open, addr, to_clock_time, to_clock_time_nonneg}

-- A sensor that was connected, and lost its connection.
abbrev lost_flow : FlowDevice
lost_flow = FlowSensor.mqtt_event half_open addr 128 to_clock_time inflow disconnected_event (
    FlowSensor.mqtt_event half_open addr 128 to_clock_time inflow connected_event
      (FlowSensor.start half_open addr 128 to_clock_time inflow))

abbrev flow_loss : List FlowRuns.Input
flow_loss = FlowRuns.Input.engine connected_event ∷ FlowRuns.Input.engine disconnected_event ∷ []

loses_flow :
    History.run
      (FlowRuns.step half_open addr 128 to_clock_time inflow)
      flow_loss
      (FlowSensor.start half_open addr 128 to_clock_time inflow)
    ≡ some lost_flow
unfolding History.run FlowRuns.step
loses_flow = refl

flow_recovers_example :
    (e : FlowDevice) × (History.run
        (FlowRuns.step half_open addr 128 to_clock_time inflow)
        (FlowRecovery.next_history lost_flow.schedule.client.state)
        lost_flow
      ≡ some e)
    × (e.sim ≡ lost_flow.sim)
    × HasNext 128 addr to_clock_time
        (codes "flow-rate")
        (FlowMessages.record_text addr (gate inflow) (get lost_flow.sim.flow inflow))
        lost_flow.schedule
        e.schedule
flow_recovers_example =
    flow_recovers half_open addr 128 to_clock_time inflow to_clock_time_nonneg flow_loss loses_flow

abbrev lost_level : WaterDevice
lost_level = WaterLevel.mqtt_event half_open addr 128 to_clock_time disconnected_event (
    WaterLevel.mqtt_event half_open addr 128 to_clock_time connected_event
      (WaterLevel.start half_open addr 128 to_clock_time))

abbrev level_loss : List WaterRuns.Input
level_loss = WaterRuns.Input.engine connected_event ∷ WaterRuns.Input.engine disconnected_event ∷ []

loses_level :
    History.run
      (WaterRuns.step half_open addr 128 to_clock_time)
      level_loss
      (WaterLevel.start half_open addr 128 to_clock_time)
    ≡ some lost_level
unfolding History.run WaterRuns.step
loses_level = refl

level_recovers_example :
    (e : WaterDevice) × (History.run
        (WaterRuns.step half_open addr 128 to_clock_time)
        (WaterRecovery.next_history lost_level.schedule.client.state)
        lost_level
      ≡ some e)
    × (e.sim ≡ lost_level.sim)
    × HasNext 128 addr to_clock_time
        (codes "water-level")
        (level_text addr lost_level.sim.water_level)
        lost_level.schedule
        e.schedule
level_recovers_example =
    level_recovers half_open addr 128 to_clock_time to_clock_time_nonneg level_loss loses_level

abbrev lost_mote : Mote2.Device
lost_mote = Mote2.mqtt_event half_open addr 128 to_clock_time disconnected_event (
    Mote2.mqtt_event half_open addr 128 to_clock_time connected_event
      (Mote2.start half_open addr 128 to_clock_time))

abbrev mote_loss : List MoteRuns.Input
mote_loss = MoteRuns.Input.engine connected_event ∷ MoteRuns.Input.engine disconnected_event ∷ []

loses_mote :
    History.run
      (MoteRuns.step half_open addr 128 to_clock_time)
      mote_loss
      (Mote2.start half_open addr 128 to_clock_time)
    ≡ some lost_mote
unfolding History.run MoteRuns.step
loses_mote = refl

mote_2_recovers_example :
    (e : Mote2.Device) × (History.run
        (MoteRuns.step half_open addr 128 to_clock_time)
        (MoteRecovery.next_history lost_mote.schedule.client.state)
        lost_mote
      ≡ some e)
    × (e.sim ≡ lost_mote.sim)
    × HasNext 128 addr to_clock_time
        (codes "flow-rate")
        (MoteMessages.record_text addr lost_mote.sim.flow)
        lost_mote.schedule
        e.schedule
mote_2_recovers_example =
    mote_2_recovers half_open addr 128 to_clock_time to_clock_time_nonneg mote_loss loses_mote

reads_little_more :
    get_json_int_field little_more [] [] (snprintf 15 (codes "gate-" ++ gate inflow)) (pos 0)
    ≡ (good, pos 41)
unfolding get_json_int_field strcmp_eq strncmp_eq atoi snprintf
reads_little_more = refl

asks_little_more : asked little_more (λ c. []) [] inflow ≡ some 41
asks_little_more =
    sym (level-get_json_int_field little_more (λ c. []) [] inflow (pos 0))
    ∙ ap (λ r. level r.0 r.1) reads_little_more

near_enough : excess 32800 32000 ≤ 100 * length seven
unfolding excess
near_enough = omega arith

abbrev first_flow : FlowDevice
first_flow = FlowSensor.start little_more addr 128 to_clock_time inflow

abbrev first_history : List FlowRuns.Input
first_history = []

nothing_yet :
    History.run (FlowRuns.step little_more addr 128 to_clock_time inflow) first_history first_flow
    ≡ some first_flow
unfolding History.run
nothing_yet = refl

first_rate : get first_flow.sim.flow inflow ≡ pos 32000
unfolding FlowSensor.start FlowSensor.init_sim
first_rate = refl

abbrev settled : FlowDevice
settled = record first_flow {
  sim = record first_flow.sim {
    target_flow = put first_flow.sim.target_flow inflow (pos 32800);
    flow = put first_flow.sim.flow inflow (pos 32700);
    new_gate_value = pos 41;
  };
}

settles :
    History.run
      (FlowRuns.step little_more addr 128 to_clock_time inflow)
      (FlowRuns.Input.engine (publish_event (λ c. []) (codes "simulation") []) ∷ readings seven)
      first_flow
    ≡ some settled
unfolding History.run FlowRuns.step FlowSensor.start FlowSensor.mqtt_event FlowSensor.handle_message
    FlowSensor.init_sim get_json_int_field strcmp_eq strncmp_eq atoi FlowSensor.simulate_read_flow
    simulate_flow linear_var steady_var ◌-ℤ◌ ◌+ℤ◌ ◌*ℤ◌
settles = refl

flow_responds_example :
    (v : ℕ) × (e' : FlowDevice) × (History.run
        (FlowRuns.step little_more addr 128 to_clock_time inflow)
        (FlowRecovery.next_history settled.schedule.client.state)
        settled
      ≡ some e')
    × (32800 ≤ v + 150)
    × (v ≤ 32800 + 150)
    × HasNext 128 addr to_clock_time
        (codes "flow-rate")
        (FlowMessages.record_text addr (gate inflow) (pos v))
        settled.schedule
        e'.schedule
flow_responds_example =
    flow_responds little_more addr 128 to_clock_time inflow to_clock_time_nonneg first_history
      (λ c. []) (codes "simulation") [] 41 32000 seven nothing_yet first_rate asks_little_more
      near_enough settles
