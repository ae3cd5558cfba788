-- ===== src/Checks/Faults.antt =====
-- Histories of the sensors (Motes/firmwares) and of mote 2 (Motes/demo) that divide by zero.
use dam_monitoring.History
use dam_monitoring.History.Faults.{Meets}
use dam_monitoring.Prelude.{◌≡◌, ◌↔◌, refl, ℕ, List, [], ◌∷◌, none}
use dam_monitoring.Clib.Text.{codes, snprintf, strcmp_eq, strncmp_eq}
use dam_monitoring.Clib.Atoi.{atoi}
use dam_monitoring.Clib.Arith.{rem_int}
use dam_monitoring.Prelude.Int.{◌+ℤ◌, ◌*ℤ◌}
use dam_monitoring.Common.Json.{JsonParser, get_json_int_field, other, pair_name, number}
use dam_monitoring.SensorSim.{Channel, inflow, outflow_1, outflow_2, linear_var, steady_var}
use dam_monitoring.Mqtt.{MqttEvent, publish_event}
use dam_monitoring.FlowSensor
use dam_monitoring.FlowSensor.Device as FlowRuns
use dam_monitoring.FlowSensor.Faults as FlowFaults
use dam_monitoring.FlowSensor.Faults.{flow_faults}
use dam_monitoring.WaterLevel
use dam_monitoring.WaterLevel.Device as WaterRuns
use dam_monitoring.WaterLevel.Faults as WaterFaults
use dam_monitoring.WaterLevel.Faults.{level_faults}
use dam_monitoring.Demo.Mote2
use dam_monitoring.Demo.Mote2.Runs as MoteRuns
use dam_monitoring.Demo.Mote2.Faults as MoteFaults
use dam_monitoring.Demo.Mote2.Faults.{mote_2_faults}
use dam_monitoring.Checks.{little_more, parser, addr, to_clock_time}

-- A message that closes the inflow and opens the first outflow by a hundredth.
abbrev little_out : JsonParser
little_out = parser (
    (other, [])
    ∷ (pair_name, codes "gate-inflow")
    ∷ (number, codes "0")
    ∷ (pair_name, codes "gate-outflow-1")
    ∷ (number, codes "1")
    ∷ [])

abbrev message : MqttEvent
message = publish_event (λ c. []) (codes "simulation") []

abbrev level_history : List WaterRuns.Input
level_history = WaterRuns.Input.engine message ∷ WaterRuns.Input.simulation 0 0 ∷ []

level_history_lem :
    History.run
      (WaterRuns.step little_out addr 128 to_clock_time)
      level_history
      (WaterLevel.start little_out addr 128 to_clock_time)
    ≡ none
unfolding History.run WaterRuns.step WaterLevel.simulate_read_water_level WaterLevel.mqtt_event
    WaterLevel.handle_message WaterLevel.gate_round WaterLevel.start snprintf rem_int
    get_json_int_field strncmp_eq strcmp_eq atoi ◌*ℤ◌ ◌+ℤ◌
level_history_lem = refl

level_faults_example :
    (History.run
        (WaterRuns.step little_out addr 128 to_clock_time)
        level_history
        (WaterLevel.start little_out addr 128 to_clock_time)
      ≡ none)
    ↔ Meets
        (WaterRuns.step little_out addr 128 to_clock_time)
        WaterFaults.IsFault
        level_history
        (WaterLevel.start little_out addr 128 to_clock_time)
level_faults_example = level_faults little_out addr 128 to_clock_time level_history

abbrev flow_history : List FlowRuns.Input
flow_history =
    FlowRuns.Input.engine message
    ∷ FlowRuns.Input.simulation 45
    ∷ FlowRuns.Input.simulation 0
    ∷ FlowRuns.Input.simulation 0
    ∷ FlowRuns.Input.simulation 0
    ∷ FlowRuns.Input.simulation 0
    ∷ FlowRuns.Input.simulation 0
    ∷ FlowRuns.Input.simulation 0
    ∷ []

flow_history_lem :
    History.run
      (FlowRuns.step little_more addr 128 to_clock_time inflow)
      flow_history
      (FlowSensor.start little_more addr 128 to_clock_time inflow)
    ≡ none
unfolding History.run FlowRuns.step FlowSensor.simulate_read_flow FlowSensor.simulate_flow
    FlowSensor.mqtt_event FlowSensor.handle_message FlowSensor.start linear_var get_json_int_field
    strncmp_eq strcmp_eq atoi ◌*ℤ◌ ◌+ℤ◌
flow_history_lem = refl

flow_faults_example :
    (History.run
        (FlowRuns.step little_more addr 128 to_clock_time inflow)
        flow_history
        (FlowSensor.start little_more addr 128 to_clock_time inflow)
      ≡ none)
    ↔ Meets
        (FlowRuns.step little_more addr 128 to_clock_time inflow)
        (FlowFaults.IsFault inflow)
        flow_history
        (FlowSensor.start little_more addr 128 to_clock_time inflow)
flow_faults_example = flow_faults little_more addr 128 to_clock_time inflow flow_history

-- The random numbers of a reading, of which the first outflow takes `n`.
abbrev draws : ℕ → Channel → ℕ
draws n inflow = 0
draws n outflow_1 = n
draws n outflow_2 = 0

abbrev mote_history : List MoteRuns.Input
mote_history =
    MoteRuns.Input.engine message
    ∷ MoteRuns.Input.simulation (draws 45)
    ∷ MoteRuns.Input.simulation (draws 0)
    ∷ MoteRuns.Input.simulation (draws 0)
    ∷ MoteRuns.Input.simulation (draws 0)
    ∷ MoteRuns.Input.simulation (draws 0)
    ∷ MoteRuns.Input.simulation (draws 0)
    ∷ MoteRuns.Input.simulation (draws 0)
    ∷ MoteRuns.Input.simulation (draws 0)
    ∷ MoteRuns.Input.simulation (draws 0)
    ∷ []

mote_history_lem :
    History.run
      (MoteRuns.step little_out addr 128 to_clock_time)
      mote_history
      (Mote2.start little_out addr 128 to_clock_time)
    ≡ none
unfolding History.run MoteRuns.step Mote2.simulate_read_flow Mote2.simulate_channel
    FlowSensor.simulate_flow Mote2.mqtt_event Mote2.handle_message Mote2.gate_round Mote2.start
    linear_var steady_var get_json_int_field strncmp_eq strcmp_eq atoi ◌*ℤ◌ ◌+ℤ◌
mote_history_lem = refl

mote_2_faults_example :
    (History.run
        (MoteRuns.step little_out addr 128 to_clock_time)
        mote_history
        (Mote2.start little_out addr 128 to_clock_time)
      ≡ none)
    ↔ Meets
        (MoteRuns.step little_out addr 128 to_clock_time)
        MoteFaults.IsFault
        mote_history
        (Mote2.start little_out addr 128 to_clock_time)
mote_2_faults_example = mote_2_faults little_out addr 128 to_clock_time mote_history
