-- ===== src/Checks/Dams.antt =====
-- The properties of the sensors of one dam (Motes/firmwares, Motes/demo) at concrete histories.
use dam_monitoring.History
use dam_monitoring.Prelude.{ℕ, ◌+◌, ◌*◌, ◌≤◌, length, arith, ◌≡◌, refl, List, [], ◌∷◌, some}
use dam_monitoring.Prelude.Int.{pos, ◌-ℤ◌, ◌+ℤ◌, ◌*ℤ◌}
use dam_monitoring.Clib.Text.{codes, snprintf, strcmp_eq, strncmp_eq}
use dam_monitoring.SensorSim.{
  linear_var, steady_var, put, Channel, inflow, outflow_1, outflow_2, get,
}
use dam_monitoring.SensorSim.Heard.{IsClean, settle}
use dam_monitoring.Mqtt.{publish_event, suback}
use dam_monitoring.FlowSensor
use dam_monitoring.FlowSensor.{FlowDevice, simulate_flow}
use dam_monitoring.FlowSensor.Device as FlowRuns
use dam_monitoring.WaterLevel
use dam_monitoring.WaterLevel.{WaterDevice}
use dam_monitoring.WaterLevel.Device as WaterRuns
use dam_monitoring.Demo.Mote2
use dam_monitoring.Demo.Mote2.Runs as FlowMote
use dam_monitoring.Demo.Mote3
use dam_monitoring.Demo.Mote3.Agreement as LevelMote
use dam_monitoring.History.{All}
use dam_monitoring.Dam.Listener.{messages}
use dam_monitoring.Dam.Water.{IsQuietWater, water_payload}
use dam_monitoring.Dam.Agreement.{dam_agrees}
use dam_monitoring.Dam.Settling.{dam_settles}
use dam_monitoring.FlowSensor.Response.{readings}
use dam_monitoring.FlowSensor.Settle.{excess}
use dam_monitoring.Clib.Atoi.{atoi}
use dam_monitoring.Common.Json.{get_json_int_field}
use dam_monitoring.Dam.Motes.{IsQuietMote, demo_agrees}
use dam_monitoring.Checks.{little_more, seven, half_open, addr, to_clock_time}

-- Each device gets one message, which asks for the inflow to be half open.
abbrev flow_history : List FlowRuns.Input
flow_history = FlowRuns.Input.engine (publish_event (λ c. []) (codes "simulation") []) ∷ []

abbrev water_history : List WaterRuns.Input
water_history =
    WaterRuns.Input.engine (publish_event (λ c. []) (codes "simulation") [])
    ∷ WaterRuns.Input.engine suback
    ∷ []

abbrev flow_sensor : Channel → FlowDevice
flow_sensor c =
    FlowSensor.mqtt_event half_open addr 128 to_clock_time c
      (publish_event (λ d. []) (codes "simulation") [])
      (FlowSensor.start half_open addr 128 to_clock_time c)

flow_runs :
    (c : Channel)
    → FlowRuns.run half_open addr 128 to_clock_time c flow_history
        (FlowSensor.start half_open addr 128 to_clock_time c)
      ≡ some (flow_sensor c)
unfolding History.run FlowRuns.step
flow_runs c = refl

abbrev water_sensor : WaterDevice
water_sensor = WaterLevel.mqtt_event half_open addr 128 to_clock_time suback (
    WaterLevel.mqtt_event half_open addr 128 to_clock_time
      (publish_event (λ d. []) (codes "simulation") [])
      (WaterLevel.start half_open addr 128 to_clock_time))

water_runs :
    WaterRuns.run half_open addr 128 to_clock_time water_history
      (WaterLevel.start half_open addr 128 to_clock_time)
    ≡ some water_sensor
unfolding History.run WaterRuns.step
water_runs = refl

clean : (c : Channel) → IsClean c []
unfolding strncmp_eq
clean c = refl

dam_agrees_example :
    ((c : Channel) → get water_sensor.sim.flow c ≡ get (flow_sensor c).sim.target_flow c)
    × (water_sensor.sim.balance_flow
        ≡ get (flow_sensor inflow).sim.target_flow inflow
          -ℤ get (flow_sensor outflow_1).sim.target_flow outflow_1
          -ℤ get (flow_sensor outflow_2).sim.target_flow outflow_2)
dam_agrees_example =
    dam_agrees half_open (λ c. addr) addr 128 to_clock_time (λ c. flow_history) water_history
      flow_sensor (λ c. ((clean c, tt), (clean c, (tt, tt)))) (λ c. refl) flow_runs water_runs

abbrev mote_history : List FlowMote.Input
mote_history = FlowMote.Input.engine (publish_event (λ c. []) (codes "simulation") []) ∷ []

abbrev mote_2 : Mote2.Device
mote_2 =
    Mote2.mqtt_event half_open addr 128 to_clock_time
      (publish_event (λ d. []) (codes "simulation") [])
      (Mote2.start half_open addr 128 to_clock_time)

mote_2_runs :
    FlowMote.run half_open addr 128 to_clock_time mote_history
      (Mote2.start half_open addr 128 to_clock_time)
    ≡ some mote_2
unfolding History.run FlowMote.step
mote_2_runs = refl

abbrev mote_3 : Mote3.Device
mote_3 = Mote3.mqtt_event half_open addr 128 to_clock_time suback (
    Mote3.mqtt_event half_open addr 128 to_clock_time
      (publish_event (λ d. []) (codes "simulation") [])
      (Mote3.start half_open addr 128 to_clock_time))

mote_3_runs :
    History.run
      (LevelMote.step half_open addr 128 to_clock_time)
      water_history
      (Mote3.start half_open addr 128 to_clock_time)
    ≡ some mote_3
unfolding History.run LevelMote.step
mote_3_runs = refl

quiet : (c : Channel) → All (IsQuietMote c) mote_history × All (IsQuietWater c) water_history
quiet inflow = ((tt, tt), (clean inflow, (tt, tt)))
quiet outflow_1 = ((clean outflow_1, tt), (clean outflow_1, (tt, tt)))
quiet outflow_2 = ((clean outflow_2, tt), (clean outflow_2, (tt, tt)))

demo_agrees_example :
    (get mote_3.sim.flow outflow_1 ≡ get mote_2.sim.target_flow outflow_1)
    × (get mote_3.sim.flow outflow_2 ≡ get mote_2.sim.target_flow outflow_2)
    × (get mote_3.sim.flow inflow
        ≡ settle half_open inflow (messages water_payload water_history) (pos 32000))
    × (get mote_2.sim.target_flow inflow ≡ pos 32000)
demo_agrees_example =
    demo_agrees half_open addr addr 128 to_clock_time mote_history water_history quiet refl refl
      mote_2_runs mote_3_runs

-- A message that asks for a little more, and seven readings.
abbrev asked_flow : FlowDevice
asked_flow =
    FlowSensor.mqtt_event little_more addr 128 to_clock_time inflow
      (publish_event (λ d. []) (codes "simulation") [])
      (FlowSensor.start little_more addr 128 to_clock_time inflow)

asks_flow :
    FlowRuns.run little_more addr 128 to_clock_time inflow flow_history
      (FlowSensor.start little_more addr 128 to_clock_time inflow)
    ≡ some asked_flow
unfolding History.run FlowRuns.step
asks_flow = refl

abbrev asked_level : WaterDevice
asked_level = WaterLevel.mqtt_event little_more addr 128 to_clock_time suback (
    WaterLevel.mqtt_event little_more addr 128 to_clock_time
      (publish_event (λ d. []) (codes "simulation") [])
      (WaterLevel.start little_more addr 128 to_clock_time))

asks_level :
    WaterRuns.run little_more addr 128 to_clock_time water_history
      (WaterLevel.start little_more addr 128 to_clock_time)
    ≡ some asked_level
unfolding History.run WaterRuns.step
asks_level = refl

abbrev settled_flow : FlowDevice
settled_flow = record asked_flow {
  sim = record asked_flow.sim { flow = put asked_flow.sim.flow inflow (pos 32700) };
}

settles_flow :
    FlowRuns.run little_more addr 128 to_clock_time inflow (readings seven) asked_flow
    ≡ some settled_flow
unfolding History.run FlowRuns.step FlowSensor.start FlowSensor.mqtt_event FlowSensor.handle_message
    FlowSensor.init_sim get_json_int_field strcmp_eq strncmp_eq atoi FlowSensor.simulate_read_flow
    simulate_flow linear_var steady_var ◌-ℤ◌ ◌+ℤ◌ ◌*ℤ◌
settles_flow = refl

asked_flow-rate : get asked_flow.sim.flow inflow ≡ pos 32000
unfolding FlowSensor.start FlowSensor.mqtt_event FlowSensor.handle_message FlowSensor.init_sim
    get_json_int_field strcmp_eq strncmp_eq atoi
asked_flow-rate = refl

asked_level-rate : get asked_level.sim.flow inflow ≡ pos 32800
unfolding WaterLevel.start WaterLevel.mqtt_event WaterLevel.handle_message WaterLevel.gate_round
    WaterLevel.apply_gate WaterLevel.init_sim get_json_int_field strcmp_eq strncmp_eq atoi snprintf
    ◌*ℤ◌
asked_level-rate = refl

near_enough : excess 32800 32000 ≤ 100 * length seven
unfolding excess
near_enough = omega arith

dam_settles_example :
    (v : ℕ) × (get settled_flow.sim.flow inflow ≡ pos v) × (32800 ≤ v + 150) × (v ≤ 32800 + 150)
dam_settles_example =
    dam_settles little_more addr addr 128 to_clock_time inflow flow_history water_history seven
      32000 32800 (clean inflow, tt) (clean inflow, (tt, tt)) refl asks_flow asks_level
      asked_flow-rate asked_level-rate near_enough settles_flow
