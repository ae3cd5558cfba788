-- ===== src/Checks/Devices.antt =====
-- The properties of the sensors (Motes/firmwares, Motes/lib/mqtt-client) at concrete inputs.
use dam_monitoring.History
use dam_monitoring.Prelude.{ℕ, ◌+◌, ◌≤◌, ◌≡◌, refl, true, List, [], ◌∷◌, some, arith}
use dam_monitoring.Prelude.Int.{pos, negsuc, ◌≤ℤ◌, ◌-ℤ◌, ◌+ℤ◌}
use dam_monitoring.Clib.Text.{codes}
use dam_monitoring.SensorSim.{
  inflow, put, max_water_level, max_reservoir, linear_var, steady_var, min_balance_flow,
  max_balance_flow,
}
use dam_monitoring.Mqtt.{initial, init_mqtt, connected_event, disconnected_event}
use dam_monitoring.Mqtt.Session
use dam_monitoring.Mqtt.Engine.{calls_of}
use dam_monitoring.Mqtt.Engine.Takes.{trace}
use dam_monitoring.Mqtt.Live.{IsKept, messages_live}
use dam_monitoring.FlowSensor.{FlowDevice, start, simulate_flow, simulate_read_flow, init_sim}
use dam_monitoring.FlowSensor.Settle.{simulate_flow_drops}
use dam_monitoring.FlowSensor.Range.{IsInRange}
use dam_monitoring.FlowSensor.Device.{simulation, step, run, run-start-IsInRange}
use dam_monitoring.WaterLevel
use dam_monitoring.WaterLevel.Device
use dam_monitoring.WaterLevel.Device.{run-start-IsSound}
use dam_monitoring.Clib.Arith.{rem_int}
use dam_monitoring.WaterLevel.{simulate_read_water_level, move_water, signed_var, signed_wl_var}
use dam_monitoring.WaterLevel.Reservoir.{empty_reads_full}
use dam_monitoring.Checks.{half_open, addr, ready, to_clock_time}

abbrev first_device : FlowDevice
first_device = start half_open addr 128 to_clock_time inflow

abbrev stepped_device : FlowDevice
stepped_device = record first_device {
  sim = record first_device.sim {
    flow = put first_device.sim.flow inflow (pos 31857);
    simulate_timer = true;
  };
}

stepped_device_lem :
    run half_open addr 128 to_clock_time inflow (simulation 7 ∷ []) first_device
    ≡ some stepped_device
unfolding History.run step start simulate_read_flow simulate_flow linear_var steady_var init_sim
    ◌-ℤ◌ ◌+ℤ◌
stepped_device_lem = refl

run-start-IsInRange_example : IsInRange inflow stepped_device.sim
run-start-IsInRange_example =
    run-start-IsInRange half_open addr 128 to_clock_time inflow (simulation 7 ∷ [])
      stepped_device_lem

abbrev first_water : WaterLevel.WaterDevice
first_water = WaterLevel.start half_open addr 128 to_clock_time

abbrev read_water : WaterLevel.WaterDevice
read_water = record first_water {
  sim = record first_water.sim { water_level = 45031; reservoir = 46112007; simulate_timer = true };
}

read_water_lem :
    Device.run half_open addr 128 to_clock_time (Device.simulation 7 0 ∷ []) first_water
    ≡ some read_water
unfolding History.run Device.step simulate_read_water_level rem_int move_water signed_var
    signed_wl_var ◌+ℤ◌ ◌-ℤ◌ WaterLevel.start WaterLevel.init_sim
read_water_lem = refl

run-start-IsSound_example :
    Device.IsSound read_water.sim
    × ((min_balance_flow ≤ℤ read_water.sim.balance_flow)
        × (read_water.sim.balance_flow ≤ℤ max_balance_flow))
run-start-IsSound_example =
    run-start-IsSound half_open addr 128 to_clock_time (Device.simulation 7 0 ∷ []) read_water_lem

abbrev session : List Session.Input
session =
    Session.tick ready []
    ∷ Session.event connected_event
    ∷ Session.led_timer_fires
    ∷ Session.tick ready []
    ∷ Session.tick ready (codes "{}")
    ∷ Session.event disconnected_event
    ∷ Session.tick ready (codes "{}")
    ∷ []

messages_live_example :
    let c = init_mqtt 640 (codes "flow-rate") (codes "simulation") (initial 128 addr) in
    let end = Session.run 128 addr session c in
    let l = trace 128 addr session c in
    (calls_of l ≡ end.calls) × IsKept l end.state × Session.Inv end
messages_live_example = messages_live 128 addr 640 (codes "flow-rate") (codes "simulation") session

simulate_flow_drops_example :
    (value : ℕ) × (simulate_flow 5 (pos 0) (pos 32000) ≡ some (pos value))
    × (0 + 50 ≤ value)
    × (value ≤ 0 + 150)
simulate_flow_drops_example = simulate_flow_drops 5 0 32000 (omega arith)

abbrev draining : WaterLevel.Sim
draining = record {
  balance_flow = negsuc 99999;
  water_level = 0;
  reservoir = 500;
  flow = record { at_inflow = pos 0; at_outflow_1 = pos 100000; at_outflow_2 = pos 0 };
  new_gate_value = pos 0;
  simulate_timer = true;
}

empty_reads_full_example :
    (s' : WaterLevel.Sim) × (simulate_read_water_level 7 3 draining ≡ some s')
    × (s'.water_level ≡ max_water_level)
    × (s'.reservoir ≡ max_reservoir)
empty_reads_full_example =
    empty_reads_full 7 3 99999 draining refl (omega arith) (omega arith) (omega arith)
