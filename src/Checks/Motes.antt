-- ===== src/Checks/Motes.antt =====
-- The properties of the motes 2 and 3 (Motes/demo) and of the water level sensor's messages at
-- concrete inputs.
use dam_monitoring.History
use dam_monitoring.Prelude.{List, ◌≡◌, ◌⊎◌, refl, true, [], ◌∷◌, none, some, ◌>>=◌}
use dam_monitoring.Prelude.Int.{pos, ◌-ℤ◌, ◌+ℤ◌}
use dam_monitoring.SensorSim.{Channel, inflow, put}
use dam_monitoring.Process.{button_release}
use dam_monitoring.FlowSensor
use dam_monitoring.FlowSensor.{Sim}
use dam_monitoring.WaterLevel
use dam_monitoring.WaterLevel.Device
use dam_monitoring.Demo.Mote2
use dam_monitoring.Demo.Mote2.{simulate_read_flow, init_sim, press}
use dam_monitoring.Demo.Mote2.Channels.{IsFirmwareFlow, simulate_read_flow_channels}
use dam_monitoring.Demo.Mote2.Range.{IsSound}
use dam_monitoring.Demo.Mote2.Runs
use dam_monitoring.Demo.Mote2.Runs.{scheduler, simulation, mote_2-IsSound}
use dam_monitoring.Clib.Text.{codes}
use dam_monitoring.Mqtt.{connected_event, disconnected_event}
use dam_monitoring.Process.Advance.{HasNext}
use dam_monitoring.WaterLevel.Recovery.{next_history}
use dam_monitoring.WaterLevel.Messages.{level_text}
use dam_monitoring.Demo.Mote3.Recovery.{mote_3_recovers}
use dam_monitoring.Demo.Mote3
use dam_monitoring.Demo.Mote3.Agreement
use dam_monitoring.Demo.Mote3.Agreement.{as_firmware, mote_3-agrees}
use dam_monitoring.Checks.{half_open, addr, ready, to_clock_time, to_clock_time_nonneg}

simulate_read_flow_channels_example :
    ((s' : Sim) × (simulate_read_flow (λ c. 7) init_sim ≡ some s')
      × ((c : Channel) → IsFirmwareFlow (λ c. 7) init_sim s' c)
      × (s'.target_flow ≡ init_sim.target_flow)
      × (s'.new_gate_value ≡ init_sim.new_gate_value)
      × (s'.simulate_timer ≡ true))
    ⊎ ((simulate_read_flow (λ c. 7) init_sim ≡ none)
        × ((c : Channel) × (FlowSensor.simulate_read_flow c 7 init_sim ≡ none)))
simulate_read_flow_channels_example = simulate_read_flow_channels (λ c. 7) init_sim

abbrev first_mote : Mote2.Device
first_mote = Mote2.start half_open addr 128 to_clock_time

-- A press of the button.
abbrev pressed_mote : Mote2.Device
pressed_mote = record first_mote {
  sim = record first_mote.sim {
    target_flow = put first_mote.sim.target_flow inflow (pos 40000);
    flow = put first_mote.sim.flow inflow (pos 40000);
  };
  led_2 = true;
  led_timer = true;
}

presses :
    Runs.run half_open addr 128 to_clock_time (scheduler ready button_release ∷ []) first_mote
    ≡ some pressed_mote
unfolding History.run Runs.step Mote2.process_event Mote2.start press init_sim ◌+ℤ◌
presses = refl

mote_2-IsSound_example : IsSound pressed_mote.sim
mote_2-IsSound_example =
    mote_2-IsSound half_open addr 128 to_clock_time (scheduler ready button_release ∷ []) presses

mote_3-agrees_example :
    (History.run
        (Agreement.step half_open addr 128 to_clock_time)
        (Device.simulation 7 8 ∷ Device.scheduler ready button_release ∷ [])
        (Mote3.start half_open addr 128 to_clock_time)
      >>= λ x. some (as_firmware x))
    ≡ Device.run half_open addr 128 to_clock_time
        (Device.simulation 7 8 ∷ Device.scheduler ready button_release ∷ [])
        (WaterLevel.start half_open addr 128 to_clock_time)
mote_3-agrees_example =
    mote_3-agrees half_open addr 128 to_clock_time
      (Device.simulation 7 8 ∷ Device.scheduler ready button_release ∷ [])

abbrev water : WaterLevel.Sim
water = WaterLevel.init_sim

balanced : water.balance_flow ≡ WaterLevel.balance water.flow
unfolding WaterLevel.init_sim WaterLevel.balance ◌-ℤ◌
balanced = refl

-- A connection and its loss.
abbrev loss : List Device.Input
loss = Device.engine connected_event ∷ Device.engine disconnected_event ∷ []

abbrev lost_mote : Mote3.Device
lost_mote = Mote3.mqtt_event half_open addr 128 to_clock_time disconnected_event (
    Mote3.mqtt_event half_open addr 128 to_clock_time connected_event
      (Mote3.start half_open addr 128 to_clock_time))

loses :
    History.run
      (Agreement.step half_open addr 128 to_clock_time)
      loss
      (Mote3.start half_open addr 128 to_clock_time)
    ≡ some lost_mote
unfolding History.run Agreement.step
loses = refl

mote_3_recovers_example :
    (e : Mote3.Device) × (History.run
        (Agreement.step half_open addr 128 to_clock_time)
        (next_history lost_mote.schedule.client.state)
        lost_mote
      ≡ some e)
    × (e.sim ≡ lost_mote.sim)
    × HasNext 128 addr to_clock_time
        (codes "water-level")
        (level_text addr lost_mote.sim.water_level)
        lost_mote.schedule
        e.schedule
mote_3_recovers_example =
    mote_3_recovers half_open addr 128 to_clock_time to_clock_time_nonneg loss loses
