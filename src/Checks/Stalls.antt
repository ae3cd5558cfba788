-- ===== src/Checks/Stalls.antt =====
-- A flow sensor (Motes/firmwares/flow-sensor) whose subscription finds the engine's queue full.
use dam_monitoring.History
use dam_monitoring.Prelude.{◌≡◌, refl, false, List, [], ◌∷◌, some}
use dam_monitoring.Prelude.Int.{negsuc}
use dam_monitoring.Clib.Text.{codes}
use dam_monitoring.SensorSim.{inflow}
use dam_monitoring.Mqtt.{
  connected, connected_event, puback, publish_event, subscribe, state_machine,
}
use dam_monitoring.Process.{periodic_timer_event, button_release, poll_client}
use dam_monitoring.Process.Publishes.{online}
use dam_monitoring.Process.Stalled.{IsStalled}
use dam_monitoring.FlowSensor
use dam_monitoring.FlowSensor.{FlowDevice}
use dam_monitoring.FlowSensor.Device as FlowRuns
use dam_monitoring.FlowSensor.Stalls.{full_queue_stalls}
use dam_monitoring.Checks.{half_open, addr, full, to_clock_time, to_clock_time_nonneg}

abbrev connects : List FlowRuns.Input
connects =
    FlowRuns.Input.scheduler online periodic_timer_event
    ∷ FlowRuns.Input.engine connected_event
    ∷ []

abbrev waiting : FlowDevice
waiting = FlowSensor.mqtt_event half_open addr 128 to_clock_time inflow connected_event (
    FlowSensor.process_event half_open addr 128 to_clock_time inflow online periodic_timer_event
      (FlowSensor.start half_open addr 128 to_clock_time inflow))

reaches_waiting :
    History.run
      (FlowRuns.step half_open addr 128 to_clock_time inflow)
      connects
      (FlowSensor.start half_open addr 128 to_clock_time inflow)
    ≡ some waiting
unfolding History.run FlowRuns.step FlowSensor.process_event FlowSensor.mqtt_event FlowSensor.start
    poll_client state_machine
reaches_waiting = refl

waiting_state : waiting.schedule.client.state ≡ connected
unfolding FlowSensor.process_event FlowSensor.mqtt_event FlowSensor.start poll_client state_machine
waiting_state = refl

-- A message, an event of the engine and a press of the button.
abbrev meanwhile : List FlowRuns.Input
meanwhile =
    FlowRuns.Input.engine (publish_event (λ c. []) (codes "simulation") [])
    ∷ FlowRuns.Input.engine puback
    ∷ FlowRuns.Input.scheduler online button_release
    ∷ []

abbrev stalled : FlowDevice
stalled = FlowSensor.process_event half_open addr 128 to_clock_time inflow online button_release (
    FlowSensor.mqtt_event half_open addr 128 to_clock_time inflow puback (
      FlowSensor.mqtt_event half_open addr 128 to_clock_time inflow
        (publish_event (λ c. []) (codes "simulation") [])
        (FlowSensor.process_event half_open addr 128 to_clock_time inflow full periodic_timer_event
          waiting)))

reaches_stalled :
    History.run
      (FlowRuns.step half_open addr 128 to_clock_time inflow)
      (FlowRuns.Input.scheduler full periodic_timer_event ∷ meanwhile)
      waiting
    ≡ some stalled
unfolding History.run FlowRuns.step FlowSensor.process_event FlowSensor.mqtt_event FlowSensor.start
    FlowSensor.press poll_client state_machine
reaches_stalled = refl

full_queue_stalls_example :
    IsStalled
      (subscribe FlowSensor.sub_topic false ∷ waiting.schedule.client.calls)
      (to_clock_time (negsuc 0))
      stalled.schedule
full_queue_stalls_example =
    full_queue_stalls half_open addr 128 to_clock_time inflow to_clock_time_nonneg connects
      meanwhile full periodic_timer_event reaches_waiting waiting_state refl tt (tt, (tt, (tt, tt)))
      reaches_stalled
