-- ===== src/FlowSensor/Recovery.antt =====
-- From wherever a history has left the process of Motes/firmwares/flow-sensor/flow-sensor.c to its next record.
use dam_monitoring.History
use dam_monitoring.Prelude.{
  ℕ, ◌≡◌, refl, true, false, List, some, >>=-eq-some, eq_of_some, arith, if◌then◌else◌,
}
use mathlib.Core.Path.{subst}
use dam_monitoring.Prelude.Int.{ℤ, pos, ◌≤ℤ◌}
use dam_monitoring.Clib.Text.{codes}
use dam_monitoring.Common.Json.{JsonParser}
use dam_monitoring.Common.Urn.{LinkAddr}
use dam_monitoring.SensorSim.{Channel, inflow, outflow_1, outflow_2, gate, get}
use dam_monitoring.Mqtt.{
  ConnState, Net, MqttEvent, publish_event, connected_event, init_mqtt, initial,
}
use dam_monitoring.Mqtt.Recovery.{moves}
use dam_monitoring.Process.{
  ProcessEvent, periodic_timer_event, poll, button_release, button_periodic,
}
use dam_monitoring.Process.Publishes.{online}
use dam_monitoring.Process.Going.{IsGoing, client_event-IsGoing, poll_client-IsGoing}
use dam_monitoring.Process.Recovery.{wakes, always_recovers}
use dam_monitoring.Process.Advance.{HasNext}
use dam_monitoring.FlowSensor.{
  FlowDevice, simulate_read_flow, start, mqtt_event, process_event, press, hold, build_message,
}
use dam_monitoring.FlowSensor.Messages.{record_text}
use dam_monitoring.FlowSensor.Device.{Input, scheduler, engine, simulation, step}
use dam_monitoring.FlowSensor.Publishes.{sensor, whole_record}

-- The inputs that lead a client to its next message.
abbrev pub next_history : ConnState → List Input
next_history s = wakes (scheduler online periodic_timer_event) (engine connected_event) (moves s)

module _ (p : JsonParser) (addr : LinkAddr) (clock_second : ℕ) (to_clock_time : ℤ → ℤ)
    (c : Channel) where
  abbrev pub IsGoingAt : FlowDevice → Type 0
  IsGoingAt d = IsGoing (codes "flow-rate") d.schedule

  pub start-IsGoing : IsGoingAt (start p addr clock_second to_clock_time c)
  unfolding start init_mqtt initial
  start-IsGoing = record { running = refl; topic_kept = refl }

  module _ (nonneg : (r : ℤ) → pos 0 ≤ℤ to_clock_time r) where
    event-IsGoing :
        (b : Channel) (n : Net) (e : ProcessEvent) (d : FlowDevice)
        → IsGoingAt d
        → IsGoingAt (process_event p addr clock_second to_clock_time b n e d)
    unfolding process_event press hold
    event-IsGoing b n periodic_timer_event d v =
        poll_client-IsGoing clock_second addr to_clock_time nonneg (codes "flow-rate") n
          (build_message addr b d.sim) d.schedule v
    event-IsGoing b n poll d v =
        poll_client-IsGoing clock_second addr to_clock_time nonneg (codes "flow-rate") n
          (build_message addr b d.sim) d.schedule v
    event-IsGoing inflow n button_release d v = record {
      running = ground (arith, v.running);
      topic_kept = ground (arith, v.topic_kept);
    }
    event-IsGoing inflow n (button_periodic t) d v = record {
      running = ground (arith, v.running);
      topic_kept = ground (arith, v.topic_kept);
    }
    event-IsGoing inflow n e d v = v
    event-IsGoing outflow_1 n e d v = v
    event-IsGoing outflow_2 n e d v = v

    engine-IsGoing :
        (e : MqttEvent) (d : FlowDevice)
        → IsGoingAt d
        → IsGoingAt (mqtt_event p addr clock_second to_clock_time c e d)
    unfolding mqtt_event
    engine-IsGoing (publish_event garbage topic chunk) d v = v
    engine-IsGoing e d v = client_event-IsGoing (codes "flow-rate") e d.schedule v

    pub step-IsGoing :
        (i : Input) (d d' : FlowDevice)
        → IsGoingAt d
        → step p addr clock_second to_clock_time c i d ≡ some d'
        → IsGoingAt d'
    unfolding step
    step-IsGoing (scheduler n e) d d' v h =
        subst IsGoingAt (eq_of_some h)
          (elim d.schedule.running
            as (λ r.
              IsGoingAt
                (if r then process_event p addr clock_second to_clock_time c n e d else d)) [
                  | true ↦ event-IsGoing c n e d v
                  | false ↦ v
                ])
    step-IsGoing (engine e) d d' v h = subst IsGoingAt (eq_of_some h) (engine-IsGoing e d v)
    step-IsGoing (simulation r) d d' v h =
        let (s, given, result) = >>=-eq-some (simulate_read_flow c r d.sim) _ h in
        subst IsGoingAt (eq_of_some result) v

    -- Where `clock_time_t` is unsigned: after every history from the start that C defines, whatever
    -- it has done to the connection, at most four wake-ups of the timer and an event of a connection,
    -- with the network there, make the process publish under `flow-rate` the whole record of its flow.
    -- It makes the calls of the engine that the state of its client still asks for,
    -- and no others, ends subscribed with the green led on, goes on, and has set its
    -- timer to the client's publication period.
    pub flow_recovers :
        (is : List Input) {d : FlowDevice}
        → History.run
            (step p addr clock_second to_clock_time c)
            is
            (start p addr clock_second to_clock_time c)
          ≡ some d
        → (e : FlowDevice) × (History.run
              (step p addr clock_second to_clock_time c)
              (next_history d.schedule.client.state)
              d
            ≡ some e)
          × (e.sim ≡ d.sim)
          × HasNext clock_second addr to_clock_time
              (codes "flow-rate")
              (record_text addr (gate c) (get d.sim.flow c))
              d.schedule
              e.schedule
    unfolding sensor
    flow_recovers is h =
        always_recovers nonneg (sensor p addr clock_second to_clock_time c) (codes "flow-rate")
          (λ s. record_text addr (gate c) (get s.flow c)) _ start-IsGoing step-IsGoing
          (whole_record addr c) is h
