-- ===== src/FlowSensor/Talks.antt =====
-- What the process of Motes/firmwares/flow-sensor/flow-sensor.c and the MQTT engine say to each other.
use dam_monitoring.History
use dam_monitoring.History.{emitted, emitted_cons}
use dam_monitoring.Prelude.{
  ℕ, ◌*◌, ◌≡◌, refl, sym, ap, ◌∙◌, List, [], ◌∷◌, some, >>=-eq-some, eq_of_some, arith,
  if◌then◌else◌,
}
use dam_monitoring.Prelude.Int.{ℤ, pos, ◌≤ℤ◌}
use dam_monitoring.Common.Json.{JsonParser}
use dam_monitoring.Common.Urn.{LinkAddr}
use dam_monitoring.SensorSim.{Channel, inflow, outflow_1, outflow_2}
use dam_monitoring.Mqtt.{Net, publish_event, client_event, init_mqtt, initial}
use dam_monitoring.Mqtt.Session as Session
use dam_monitoring.Mqtt.Engine.{absent, calls_of, Dialogue}
use dam_monitoring.Mqtt.Engine.Spoken.{phase}
use dam_monitoring.Mqtt.Engine.Takes.{trace}
use dam_monitoring.Process.{
  ProcessEvent, periodic_timer_event, poll, button_release, button_periodic,
}
use dam_monitoring.Process.Going.{poll_client-client}
use dam_monitoring.Process.Driven.{client_runs, driven_talks}
use dam_monitoring.FlowSensor.{
  FlowDevice, simulate_read_flow, start, mqtt_event, process_event, press, hold, build_message,
  pub_topic, sub_topic, pub_period_s,
}
use dam_monitoring.FlowSensor.Device.{Input, scheduler, engine, simulation, step}
use dam_monitoring.FlowSensor.Recovery.{IsGoingAt, start-IsGoing, step-IsGoing}

-- What an input is to the client: a call of `state_machine`, or an event of the engine.
abbrev pub asks : LinkAddr → Channel → Input → FlowDevice → List Session.Input
asks addr c (scheduler n periodic_timer_event) d =
    Session.Input.tick n (build_message addr c d.sim) ∷ []
asks addr c (scheduler n poll) d = Session.Input.tick n (build_message addr c d.sim) ∷ []
asks addr c (engine e) d = Session.Input.event e ∷ []
asks addr c _ d = []

module _ (p : JsonParser) (addr : LinkAddr) (clock_second : ℕ) (to_clock_time : ℤ → ℤ)
    (c : Channel) where
  event_client :
      (b : Channel) (n : Net) (e : ProcessEvent) (d : FlowDevice)
      → (process_event p addr clock_second to_clock_time b n e d).schedule.client
        ≡ Session.run clock_second addr (asks addr b (scheduler n e) d) d.schedule.client
  unfolding process_event press hold Session.run Session.step
  event_client b n periodic_timer_event d =
      poll_client-client clock_second addr to_clock_time n (build_message addr b d.sim) d.schedule
  event_client b n poll d =
      poll_client-client clock_second addr to_clock_time n (build_message addr b d.sim) d.schedule
  event_client inflow n button_release d = ground arith
  event_client inflow n (button_periodic t) d = ground arith
  event_client inflow n e d = refl
  event_client outflow_1 n e d = refl
  event_client outflow_2 n e d = refl

  step_client :
      (i : Input) (d d' : FlowDevice)
      → IsGoingAt p addr clock_second to_clock_time c d
      → step p addr clock_second to_clock_time c i d ≡ some d'
      → d'.schedule.client ≡ Session.run clock_second addr (asks addr c i d) d.schedule.client
  unfolding step mqtt_event client_event Session.run Session.step
  step_client (scheduler n e) d d' v h =
      ap (λ x. x.schedule.client) (sym (eq_of_some h))
      ∙ ap
          (λ r.
            let d1 = if r then process_event p addr clock_second to_clock_time c n e d else d in
            d1.schedule.client)
          v.running
      ∙ event_client c n e d
  step_client (engine (publish_event garbage topic chunk)) d d' v h =
      ap (λ x. x.schedule.client) (sym (eq_of_some h))
  step_client (engine e) d d' v h = ap (λ x. x.schedule.client) (sym (eq_of_some h))
  step_client (simulation r) d d' v h =
      let (s, given, result) = >>=-eq-some (simulate_read_flow c r d.sim) _ h in
      ap (λ x. x.schedule.client) (sym (eq_of_some result))

  module _ (nonneg : (r : ℤ) → pos 0 ≤ℤ to_clock_time r) where
    -- Where `clock_time_t` is unsigned: after any history from the start that begins with an expiry of
    -- the timer, the client is where the calls of `state_machine`, each with the message of that time,
    -- and the events of the engine in the history have led it.
    pub client_follows :
        (is : List Input) {d : FlowDevice}
        → History.run
            (step p addr clock_second to_clock_time c)
            is
            (start p addr clock_second to_clock_time c)
          ≡ some d
        → d.schedule.client
          ≡ Session.run clock_second addr
              (emitted
                (step p addr clock_second to_clock_time c)
                (asks addr c)
                is
                (start p addr clock_second to_clock_time c))
              (init_mqtt
                (pub_period_s * clock_second)
                pub_topic
                sub_topic
                (initial clock_second addr))
    unfolding start
    client_follows is h =
        client_runs clock_second addr (step p addr clock_second to_clock_time c) (asks addr c)
          (λ x. x.schedule) (IsGoingAt p addr clock_second to_clock_time c)
          (λ i d d' v e. step-IsGoing p addr clock_second to_clock_time c nonneg i d d' v e)
          step_client is (start p addr clock_second to_clock_time c)
          (start-IsGoing p addr clock_second to_clock_time c) h

    -- Where `clock_time_t` is unsigned, and a history from the start begins with an expiry of the timer:
    -- what the sensor's client and the engine say to each other is a dialogue that the engine takes,
    -- under the topics of the sensor and with its period; it is all the calls that the sensor makes, and
    -- the client's state tells what the engine has come to.
    pub flow_talks :
        (n : Net) (is : List Input) {d : FlowDevice}
        → History.run
            (step p addr clock_second to_clock_time c)
            (scheduler n periodic_timer_event ∷ is)
            (start p addr clock_second to_clock_time c)
          ≡ some d
        → let l =
            trace clock_second addr
              (emitted
                (step p addr clock_second to_clock_time c)
                (asks addr c)
                (scheduler n periodic_timer_event ∷ is)
                (start p addr clock_second to_clock_time c))
              (init_mqtt
                (pub_period_s * clock_second)
                pub_topic
                sub_topic
                (initial clock_second addr)) in
          (calls_of l ≡ d.schedule.client.calls)
          × Dialogue clock_second addr
              (record {
                publish_topic = pub_topic;
                subscribe_topic = sub_topic;
                period = pub_period_s * clock_second;
              })
              absent
              l
              (phase d.schedule.client.state)
    unfolding History.run
    flow_talks n is {d} h =
        let begin = start p addr clock_second to_clock_time c in
        let (d1, first, rest) =
          >>=-eq-some
            (step p addr clock_second to_clock_time c (scheduler n periodic_timer_event) begin) _
            h in
        driven_talks clock_second addr (pub_period_s * clock_second) pub_topic sub_topic n
          (build_message addr c begin.sim) _
          (emitted (step p addr clock_second to_clock_time c) (asks addr c) is d1) d.schedule.client
          (emitted_cons (step p addr clock_second to_clock_time c) (asks addr c)
            (scheduler n periodic_timer_event) is begin d1 first)
          (client_follows (scheduler n periodic_timer_event ∷ is) h)
