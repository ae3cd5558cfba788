-- ===== src/FlowSensor/Stalls.antt =====
-- What a full command queue of the MQTT engine leads to in the process of
-- Motes/firmwares/flow-sensor/flow-sensor.c.
use mathlib.Core.Path.{subst}
use dam_monitoring.History
use dam_monitoring.History.{All, emitted}
use dam_monitoring.Prelude.{
  ℕ, ◌*◌, ◌≡◌, sym, ap, ◌∙◌, true, false, List, ◌∷◌, some, >>=-eq-some, eq_of_some, arith,
  if◌then◌else◌,
}
use dam_monitoring.Prelude.Int.{ℤ, pos, negsuc, ◌≤ℤ◌}
use dam_monitoring.Clib.Text.{codes}
use dam_monitoring.Common.Json.{JsonParser}
use dam_monitoring.Common.Urn.{LinkAddr}
use dam_monitoring.SensorSim.{Channel, inflow, outflow_1, outflow_2}
use dam_monitoring.Mqtt.{
  Call, subscribe, connected, Net, MqttEvent, publish_event, connected_event, disconnected_event,
  init_mqtt, initial,
}
use dam_monitoring.Process.{
  ProcessEvent, periodic_timer_event, poll, button_release, button_periodic, led_timer_event,
  other_event,
}
use dam_monitoring.Process.Going.{IsGoing}
use dam_monitoring.Process.Streaming.{IsSteadyEvent}
use dam_monitoring.Process.Stalled.{
  IsCall, IsOther, IsStalled, poll_client-IsStalled, quiet_history,
}
use dam_monitoring.Process.Driven.{run-settings}
use dam_monitoring.FlowSensor.{
  FlowDevice, simulate_read_flow, start, mqtt_event, process_event, press, hold, build_message,
  pub_topic, sub_topic, pub_period_s,
}
use dam_monitoring.FlowSensor.Device.{Input, scheduler, engine, simulation, step}
use dam_monitoring.FlowSensor.Recovery.{start-IsGoing, step-IsGoing}
use dam_monitoring.FlowSensor.Talks.{asks, client_follows}

-- Anything but an expiry of the timer, a poll, a connection and its loss.
abbrev pub IsQuiet : Input → Type 0
IsQuiet (scheduler n e) = IsOther e
IsQuiet (engine e) = IsSteadyEvent e
IsQuiet (simulation r) = Unit {0}

module _ (p : JsonParser) (addr : LinkAddr) (clock_second : ℕ) (to_clock_time : ℤ → ℤ) (c : Channel)
    (nonneg : (r : ℤ) → pos 0 ≤ℤ to_clock_time r) where
  abbrev IsStalledAt : List Call → ℤ → FlowDevice → Type 0
  IsStalledAt cs t d = IsStalled cs t d.schedule

  event-IsStalled :
      (b : Channel) (n : Net) (e : ProcessEvent) (d : FlowDevice) (cs : List Call) (t : ℤ)
      → IsOther e
      → IsStalledAt cs t d
      → IsStalledAt cs t (process_event p addr clock_second to_clock_time b n e d)
  unfolding process_event press hold
  event-IsStalled b n periodic_timer_event d cs t quiet v = absurd quiet
  event-IsStalled b n poll d cs t quiet v = absurd quiet
  event-IsStalled inflow n button_release d cs t quiet v = record {
    running = ground (arith, v.running);
    state = ground (arith, v.state);
    calls = ground (arith, v.calls);
    timer = ground (arith, v.timer);
  }
  event-IsStalled inflow n (button_periodic k) d cs t quiet v = record {
    running = ground (arith, v.running);
    state = ground (arith, v.state);
    calls = ground (arith, v.calls);
    timer = ground (arith, v.timer);
  }
  event-IsStalled inflow n _ d cs t quiet v = v
  event-IsStalled outflow_1 n e d cs t quiet v = v
  event-IsStalled outflow_2 n e d cs t quiet v = v

  engine-IsStalled :
      (e : MqttEvent) (d : FlowDevice) (cs : List Call) (t : ℤ)
      → IsSteadyEvent e
      → IsStalledAt cs t d
      → IsStalledAt cs t (mqtt_event p addr clock_second to_clock_time c e d)
  unfolding mqtt_event
  engine-IsStalled (publish_event garbage topic chunk) d cs t steady v = v
  engine-IsStalled connected_event d cs t steady v = absurd steady
  engine-IsStalled disconnected_event d cs t steady v = absurd steady
  engine-IsStalled _ d cs t steady v = v

  wakes :
      (n : Net) (e : ProcessEvent) (d d' : FlowDevice)
      → d.schedule.running ≡ true
      → step p addr clock_second to_clock_time c (scheduler n e) d ≡ some d'
      → process_event p addr clock_second to_clock_time c n e d ≡ d'
  unfolding step
  wakes n e d d' on h =
      sym (ap (λ r. if r then process_event p addr clock_second to_clock_time c n e d else d) on)
      ∙ eq_of_some h

  step-IsStalled :
      (i : Input) (d d' : FlowDevice) (cs : List Call) (t : ℤ)
      → IsQuiet i
      → step p addr clock_second to_clock_time c i d ≡ some d'
      → IsStalledAt cs t d
      → IsStalledAt cs t d'
  unfolding step
  step-IsStalled (scheduler n e) d d' cs t quiet h v =
      subst (IsStalledAt cs t) (wakes n e d d' v.running h) (event-IsStalled c n e d cs t quiet v)
  step-IsStalled (engine e) d d' cs t quiet h v =
      subst (IsStalledAt cs t) (eq_of_some h) (engine-IsStalled e d cs t quiet v)
  step-IsStalled (simulation r) d d' cs t quiet h v =
      let (s, given, result) = >>=-eq-some (simulate_read_flow c r d.sim) _ h in
      subst (IsStalledAt cs t) (eq_of_some result) v

  refused-IsStalled :
      (n : Net) (e : ProcessEvent) (d : FlowDevice)
      → IsCall e
      → d.schedule.running ≡ true
      → d.schedule.client.state ≡ connected
      → n.queue_room ≡ false
      → IsStalledAt
          (subscribe d.schedule.client.sub_topic false ∷ d.schedule.client.calls)
          (to_clock_time (negsuc 0))
          (process_event p addr clock_second to_clock_time c n e d)
  unfolding process_event
  refused-IsStalled n periodic_timer_event d call on waits full =
      poll_client-IsStalled clock_second addr to_clock_time nonneg n (build_message addr c d.sim)
        d.schedule on waits full
  refused-IsStalled n poll d call on waits full =
      poll_client-IsStalled clock_second addr to_clock_time nonneg n (build_message addr c d.sim)
        d.schedule on waits full
  refused-IsStalled n button_release d call on waits full = absurd call
  refused-IsStalled n (button_periodic k) d call on waits full = absurd call
  refused-IsStalled n led_timer_event d call on waits full = absurd call
  refused-IsStalled n other_event d call on waits full = absurd call

  reached_sub_topic :
      (is : List Input) {d : FlowDevice}
      → History.run
          (step p addr clock_second to_clock_time c)
          is
          (start p addr clock_second to_clock_time c)
        ≡ some d
      → d.schedule.client.sub_topic ≡ sub_topic
  unfolding init_mqtt
  reached_sub_topic is before =
      ap (λ x. x.sub_topic) (client_follows p addr clock_second to_clock_time c nonneg is before)
      ∙ ap (λ g. g.subscribe_topic)
          (run-settings clock_second addr
            (emitted (step p addr clock_second to_clock_time c) (asks addr c) is
              (start p addr clock_second to_clock_time c))
            (init_mqtt (pub_period_s * clock_second) pub_topic sub_topic
              (initial clock_second addr)))

  -- Where `clock_time_t` is unsigned, and after any history from the start has left the client in
  -- `STATE_CONNECTED`: if the engine's queue is full when the timer or a poll makes the process
  -- subscribe, the process asks once, goes on, and sets its timer to what -1 becomes as a
  -- `clock_time_t`. Until that timer expires, a poll comes, or the engine tells of a connection or of
  -- its loss, whatever else happens (messages, readings, the button), it asks for no subscription
  -- again and makes no other call, and stays in `STATE_CONNECTED` with its timer set so.
  pub full_queue_stalls :
      (is js : List Input) (n : Net) (e : ProcessEvent) {d f : FlowDevice}
      → History.run
          (step p addr clock_second to_clock_time c)
          is
          (start p addr clock_second to_clock_time c)
        ≡ some d
      → d.schedule.client.state ≡ connected
      → n.queue_room ≡ false
      → IsCall e
      → All IsQuiet js
      → History.run (step p addr clock_second to_clock_time c) (scheduler n e ∷ js) d ≡ some f
      → IsStalled
          (subscribe sub_topic false ∷ d.schedule.client.calls)
          (to_clock_time (negsuc 0))
          f.schedule
  unfolding History.run
  full_queue_stalls is js n e {d} before waits full call quiet h =
      let going =
        History.run_keeps (step p addr clock_second to_clock_time c)
          (λ x. IsGoing (codes "flow-rate") x.schedule)
          (step-IsGoing p addr clock_second to_clock_time c nonneg) is _
          (start-IsGoing p addr clock_second to_clock_time c) before in
      let (d1, first, rest) =
        >>=-eq-some (step p addr clock_second to_clock_time c (scheduler n e) d) _ h in
      let asked =
        subst
          (λ t.
            IsStalledAt (subscribe t false ∷ d.schedule.client.calls) (to_clock_time (negsuc 0)) d1)
          (reached_sub_topic is before)
          (subst
            (IsStalledAt (subscribe d.schedule.client.sub_topic false ∷ d.schedule.client.calls)
              (to_clock_time (negsuc 0)))
            (wakes n e d d1 going.running first)
            (refused-IsStalled n e d call going.running waits full)) in
      quiet_history (step p addr clock_second to_clock_time c) (λ x. x.schedule) IsQuiet
        step-IsStalled js d1 (subscribe sub_topic false ∷ d.schedule.client.calls)
        (to_clock_time (negsuc 0)) quiet rest asked
