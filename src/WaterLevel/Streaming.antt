-- ===== src/WaterLevel/Streaming.antt =====
-- What the process of Motes/firmwares/water-level-sensor/water-level-sensor.c publishes while its client is
-- subscribed.
use dam_monitoring.History
use dam_monitoring.History.{All, emitted}
use mathlib.Core.Path.{subst}
use dam_monitoring.Prelude.{
  ℕ, ◌≡◌, refl, sym, ap, ◌∙◌, List, [], ◌∷◌, some, >>=-eq-some, eq_of_some, arith, if◌then◌else◌,
}
use dam_monitoring.Prelude.Int.{ℤ, pos, ◌≤ℤ◌}
use dam_monitoring.Clib.Text.{Text, codes}
use dam_monitoring.Common.Json.{JsonParser}
use dam_monitoring.Common.Urn.{LinkAddr}
use dam_monitoring.Mqtt.{
  subscribed, Call, Net, MqttEvent, connected_event, disconnected_event, publish_event,
}
use dam_monitoring.Process.{
  ProcessEvent, periodic_timer_event, poll, button_release, button_periodic,
}
use dam_monitoring.Process.Going.{IsGoing}
use dam_monitoring.Process.Streaming.{IsSteadyEvent, published, IsLive, poll_client-IsLive, streams}
use dam_monitoring.WaterLevel.{
  WaterDevice, simulate_read_water_level, start, mqtt_event, process_event, set_reservoir,
  build_message,
}
use dam_monitoring.WaterLevel.Messages.{level_text}
use dam_monitoring.WaterLevel.Device.{Input, scheduler, engine, simulation, step}
use dam_monitoring.WaterLevel.Publishes.{whole_record}
use dam_monitoring.WaterLevel.Recovery.{start-IsGoing, step-IsGoing}

-- Anything but the engine's events of a connection and of its loss.
abbrev pub IsSteady : Input → Type 0
IsSteady (engine e) = IsSteadyEvent e
IsSteady _ = Unit {0}

-- A record for each event that calls `state_machine`, of the simulation as it is then.
abbrev pub emits : LinkAddr → Input → WaterDevice → List Text
emits addr (scheduler n periodic_timer_event) d = level_text addr d.sim.water_level ∷ []
emits addr (scheduler n poll) d = level_text addr d.sim.water_level ∷ []
emits addr _ d = []

module _ (p : JsonParser) (addr : LinkAddr) (clock_second : ℕ) (to_clock_time : ℤ → ℤ)
    (nonneg : (r : ℤ) → pos 0 ≤ℤ to_clock_time r) where
  abbrev IsLiveAt : List Call → WaterDevice → Type 0
  IsLiveAt cs d = IsLive (codes "water-level") cs d.schedule

  event-IsLive :
      (n : Net) (e : ProcessEvent) (d : WaterDevice) (cs : List Call)
      → IsLiveAt cs d
      → IsLiveAt
          (published (codes "water-level") (emits addr (scheduler n e) d) cs)
          (process_event p addr clock_second to_clock_time n e d)
  unfolding process_event set_reservoir
  event-IsLive n periodic_timer_event d cs v =
      poll_client-IsLive clock_second addr to_clock_time nonneg (codes "water-level") n
        (build_message addr d.sim) cs d.schedule (whole_record addr d.sim) v
  event-IsLive n poll d cs v =
      poll_client-IsLive clock_second addr to_clock_time nonneg (codes "water-level") n
        (build_message addr d.sim) cs d.schedule (whole_record addr d.sim) v
  event-IsLive n button_release d cs v = record {
    running = ground (arith, v.running);
    state = ground (arith, v.state);
    topic_kept = ground (arith, v.topic_kept);
    calls = ground (arith, v.calls);
  }
  event-IsLive n (button_periodic t) d cs v = record {
    running = ground (arith, v.running);
    state = ground (arith, v.state);
    topic_kept = ground (arith, v.topic_kept);
    calls = ground (arith, v.calls);
  }
  event-IsLive n e d cs v = v

  engine-IsLive :
      (e : MqttEvent) (d : WaterDevice) (cs : List Call)
      → IsSteadyEvent e
      → IsLiveAt cs d
      → IsLiveAt cs (mqtt_event p addr clock_second to_clock_time e d)
  unfolding mqtt_event
  engine-IsLive (publish_event garbage topic chunk) d cs steady v = v
  engine-IsLive connected_event d cs steady v = absurd steady
  engine-IsLive disconnected_event d cs steady v = absurd steady
  engine-IsLive _ d cs steady v = v

  step-IsLive :
      (i : Input) (d d' : WaterDevice) (cs : List Call)
      → IsSteady i
      → step p addr clock_second to_clock_time i d ≡ some d'
      → IsLiveAt cs d
      → IsLiveAt (published (codes "water-level") (emits addr i d) cs) d'
  unfolding step
  step-IsLive (scheduler n e) d d' cs steady h v =
      subst (IsLiveAt (published (codes "water-level") (emits addr (scheduler n e) d) cs))
        (sym (
            ap (λ r. if r then process_event p addr clock_second to_clock_time n e d else d)
              v.running)
          ∙ eq_of_some h)
        (event-IsLive n e d cs v)
  step-IsLive (engine e) d d' cs steady h v =
      subst (IsLiveAt cs) (eq_of_some h) (engine-IsLive e d cs steady v)
  step-IsLive (simulation r r') d d' cs steady h v =
      let (s, given, result) = >>=-eq-some (simulate_read_water_level r r' d.sim) _ h in
      subst (IsLiveAt cs) (eq_of_some result) v

  -- Where `clock_time_t` is unsigned: after any history from the start that leaves the client
  -- subscribed, and as long as the engine tells of no connection and no loss of one, the process
  -- publishes under `water-level` one whole record for each expiry of its timer and each poll, that of
  -- its level at that time, in order, whatever the network, and for messages, readings and the button
  -- none; it makes no other call of the engine, stays subscribed and goes on.
  pub level_streams :
      (is js : List Input) {d e : WaterDevice}
      → History.run
          (step p addr clock_second to_clock_time)
          is
          (start p addr clock_second to_clock_time)
        ≡ some d
      → d.schedule.client.state ≡ subscribed
      → All IsSteady js
      → History.run (step p addr clock_second to_clock_time) js d ≡ some e
      → IsLive
          (codes "water-level")
          (published
            (codes "water-level")
            (emitted (step p addr clock_second to_clock_time) (emits addr) js d)
            d.schedule.client.calls)
          e.schedule
  level_streams is js {d} before live steady h =
      let going =
        History.run_keeps (step p addr clock_second to_clock_time)
          (λ x. IsGoing (codes "water-level") x.schedule)
          (step-IsGoing p addr clock_second to_clock_time nonneg) is _
          (start-IsGoing p addr clock_second to_clock_time) before in
      streams (step p addr clock_second to_clock_time) (emits addr) (λ x. x.schedule)
        (codes "water-level") IsSteady step-IsLive js d d.schedule.client.calls steady h
        (record {
          running = going.running;
          state = live;
          topic_kept = going.topic_kept;
          calls = refl;
        })
