-- ===== src/Process/Advance.antt =====
-- The schedule of a main process (Motes/firmwares, Motes/demo) on the way of its client
-- (Motes/lib/mqtt-client/mqtt-client.c) to its next message.
use dam_monitoring.Prelude.{ℕ, ◌≡◌, refl, ap, ◌∙◌, true, List, [], ◌∷◌, arith, take}
use dam_monitoring.Prelude.Int.{ℤ, pos, ◌≤ℤ◌}
use dam_monitoring.Clib.Text.{Text}
use dam_monitoring.Common.Urn.{LinkAddr}
use dam_monitoring.Mqtt.{
  ConnState, boot, connected, disconnected, subscribed, publish, state_machine, client_event,
  have_connectivity, app_buffer_size,
}
use dam_monitoring.Mqtt.Session.{step, run}
use dam_monitoring.Mqtt.Recovery.{Move, timed, linked, moves, inputs, calls_before, way_publishes}
use dam_monitoring.Process.{Schedule, poll_client}
use dam_monitoring.Process.Publishes.{online, connects, poll_running, polled, poll_client_lem}
use dam_monitoring.Process.Going.{IsGoing, poll_client-client}

-- From the schedule `s`, a process has got to its next record, `text`.
pub record HasNext (clock_second : ℕ) (addr : LinkAddr) (to_clock_time : ℤ → ℤ) (topic text : Text)
    (s s' : Schedule) : Type 0 where
  pub calls :
      s'.client.calls ≡ publish topic text ∷ calls_before clock_second addr s.client.state s.client
  pub state : s'.client.state ≡ subscribed
  pub green_led : s'.client.green_led ≡ true
  pub running : s'.running ≡ true
  pub interval : s'.interval ≡ to_clock_time (pos s.client.publish_time_period)

module _ (clock_second : ℕ) (addr : LinkAddr) (to_clock_time : ℤ → ℤ) where
  -- The schedule after the moves, with the network there.
  unfoldable pub advance : List Move → Text → Schedule → Schedule
  advance [] m s = s
  advance (timed ∷ ks) m s = advance ks m (poll_client clock_second addr to_clock_time online m s)
  advance (linked ∷ ks) m s = advance ks m (connects s)

  advance-client :
      (ks : List Move) (m : Text) (s : Schedule)
      → (advance ks m s).client ≡ run clock_second addr (inputs online m ks) s.client
  unfolding advance run step
  advance-client [] m s = refl
  advance-client (timed ∷ ks) m s =
      advance-client ks m _
      ∙ ap (run clock_second addr (inputs online m ks))
          (poll_client-client clock_second addr to_clock_time online m s)
  advance-client (linked ∷ ks) m s = advance-client ks m (connects s)

  module _ (nonneg : (r : ℤ) → pos 0 ≤ℤ to_clock_time r) where
    advance-running :
        (ks : List Move) (m : Text) (s : Schedule) → (advance ks m s).running ≡ s.running
    unfolding advance
    advance-running [] m s = refl
    advance-running (timed ∷ ks) m s =
        advance-running ks m _ ∙ poll_running clock_second addr to_clock_time nonneg online m s
    advance-running (linked ∷ ks) m s = advance-running ks m (connects s)

    -- The same, without the test that an unsigned `clock_time_t` never passes.
    abbrev advance_polled : List Move → Text → Schedule → Schedule
    advance_polled [] m s = s
    advance_polled (timed ∷ ks) m s =
        advance_polled ks m (polled clock_second addr to_clock_time nonneg online m s)
    advance_polled (linked ∷ ks) m s = advance_polled ks m (connects s)

    advance-polled :
        (ks : List Move) (m : Text) (s : Schedule) → advance ks m s ≡ advance_polled ks m s
    unfolding advance
    advance-polled [] m s = refl
    advance-polled (timed ∷ ks) m s =
        advance-polled ks m _
        ∙ ap (advance_polled ks m)
            (poll_client_lem clock_second addr to_clock_time nonneg online m s)
    advance-polled (linked ∷ ks) m s = advance-polled ks m (connects s)

    polled-interval :
        (k : ConnState) (m : Text) (s : Schedule)
        → s.client.state ≡ k
        → (advance_polled (moves k) m s).interval ≡ to_clock_time (pos s.client.publish_time_period)
    unfolding state_machine client_event
    polled-interval subscribed m s e = ground arith
    polled-interval connected m s e = ground arith
    polled-interval disconnected m s e = ground arith
    polled-interval boot m s e = ground arith
    polled-interval _ m s e = ground arith

    pub advance-HasNext :
        (topic text m : Text) (s : Schedule)
        → IsGoing topic s
        → take app_buffer_size m ≡ text
        → HasNext clock_second addr to_clock_time topic text s (advance (moves s.client.state) m s)
    unfolding have_connectivity
    advance-HasNext topic text m s v whole =
        let ks = moves s.client.state in
        let client = advance-client ks m s in
        let (_, state, calls, green, _) =
          way_publishes clock_second addr online m s.client refl refl in
        record {
          calls = ap (λ c. c.calls) client ∙ calls ∙ rw (v.topic_kept, whole) refl;
          state = ap (λ c. c.state) client ∙ state;
          green_led = ap (λ c. c.green_led) client ∙ green;
          running = advance-running ks m s ∙ v.running;
          interval =
              ap (λ x. x.interval) (advance-polled ks m s)
              ∙ polled-interval s.client.state m s refl;
        }
