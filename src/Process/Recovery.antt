-- ===== src/Process/Recovery.antt =====
-- How a sensor's main process (Motes/firmwares, Motes/demo) gets to its next record from wherever a
-- history has left it: the way of its client (Motes/lib/mqtt-client/mqtt-client.c).
use dam_monitoring.History
use dam_monitoring.Prelude.{ℕ, ◌≡◌, refl, ap, ◌∙◌, true, List, [], ◌∷◌, some, take}
use dam_monitoring.Prelude.Int.{ℤ, pos, ◌≤ℤ◌}
use dam_monitoring.Clib.Text.{Text}
use dam_monitoring.Common.Urn.{LinkAddr}
use dam_monitoring.Mqtt.{app_buffer_size}
use dam_monitoring.Mqtt.Recovery.{Move, timed, linked, moves}
use dam_monitoring.Process.{Schedule, poll_client}
use dam_monitoring.Process.Publishes.{online, connects, poll_running}
use dam_monitoring.Process.Sensor.{Sensor}
use dam_monitoring.Process.Going.{IsGoing}
use dam_monitoring.Process.Advance.{HasNext, advance, advance-HasNext}

-- The moves as inputs of a device: its timer, and the engine's event of a connection.
abbrev pub wakes {ℓ} : {I : Type ℓ} → I → I → List Move → List I
wakes timer connection [] = []
wakes timer connection (timed ∷ ks) = timer ∷ wakes timer connection ks
wakes timer connection (linked ∷ ks) = connection ∷ wakes timer connection ks

module _ {D S I R : Type 0} {clock_second : ℕ} {addr : LinkAddr} {to_clock_time : ℤ → ℤ}
    (nonneg : (r : ℤ) → pos 0 ≤ℤ to_clock_time r)
    (P : Sensor clock_second addr to_clock_time D S I R) where
  abbrev advanced : List Move → Text → Schedule → Schedule
  advanced = advance clock_second addr to_clock_time

  -- The device advances as its schedule does, and its simulation stays.
  record Follows (ks : List Move) (d e : D) : Type 0 where
    schedule : P.schedule e ≡ advanced ks (P.message (P.sim d)) (P.schedule d)
    sim : P.sim e ≡ P.sim d

  abbrev Followed : List Move → D → Type 0
  Followed ks d =
      (e : D) × (History.run P.step (wakes (P.timer online) P.connection ks) d ≡ some e)
      × Follows ks d e

  -- What follows after a new schedule, follows.
  step-Follows :
      (ks : List Move) (t : Schedule) (d e : D)
      → Follows ks (P.set_schedule t d) e
      → (P.schedule e ≡ advanced ks (P.message (P.sim d)) t) × (P.sim e ≡ P.sim d)
  step-Follows ks t d e f = (
    f.schedule
        ∙ ap (λ x. advanced ks (P.message x) (P.schedule (P.set_schedule t d)))
            (P.sim-set_schedule t d)
        ∙ ap (advanced ks (P.message (P.sim d))) (P.schedule-set_schedule t d),
    f.sim ∙ P.sim-set_schedule t d,
  )

  follows : (ks : List Move) (d : D) → (P.schedule d).running ≡ true → Followed ks d
  unfolding History.run advance
  follows [] d on = (d, refl, record { schedule = refl; sim = refl })
  follows (timed ∷ ks) d on =
      let m = P.message (P.sim d) in
      let t = poll_client clock_second addr to_clock_time online m (P.schedule d) in
      let on1 =
        ap (λ x. x.running) (P.schedule-set_schedule t d)
        ∙ poll_running clock_second addr to_clock_time nonneg online m (P.schedule d)
        ∙ on in
      let (e, runs, f) = follows ks (P.set_schedule t d) on1 in
      let (schedule, sim) = step-Follows ks t d e f in
      (
        e,
        History.run_cons P.step _ _ d _ (P.step-timer online d on) runs,
        record { schedule = schedule; sim = sim },
      )
  follows (linked ∷ ks) d on =
      let t = connects (P.schedule d) in
      let on1 = ap (λ x. x.running) (P.schedule-set_schedule t d) ∙ on in
      let (e, runs, f) = follows ks (P.set_schedule t d) on1 in
      let (schedule, sim) = step-Follows ks t d e f in
      (
        e,
        History.run_cons P.step _ _ d _ (P.step-connection d) runs,
        record { schedule = schedule; sim = sim },
      )

  -- A process that goes on gets to its next record: that of its simulation as it is.
  recovers :
      (topic : Text) (d : D) {text : Text}
      → IsGoing topic (P.schedule d)
      → take app_buffer_size (P.message (P.sim d)) ≡ text
      → (e : D) × (History.run P.step
            (wakes (P.timer online) P.connection (moves (P.schedule d).client.state))
            d
          ≡ some e)
        × (P.sim e ≡ P.sim d)
        × HasNext clock_second addr to_clock_time topic text (P.schedule d) (P.schedule e)
  recovers topic d {text} v whole =
      let (e, runs, f) = follows (moves (P.schedule d).client.state) d v.running in
      let next =
        advance-HasNext clock_second addr to_clock_time nonneg topic text (P.message (P.sim d))
          (P.schedule d) v whole in
      (e, runs, f.sim, rw f.schedule next)

  -- Where every step keeps the process going, it gets to its next record from wherever a history has
  -- left it.
  pub always_recovers :
      (topic : Text) (text : S → Text) (start : D)
      → IsGoing topic (P.schedule start)
      → ((i : I) (d d' : D)
          → IsGoing topic (P.schedule d)
          → P.step i d ≡ some d'
          → IsGoing topic (P.schedule d'))
      → ((s : S) → take app_buffer_size (P.message s) ≡ text s)
      → (is : List I) {d : D} → History.run P.step is start ≡ some d
      → (e : D) × (History.run P.step
            (wakes (P.timer online) P.connection (moves (P.schedule d).client.state))
            d
          ≡ some e)
        × (P.sim e ≡ P.sim d)
        × HasNext clock_second addr to_clock_time topic
            (text (P.sim d))
            (P.schedule d)
            (P.schedule e)
  always_recovers topic text start going keeps whole is {d} h =
      recovers topic d
        (History.run_keeps P.step (λ x. IsGoing topic (P.schedule x)) keeps is start going h)
        (whole (P.sim d))
