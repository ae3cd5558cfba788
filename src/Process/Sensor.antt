-- ===== src/Process/Sensor.antt =====
-- The interface of a sensor's main process (Motes/firmwares, Motes/demo): what its schedule and its
-- simulation are, and what the timer, a connection and a reading do. From it follows the way from the
-- start to the first record.
use dam_monitoring.History
use dam_monitoring.Prelude.{ℕ, ◌≡◌, sym, ap, ◌∙◌, true, List, [], ◌∷◌, Option, some, take}
use dam_monitoring.Prelude.Int.{ℤ, pos, ◌≤ℤ◌}
use dam_monitoring.Clib.Text.{Text}
use dam_monitoring.Common.Urn.{LinkAddr}
use dam_monitoring.Mqtt.{Net, app_buffer_size}
use dam_monitoring.Process.{Schedule, poll_client}
use dam_monitoring.Process.Publishes.{
  online, connects, poll_running, HasPublished, IsStart, polls-HasPublished,
}

-- Devices `D` with a simulation `S`, woken by inputs `I`; a reading takes random numbers `R`.
pub record Sensor (clock_second : ℕ) (addr : LinkAddr) (to_clock_time : ℤ → ℤ) (D S I R : Type 0)
    : Type 0 where
  pub step : I → D → Option D
  pub schedule : D → Schedule
  pub sim : D → S
  pub set_schedule : Schedule → D → D
  pub set_sim : S → D → D
  pub message : S → Text
  pub simulate : R → S → Option S
  pub timer : Net → I
  pub connection : I
  pub reading : R → I
  pub schedule-set_schedule : (t : Schedule) (d : D) → schedule (set_schedule t d) ≡ t
  pub sim-set_schedule : (t : Schedule) (d : D) → sim (set_schedule t d) ≡ sim d
  pub schedule-set_sim : (s : S) (d : D) → schedule (set_sim s d) ≡ schedule d
  pub sim-set_sim : (s : S) (d : D) → sim (set_sim s d) ≡ s
  pub step-timer :
      (n : Net) (d : D)
      → (schedule d).running ≡ true
      → step (timer n) d
        ≡ some (
            set_schedule
              (poll_client clock_second addr to_clock_time n (message (sim d)) (schedule d))
              d)
  pub step-connection : (d : D) → step connection d ≡ some (set_schedule (connects (schedule d)) d)
  pub step-reading :
      (r : R) (d : D) {s : S}
      → simulate r (sim d) ≡ some s
      → step (reading r) d ≡ some (set_sim s d)

module _ {D S I R : Type 0} {clock_second : ℕ} {addr : LinkAddr} {to_clock_time : ℤ → ℤ}
    (nonneg : (r : ℤ) → pos 0 ≤ℤ to_clock_time r)
    (P : Sensor clock_second addr to_clock_time D S I R) where
  -- Three timers, the connection after the first, and a reading before the last.
  abbrev pub first_inputs : R → List I
  first_inputs r =
      P.timer online ∷ P.connection ∷ P.timer online ∷ P.reading r ∷ P.timer online ∷ []

  abbrev poll : Text → Schedule → Schedule
  poll = poll_client clock_second addr to_clock_time online

  abbrev poll_at : D → Schedule
  poll_at d = poll (P.message (P.sim d)) (P.schedule d)

  abbrev ticked : D → D
  ticked d = P.set_schedule (poll_at d) d

  abbrev linked : D → D
  linked d = P.set_schedule (connects (P.schedule d)) d

  ticked_running : (d : D) → (P.schedule (ticked d)).running ≡ (P.schedule d).running
  ticked_running d =
      ap (λ t. t.running) (P.schedule-set_schedule (poll_at d) d)
      ∙ poll_running clock_second addr to_clock_time nonneg online (P.message (P.sim d))
          (P.schedule d)

  linked_running : (d : D) → (P.schedule (linked d)).running ≡ (P.schedule d).running
  linked_running d = ap (λ t. t.running) (P.schedule-set_schedule (connects (P.schedule d)) d)

  -- The device before the reading.
  abbrev unread : D → D
  unread d = ticked (linked (ticked d))

  unread_running : (d : D) → (P.schedule (unread d)).running ≡ (P.schedule d).running
  unread_running d =
      ticked_running (linked (ticked d)) ∙ linked_running (ticked d) ∙ ticked_running d

  sim-unread : (d : D) → P.sim (unread d) ≡ P.sim d
  sim-unread d =
      P.sim-set_schedule _ (linked (ticked d))
      ∙ P.sim-set_schedule _ (ticked d)
      ∙ P.sim-set_schedule _ d

  history :
      (r : R) (d : D) {s : S}
      → (P.schedule d).running ≡ true
      → P.simulate r (P.sim d) ≡ some s
      → History.run P.step (first_inputs r) d ≡ some (ticked (P.set_sim s (unread d)))
  history r d {s} on e =
      let on1 = ticked_running d ∙ on in
      let read : P.simulate r (P.sim (unread d)) ≡ some s = ap (P.simulate r) (sim-unread d) ∙ e in
      let on3 = ap (λ t. t.running) (P.schedule-set_sim s (unread d)) ∙ unread_running d ∙ on in
      History.run_cons P.step _ _ d _ (P.step-timer online d on) (
        History.run_cons P.step _ _ _ _ (P.step-connection (ticked d)) (
          History.run_cons P.step _ _ _ _
            (P.step-timer online (linked (ticked d)) (linked_running (ticked d) ∙ on1))
            (History.run_cons P.step _ _ _ _ (P.step-reading r (unread d) read)
              (History.run_last P.step _ _ _ (P.step-timer online (P.set_sim s (unread d)) on3)))))

  -- The schedule in the end, as the three calls make it.
  schedule_read :
      (d : D) (s : S)
      → P.schedule (ticked (P.set_sim s (unread d)))
        ≡ poll (P.message s) (poll (P.message (P.sim (linked (ticked d)))) (connects (poll_at d)))
  schedule_read d s =
      P.schedule-set_schedule _ _
      ∙ rw (P.sim-set_sim s (unread d), P.schedule-set_sim s (unread d))
          (ap (poll (P.message s)) (
            P.schedule-set_schedule _ _
            ∙ ap (poll (P.message (P.sim (linked (ticked d)))))
                (P.schedule-set_schedule _ _ ∙ ap connects (P.schedule-set_schedule _ _))))

  -- From the start to the first record.
  pub first_record :
      (r : R) (d : D) (period : ℕ) (pub_topic sub_topic : Text) {s : S} {text : Text}
      → IsStart clock_second addr period pub_topic sub_topic (P.schedule d)
      → P.simulate r (P.sim d) ≡ some s
      → take app_buffer_size (P.message s) ≡ text
      → (e : D) × (History.run P.step (first_inputs r) d ≡ some e)
        × (P.sim e ≡ s)
        × HasPublished clock_second addr to_clock_time period pub_topic sub_topic text
            (P.schedule e)
  first_record r d period pub_topic sub_topic {s} v read whole = (
    ticked (P.set_sim s (unread d)),
    history r d v.running read,
    P.sim-set_schedule _ _ ∙ P.sim-set_sim s (unread d),
    rw (schedule_read d s, sym whole)
        (polls-HasPublished clock_second addr to_clock_time nonneg period pub_topic sub_topic _ _ _
          (P.schedule d) v),
  )
