-- ===== src/Process/Stalled.antt =====
-- A sensor's main process (Motes/firmwares) whose subscription found no room in the engine's queue.
use mathlib.Core.Path.{subst}
use dam_monitoring.History
use dam_monitoring.History.{All}
use dam_monitoring.Prelude.{
  ℕ, ◌≡◌, true, false, List, [], ◌∷◌, Option, some, >>=-eq-some, eq_of_some, arith,
}
use dam_monitoring.Prelude.Int.{ℤ, pos, negsuc, ◌≤ℤ◌}
use dam_monitoring.Clib.Text.{Text}
use dam_monitoring.Common.Urn.{LinkAddr}
use dam_monitoring.Mqtt.{Call, subscribe, connected, Net, state_machine}
use dam_monitoring.Process.{Schedule, ProcessEvent, periodic_timer_event, poll, poll_client}
use dam_monitoring.Process.Publishes.{poll_client_lem}

-- An event of the scheduler on which the process calls `state_machine`, and one on which it does not.
abbrev pub IsCall : ProcessEvent → Type 0
IsCall periodic_timer_event = Unit {0}
IsCall poll = Unit {0}
IsCall _ = ⊥

abbrev pub IsOther : ProcessEvent → Type 0
IsOther periodic_timer_event = ⊥
IsOther poll = ⊥
IsOther _ = Unit {0}

-- A process that goes on, connected and without a subscription, with these calls made and its timer
-- set to that interval.
pub record IsStalled (cs : List Call) (interval : ℤ) (s : Schedule) : Type 0 where
  pub running : s.running ≡ true
  pub state : s.client.state ≡ connected
  pub calls : s.client.calls ≡ cs
  pub timer : s.interval ≡ interval

module _ (clock_second : ℕ) (addr : LinkAddr) (to_clock_time : ℤ → ℤ)
    (nonneg : (r : ℤ) → pos 0 ≤ℤ to_clock_time r) where
  pub poll_client-IsStalled :
      (n : Net) (m : Text) (s : Schedule)
      → s.running ≡ true
      → s.client.state ≡ connected
      → n.queue_room ≡ false
      → IsStalled
          (subscribe s.client.sub_topic false ∷ s.client.calls)
          (to_clock_time (negsuc 0))
          (poll_client clock_second addr to_clock_time n m s)
  unfolding state_machine
  poll_client-IsStalled n m s on waits full =
      rw (poll_client_lem clock_second addr to_clock_time nonneg n m s) (record {
        running = on;
        state = ground (arith, waits, full);
        calls = ground (arith, waits, full);
        timer = ground (arith, waits, full);
      })

module _ {D I : Type 0} (step : I → D → Option D) (schedule : D → Schedule) (IsQuiet : I → Type 0)
    (each : (i : I) (d d' : D) (cs : List Call) (t : ℤ)
      → IsQuiet i
      → step i d ≡ some d'
      → IsStalled cs t (schedule d)
      → IsStalled cs t (schedule d')) where
  -- What each quiet input keeps, a quiet history keeps.
  pub quiet_history :
      (is : List I) (d : D) (cs : List Call) (t : ℤ) {e : D}
      → All IsQuiet is
      → History.run step is d ≡ some e
      → IsStalled cs t (schedule d)
      → IsStalled cs t (schedule e)
  unfolding History.run
  quiet_history [] d cs t quiet h v = subst (λ x. IsStalled cs t (schedule x)) (eq_of_some h) v
  quiet_history (i ∷ is) d cs t quiet h v =
      let (d1, first, rest) = >>=-eq-some (step i d) (History.run step is) h in
      quiet_history is d1 cs t quiet.1 rest (each i d d1 cs t quiet.0 first v)
