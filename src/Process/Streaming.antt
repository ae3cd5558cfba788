-- ===== src/Process/Streaming.antt =====
-- What a sensor's main process (Motes/firmwares, Motes/demo) publishes while its client is subscribed:
-- one record for each call of `state_machine`.
use dam_monitoring.History
use dam_monitoring.History.{All, emitted, emitted_cons}
use dam_monitoring.Prelude.{
  ℕ, ◌≡◌, refl, sym, ap, ◌∙◌, true, List, [], ◌∷◌, ◌++◌, Option, some, >>=-eq-some, eq_of_some,
  arith, take,
}
use mathlib.Core.Path.{subst}
use dam_monitoring.Prelude.Int.{ℤ, pos, ◌≤ℤ◌}
use dam_monitoring.Clib.Text.{Text}
use dam_monitoring.Common.Urn.{LinkAddr}
use dam_monitoring.Mqtt.{
  subscribed, Call, publish, Net, MqttEvent, connected_event, disconnected_event, app_buffer_size,
  state_machine,
}
use dam_monitoring.Process.{Schedule, poll_client}
use dam_monitoring.Process.Publishes.{poll_client_lem}

-- An event of the engine other than a connection and its loss.
abbrev pub IsSteadyEvent : MqttEvent → Type 0
IsSteadyEvent connected_event = ⊥
IsSteadyEvent disconnected_event = ⊥
IsSteadyEvent _ = Unit {0}

-- The calls after the publication of records, the first of the list first, on calls of the past.
abbrev pub published : Text → List Text → List Call → List Call
published topic [] cs = cs
published topic (t ∷ l) cs = published topic l (publish topic t ∷ cs)

published-append :
    (topic : Text) (l m : List Text) (cs : List Call)
    → published topic (l ++ m) cs ≡ published topic m (published topic l cs)
published-append topic [] m cs = refl
published-append topic (t ∷ l) m cs = published-append topic l m (publish topic t ∷ cs)

-- A process that goes on with a subscribed client, which has made these calls.
pub record IsLive (topic : Text) (cs : List Call) (s : Schedule) : Type 0 where
  pub running : s.running ≡ true
  pub state : s.client.state ≡ subscribed
  pub topic_kept : s.client.pub_topic ≡ topic
  pub calls : s.client.calls ≡ cs

module _ (clock_second : ℕ) (addr : LinkAddr) (to_clock_time : ℤ → ℤ)
    (nonneg : (r : ℤ) → pos 0 ≤ℤ to_clock_time r) where
  -- A call publishes, whatever it finds of the network.
  pub poll_client-IsLive :
      (topic : Text) (n : Net) (m : Text) (cs : List Call) (s : Schedule) {text : Text}
      → take app_buffer_size m ≡ text
      → IsLive topic cs s
      → IsLive topic (publish topic text ∷ cs) (poll_client clock_second addr to_clock_time n m s)
  unfolding state_machine
  poll_client-IsLive topic n m cs s whole v =
      rw (poll_client_lem clock_second addr to_clock_time nonneg n m s, sym whole)
        (record {
          running = v.running;
          state = ground (arith, v.state);
          topic_kept = ground (arith, v.state, v.topic_kept);
          calls = ground (arith, v.state, v.topic_kept, v.calls);
        })

module _ {D I : Type 0} (step : I → D → Option D) (emits : I → D → List Text)
    (schedule : D → Schedule) (topic : Text) (IsSteady : I → Type 0)
    (each : (i : I) (d d' : D) (cs : List Call)
      → IsSteady i
      → step i d ≡ some d'
      → IsLive topic cs (schedule d)
      → IsLive topic (published topic (emits i d) cs) (schedule d')) where
  -- What each input publishes, a history publishes.
  pub streams :
      (is : List I) (d : D) (cs : List Call) {e : D}
      → All IsSteady is
      → History.run step is d ≡ some e
      → IsLive topic cs (schedule d)
      → IsLive topic (published topic (emitted step emits is d) cs) (schedule e)
  unfolding History.run emitted
  streams [] d cs steady h v = subst (λ x. IsLive topic cs (schedule x)) (eq_of_some h) v
  streams (i ∷ is) d cs {e} steady h v =
      let (d1, first, rest) = >>=-eq-some (step i d) (History.run step is) h in
      subst (λ l. IsLive topic l (schedule e))
        (sym (published-append topic (emits i d) (emitted step emits is d1) cs)
          ∙ ap (λ l. published topic l cs) (sym (emitted_cons step emits i is d d1 first)))
        (streams is d1 (published topic (emits i d) cs) steady.1 rest
          (each i d d1 cs steady.0 first v))
