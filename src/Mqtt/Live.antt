-- ===== src/Mqtt/Live.antt =====
-- What the MQTT client (Motes/lib/mqtt-client/mqtt-client.c) publishes, and on what connection, over every
-- history of calls, of the engine's events and of timers.
use mathlib.Core.List.{append_assoc, append-nil}
use mathlib.Core.Path.{subst}
use dam_monitoring.Prelude.{
  ℕ, ◌*◌, ◌/◌, ◌≡◌, refl, sym, ap, ◌∙◌, Bool, true, false, List, [], ◌∷◌, ◌++◌, if◌then◌else◌,
  arith,
}
use dam_monitoring.Clib.Text.{Text}
use dam_monitoring.Common.Urn.{LinkAddr}
use dam_monitoring.Mqtt.{
  ConnState, boot, init, net_ok, connecting, connected, subscribed, disconnected, register, connect,
  subscribe, publish, connected_event, disconnected_event, Client, Net, have_connectivity,
  client_id, broker_ip, default_broker_port, client_event, init_mqtt, initial, toggle_led, led_off,
}
use dam_monitoring.Mqtt.Session.{
  Input, tick, event, led_timer_fires, publish_led_timer_fires, step, run, Inv, run-initial-Inv,
}
use dam_monitoring.Mqtt.States.{next_state, state_machine_table}
use dam_monitoring.Mqtt.Engine.{Label, says, tells, Settings, settings, calls_of, calls_of-append}
use dam_monitoring.Mqtt.Engine.Spoken.{spoken}
use dam_monitoring.Mqtt.Engine.Takes.{labels, trace, tick_labels, step-calls}

-- Whether what client and engine have said, the latest first, leaves a subscription: the engine took
-- one, and since then it has told neither of a connection nor of the loss of one, and the client has
-- only published.
abbrev pub is_live : List Label → Bool
is_live [] = false
is_live (says (subscribe t b) ∷ l) = b
is_live (says (publish t m) ∷ l) = is_live l
is_live (says c ∷ l) = false
is_live (tells connected_event ∷ l) = false
is_live (tells disconnected_event ∷ l) = false
is_live (tells e ∷ l) = is_live l

-- Each message was published on such a subscription.
abbrev pub IsOrdered : List Label → Type 0
IsOrdered [] = Unit {0}
IsOrdered (says (publish t m) ∷ l) = (is_live l ≡ true) × IsOrdered l
IsOrdered (says c ∷ l) = IsOrdered l
IsOrdered (tells e ∷ l) = IsOrdered l

-- A state with what has been said.
pub record IsKept (l : List Label) (s : ConnState) : Type 0 where
  ordered : IsOrdered l
  pub live : s ≡ subscribed → is_live l ≡ true

attempted :
    (b : Bool) (k : ℕ) (l : List Label)
    → IsOrdered l
    → IsKept
        ((if b then says (connect broker_ip default_broker_port k) ∷ [] else []) ++ l)
        (if b then connecting else init)
attempted true k l v = record { ordered = v; live = λ e. absurd (cc) }
attempted false k l v = record { ordered = v; live = λ e. absurd (cc) }

asked :
    (b : Bool) (topic : Text) (l : List Label)
    → IsOrdered l
    → IsKept (says (subscribe topic b) ∷ l) (if b then subscribed else connected)
asked true topic l v = record { ordered = v; live = λ e. refl }
asked false topic l v = record { ordered = v; live = λ e. absurd (cc) }

module _ (clock_second : ℕ) (addr : LinkAddr) where
  spoken-IsKept :
      (g : Settings) (s : ConnState) (n : Net) (m : Text) (l : List Label)
      → IsKept l s
      → IsKept (spoken clock_second addr g s n m ++ l) (next_state s n)
  unfolding next_state
  spoken-IsKept g boot n m l v =
      subst (λ k. IsKept k (next_state boot n))
        (sym (
          append_assoc (spoken clock_second addr g init n m) (says (register (client_id addr)) ∷ [])
            l))
        (attempted (have_connectivity n) (g.period * 3 / clock_second)
          (says (register (client_id addr)) ∷ l) v.ordered)
  spoken-IsKept g init n m l v =
      attempted (have_connectivity n) (g.period * 3 / clock_second) l v.ordered
  spoken-IsKept g net_ok n m l v = record { ordered = v.ordered; live = λ e. absurd (cc) }
  spoken-IsKept g connecting n m l v = record { ordered = v.ordered; live = λ e. absurd (cc) }
  spoken-IsKept g connected n m l v = asked n.queue_room g.subscribe_topic l v.ordered
  spoken-IsKept g subscribed n m l v = record { ordered = (v.live refl, v.ordered); live = v.live }
  spoken-IsKept g disconnected n m l v = record { ordered = v.ordered; live = λ e. absurd (cc) }

  tick-IsKept :
      (n : Net) (m : Text) (c : Client) (l : List Label)
      → IsKept l c.state
      → IsKept
          (labels clock_second addr (tick n m) c ++ l)
          (step clock_second addr (tick n m) c).state
  unfolding step
  tick-IsKept n m c l v =
      let (here, calls) = tick_labels clock_second addr c.state n m c refl in
      let (goes, gives, never) = state_machine_table clock_second addr n m c in
      subst (λ k. IsKept (k ++ l) (step clock_second addr (tick n m) c).state) (sym here)
        (subst (IsKept (spoken clock_second addr (settings c) c.state n m ++ l)) (sym goes)
          (spoken-IsKept (settings c) c.state n m l v))

  unsaid-IsKept :
      (i : Input) (c : Client) (l : List Label)
      → labels clock_second addr i c ≡ []
      → (step clock_second addr i c).state ≡ c.state
      → IsKept l c.state
      → IsKept (labels clock_second addr i c ++ l) (step clock_second addr i c).state
  unsaid-IsKept i c l none_said same v =
      subst (λ k. IsKept (k ++ l) (step clock_second addr i c).state) (sym none_said)
        (subst (IsKept l) (sym same) v)

  step-IsKept :
      (i : Input) (c : Client) (l : List Label)
      → IsKept l c.state
      → IsKept (labels clock_second addr i c ++ l) (step clock_second addr i c).state
  unfolding step client_event toggle_led led_off
  step-IsKept (tick n m) c l v = tick-IsKept n m c l v
  step-IsKept (event connected_event) c l v = record {
    ordered = v.ordered;
    live = λ e. absurd (cc);
  }
  step-IsKept (event disconnected_event) c l v = record {
    ordered = v.ordered;
    live = λ e. absurd (cc);
  }
  step-IsKept (event e) c l v = record { ordered = v.ordered; live = v.live }
  step-IsKept led_timer_fires c l v =
      unsaid-IsKept led_timer_fires c l (ground arith) (ground arith) v
  step-IsKept publish_led_timer_fires c l v =
      unsaid-IsKept publish_led_timer_fires c l (ground arith) (ground arith) v

  run-IsKept :
      (is : List Input) (c : Client) (l : List Label)
      → IsKept l c.state
      → IsKept (trace clock_second addr is c ++ l) (run clock_second addr is c).state
  unfolding run
  run-IsKept [] c l v = v
  run-IsKept (i ∷ is) c l v =
      let c1 = step clock_second addr i c in
      subst (λ k. IsKept k (run clock_second addr is c1).state)
        (sym (append_assoc (trace clock_second addr is c1) (labels clock_second addr i c) l))
        (run-IsKept is c1 (labels clock_second addr i c ++ l) (step-IsKept i c l v))

  -- What is said holds all the calls.
  run_said :
      (is : List Input) (c : Client)
      → calls_of (trace clock_second addr is c) ++ c.calls ≡ (run clock_second addr is c).calls
  unfolding run
  run_said [] c = refl
  run_said (i ∷ is) c =
      let c1 = step clock_second addr i c in
      ap (λ l. l ++ c.calls)
        (calls_of-append (trace clock_second addr is c1) (labels clock_second addr i c))
      ∙ append_assoc (calls_of (trace clock_second addr is c1))
          (calls_of (labels clock_second addr i c)) c.calls
      ∙ ap (λ l. calls_of (trace clock_second addr is c1) ++ l)
          (sym (step-calls clock_second addr i c))
      ∙ run_said is c1

  -- Over every history from the start, in whatever order: what the client and the engine have said to
  -- each other holds all the calls that the client made; each message in it was published on a
  -- subscription that the engine took, with no connection and no loss of one told since; while the client is
  -- subscribed, it has such a subscription, and its red led is off and does not blink.
  pub messages_live :
      (period : ℕ) (pub_topic sub_topic : Text) (is : List Input)
      → let c = init_mqtt period pub_topic sub_topic (initial clock_second addr) in
        let end = run clock_second addr is c in
        let l = trace clock_second addr is c in
        (calls_of l ≡ end.calls) × IsKept l end.state × Inv end
  unfolding init_mqtt initial
  messages_live period pub_topic sub_topic is =
      let c = init_mqtt period pub_topic sub_topic (initial clock_second addr) in
      (
        sym (append-nil (calls_of (trace clock_second addr is c))) ∙ run_said is c,
        subst (λ l. IsKept l (run clock_second addr is c).state)
            (append-nil (trace clock_second addr is c))
            (run-IsKept is c [] (record { ordered = tt; live = λ e. absurd (cc) })),
        run-initial-Inv clock_second addr period pub_topic sub_topic is,
      )
