-- ===== src/Mqtt/Engine/Takes.antt =====
-- What the client of Motes/lib/mqtt-client/mqtt-client.c says to the MQTT engine is what an engine of
-- one client takes.
use mathlib.Core.List.{append_assoc, append-nil}
use mathlib.Core.Path.{subst}
use dam_monitoring.Prelude.{ℕ, ◌≡◌, ◌≢◌, refl, sym, ap, ◌∙◌, List, [], ◌∷◌, ◌++◌, arith}
use dam_monitoring.Clib.Text.{Text}
use dam_monitoring.Common.Urn.{LinkAddr}
use dam_monitoring.Mqtt.{
  ConnState, boot, init, net_ok, connecting, connected, subscribed, disconnected, Call,
  connected_event, disconnected_event, Client, Net, client_event, init_mqtt, initial, state_machine,
  toggle_led, led_off,
}
use dam_monitoring.Mqtt.Session.{
  Input, tick, event, led_timer_fires, publish_led_timer_fires, step, run,
}
use dam_monitoring.Mqtt.States.{next_state, state_machine_table}
use dam_monitoring.Mqtt.Engine.{
  absent, Label, says, tells, settings, reports, Dialogue, silent, further, joined, calls_of,
  calls_of-append,
}
use dam_monitoring.Mqtt.Engine.Spoken.{phase, present, spoken, spoken-Dialogue}

abbrev said : List Call → List Label
said [] = []
said (c ∷ l) = says c ∷ said l

-- The client, with no call made so far.
abbrev mute : Client → Client
mute c = record c { calls = [] }

module _ (clock_second : ℕ) (addr : LinkAddr) where
  -- What an input makes the client and the engine say, the latest first.
  abbrev pub labels : Input → Client → List Label
  labels (event m) c = tells m ∷ []
  labels i c = said (step clock_second addr i (mute c)).calls

  abbrev pub trace : List Input → Client → List Label
  trace [] c = []
  trace (i ∷ is) c = trace is (step clock_second addr i c) ++ labels i c

  pub tick_labels :
      (s : ConnState) (n : Net) (m : Text) (c : Client)
      → c.state ≡ s
      → (labels (tick n m) c ≡ spoken clock_second addr (settings c) s n m)
        × ((step clock_second addr (tick n m) c).calls
            ≡ calls_of (spoken clock_second addr (settings c) s n m) ++ c.calls)
  unfolding step state_machine
  tick_labels boot n m c e = ground arith
  tick_labels init n m c e = ground arith
  tick_labels net_ok n m c e = ground arith
  tick_labels connecting n m c e = ground arith
  tick_labels connected n m c e = ground arith
  tick_labels subscribed n m c e = ground arith
  tick_labels disconnected n m c e = ground arith

  pub step-settings : (i : Input) (c : Client) → settings (step clock_second addr i c) ≡ settings c
  unfolding step state_machine client_event toggle_led led_off
  step-settings (tick n m) c = by_state c.state refl
    where
      by_state :
          (s : ConnState)
          → c.state ≡ s
          → settings (step clock_second addr (tick n m) c) ≡ settings c
      by_state s e = ground arith
  step-settings (event connected_event) c = refl
  step-settings (event _) c = ground arith
  step-settings led_timer_fires c = ground arith
  step-settings publish_led_timer_fires c = ground arith

  tick-ne-boot :
      (n : Net) (m : Text) (c : Client) → (step clock_second addr (tick n m) c).state ≢ boot
  unfolding step next_state
  tick-ne-boot n m c =
      let (goes, gives, never) = state_machine_table clock_second addr n m c in
      rw goes (by_state c.state)
    where
      by_state : (s : ConnState) → next_state s n ≢ boot
      by_state boot = ground arith
      by_state _ = ground arith

  step-ne-boot :
      (i : Input) (c : Client) → c.state ≢ boot → (step clock_second addr i c).state ≢ boot
  unfolding step client_event toggle_led led_off
  step-ne-boot (tick n m) c b = tick-ne-boot n m c
  step-ne-boot (event connected_event) c b = ground arith
  step-ne-boot (event disconnected_event) c b = ground arith
  step-ne-boot (event _) c b = ground arith
  step-ne-boot led_timer_fires c b = ground arith
  step-ne-boot publish_led_timer_fires c b = ground arith

  pub step-calls :
      (i : Input) (c : Client)
      → (step clock_second addr i c).calls ≡ calls_of (labels i c) ++ c.calls
  unfolding step client_event toggle_led led_off
  step-calls (tick n m) c =
      let (here, calls) = tick_labels c.state n m c refl in
      calls ∙ ap (λ l. calls_of l ++ c.calls) (sym here)
  step-calls (event connected_event) c = refl
  step-calls (event _) c = ground arith
  step-calls led_timer_fires c = ground arith
  step-calls publish_led_timer_fires c = ground arith

  tick-Dialogue :
      (n : Net) (m : Text) (c : Client)
      → Dialogue clock_second addr
          (settings c)
          (phase c.state)
          (labels (tick n m) c)
          (phase (step clock_second addr (tick n m) c).state)
  unfolding step
  tick-Dialogue n m c =
      let (here, calls) = tick_labels c.state n m c refl in
      let (goes, gives, never) = state_machine_table clock_second addr n m c in
      subst
        (λ l.
          Dialogue clock_second addr (settings c) (phase c.state) l
            (phase (step clock_second addr (tick n m) c).state))
        (sym here)
        (subst
          (λ s.
            Dialogue clock_second addr (settings c) (phase c.state)
              (spoken clock_second addr (settings c) c.state n m) (phase s))
          (sym goes) (spoken-Dialogue clock_second addr (settings c) c.state n m))

  unspoken :
      (i : Input) (c : Client)
      → labels i c ≡ []
      → (step clock_second addr i c).state ≡ c.state
      → Dialogue clock_second addr
          (settings c)
          (phase c.state)
          (labels i c)
          (phase (step clock_second addr i c).state)
  unspoken i c none_said same =
      subst
        (λ l.
          Dialogue clock_second addr (settings c) (phase c.state) l
            (phase (step clock_second addr i c).state))
        (sym none_said)
        (subst (λ s. Dialogue clock_second addr (settings c) (phase c.state) [] (phase s))
          (sym same) silent)

  step-Dialogue :
      (i : Input) (c : Client)
      → c.state ≢ boot
      → Dialogue clock_second addr
          (settings c)
          (phase c.state)
          (labels i c)
          (phase (step clock_second addr i c).state)
  unfolding step client_event toggle_led led_off
  step-Dialogue (tick n m) c b = tick-Dialogue n m c
  step-Dialogue (event connected_event) c b =
      further silent (reports connected_event (present c.state b))
  step-Dialogue (event m) c b = further silent (reports m (present c.state b))
  step-Dialogue led_timer_fires c b = unspoken led_timer_fires c (ground arith) (ground arith)
  step-Dialogue publish_led_timer_fires c b =
      unspoken publish_led_timer_fires c (ground arith) (ground arith)

  -- A history's calls are those of what is said in it, which the engine takes.
  abbrev IsTaken : List Input → Client → Type 0
  IsTaken is c =
      (calls_of (trace is c) ++ c.calls ≡ (run clock_second addr is c).calls)
      × Dialogue clock_second addr (settings c) (phase c.state) (trace is c)
          (phase (run clock_second addr is c).state)

  extend :
      (i : Input) (is : List Input) (c : Client)
      → Dialogue clock_second addr
          (settings c)
          (phase c.state)
          (labels i c)
          (phase (step clock_second addr i c).state)
      → IsTaken is (step clock_second addr i c)
      → IsTaken (i ∷ is) c
  unfolding run
  extend i is c first (calls, rest) =
      let c1 = step clock_second addr i c in
      (
        ap (λ l. l ++ c.calls) (calls_of-append (trace is c1) (labels i c))
            ∙ append_assoc (calls_of (trace is c1)) (calls_of (labels i c)) c.calls
            ∙ ap (λ l. calls_of (trace is c1) ++ l) (sym (step-calls i c))
            ∙ calls,
        joined clock_second addr (settings c) first (
            subst
              (λ g.
                Dialogue clock_second addr g (phase c1.state) (trace is c1)
                  (phase (run clock_second addr is c1).state))
              (step-settings i c) rest),
      )

  run-IsTaken : (is : List Input) (c : Client) → c.state ≢ boot → IsTaken is c
  unfolding run
  run-IsTaken [] c b = (refl, silent)
  run-IsTaken (i ∷ is) c b =
      extend i is c (step-Dialogue i c b)
        (run-IsTaken is (step clock_second addr i c) (step-ne-boot i c b))

  -- From the start, where the first call of `state_machine` comes before every event of the engine, and
  -- whatever follows: what the client and the engine say to each other is a dialogue that the engine
  -- takes, it is all the calls that the client makes, and the client's state tells what the engine has
  -- come to.
  pub engine_takes :
      (period : ℕ) (pub_topic sub_topic : Text) (n : Net) (m : Text) (is : List Input)
      → let c = init_mqtt period pub_topic sub_topic (initial clock_second addr) in
        let end = run clock_second addr (tick n m ∷ is) c in
        let l = trace (tick n m ∷ is) c in
        (calls_of l ≡ end.calls)
        × Dialogue clock_second addr
            (record { publish_topic = pub_topic; subscribe_topic = sub_topic; period = period })
            absent
            l
            (phase end.state)
  unfolding init_mqtt initial
  engine_takes period pub_topic sub_topic n m is =
      let c = init_mqtt period pub_topic sub_topic (initial clock_second addr) in
      let (calls, dialogue) =
        extend (tick n m) is c (tick-Dialogue n m c)
          (run-IsTaken is (step clock_second addr (tick n m) c) (tick-ne-boot n m c)) in
      (sym (append-nil (calls_of (trace (tick n m ∷ is) c))) ∙ calls, dialogue)
