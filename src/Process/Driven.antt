-- ===== src/Process/Driven.antt =====
-- The client of Motes/lib/mqtt-client/mqtt-client.c as a sensor's main process (Motes/firmwares,
-- Motes/demo) drives it.
use dam_monitoring.History
use dam_monitoring.History.{emitted, emitted_cons}
use dam_monitoring.Prelude.{
  ◌≡◌, refl, sym, ap, ◌∙◌, List, [], ◌∷◌, ◌++◌, Option, some, >>=-eq-some, eq_of_some, ℕ,
}
use dam_monitoring.Common.Urn.{LinkAddr}
use dam_monitoring.Clib.Text.{Text}
use dam_monitoring.Mqtt.{Client, Net, init_mqtt, initial}
use dam_monitoring.Mqtt.Session.{Input, tick, step, run}
use dam_monitoring.Mqtt.Engine.{absent, calls_of, Dialogue, settings}
use dam_monitoring.Mqtt.Engine.Spoken.{phase}
use dam_monitoring.Mqtt.Engine.Takes.{trace, engine_takes, step-settings}
use dam_monitoring.Process.{Schedule}

module _ (clock_second : ℕ) (addr : LinkAddr) where
  run-append :
      (is js : List Input) (c : Client)
      → run clock_second addr (is ++ js) c ≡ run clock_second addr js (run clock_second addr is c)
  unfolding run
  run-append [] js c = refl
  run-append (i ∷ is) js c = run-append is js (step clock_second addr i c)

  -- Nothing changes what `init_mqtt` has set.
  pub run-settings :
      (is : List Input) (c : Client) → settings (run clock_second addr is c) ≡ settings c
  unfolding run
  run-settings [] c = refl
  run-settings (i ∷ is) c =
      run-settings is (step clock_second addr i c) ∙ step-settings clock_second addr i c

  module _ {D I : Type 0} (turn : I → D → Option D) (asks : I → D → List Input)
      (schedule : D → Schedule) (V : D → Type 0)
      (keeps : (i : I) (d d' : D) → V d → turn i d ≡ some d' → V d')
      (each : (i : I) (d d' : D)
        → V d
        → turn i d ≡ some d'
        → (schedule d').client ≡ run clock_second addr (asks i d) (schedule d).client) where
    -- Where the client does with each input what it does alone with what it gets of it, a history gives
    -- it those of its inputs.
    pub client_runs :
        (is : List I) (d : D) {e : D}
        → V d
        → History.run turn is d ≡ some e
        → (schedule e).client ≡ run clock_second addr (emitted turn asks is d) (schedule d).client
    unfolding History.run emitted run
    client_runs [] d v h = ap (λ x. (schedule x).client) (sym (eq_of_some h))
    client_runs (i ∷ is) d v h =
        let (d1, first, rest) = >>=-eq-some (turn i d) (History.run turn is) h in
        client_runs is d1 (keeps i d d1 v first) rest
        ∙ ap (run clock_second addr (emitted turn asks is d1)) (each i d d1 v first)
        ∙ sym (run-append (asks i d) (emitted turn asks is d1) (schedule d).client)
        ∙ ap (λ l. run clock_second addr l (schedule d).client)
            (sym (emitted_cons turn asks i is d d1 first))

  -- A client that has been driven from its start, by a call first, has talked with the engine.
  pub driven_talks :
      (period : ℕ) (pub_topic sub_topic : Text) (n : Net) (m : Text) (l rest : List Input)
      (c : Client)
      → l ≡ tick n m ∷ rest
      → c
        ≡ run clock_second addr l (init_mqtt period pub_topic sub_topic (initial clock_second addr))
      → let says =
          trace clock_second addr l
            (init_mqtt period pub_topic sub_topic (initial clock_second addr)) in
        (calls_of says ≡ c.calls)
        × Dialogue clock_second addr
            (record { publish_topic = pub_topic; subscribe_topic = sub_topic; period = period })
            absent
            says
            (phase c.state)
  driven_talks period pub_topic sub_topic n m l rest c first driven =
      rw (driven, first) (engine_takes clock_second addr period pub_topic sub_topic n m rest)
