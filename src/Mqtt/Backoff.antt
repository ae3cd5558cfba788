-- ===== src/Mqtt/Backoff.antt =====
-- Failed connections of the MQTT client (Motes/lib/mqtt-client/mqtt-client.c), one after the other: how
-- long it waits between them, and that a subscription starts the waits again.
use Prim.Native.Nat.{min}
use dam_monitoring.Prelude.{
  ℕ, zero, suc, ◌+◌, ◌*◌, ◌^◌, ◌≡◌, refl, true, List, [], ◌∷◌, arith, length,
}
use dam_monitoring.Prelude.Int.{ℤ, pos}
use dam_monitoring.Clib.Text.{Text}
use dam_monitoring.Common.Urn.{LinkAddr}
use dam_monitoring.Mqtt.{
  init, disconnected_event, connected_event, subscribed, Client, Net, have_connectivity,
  client_event, backoff, state_machine,
}
use dam_monitoring.Mqtt.States.{backoff_lem}

-- The waits from a number of trials on, in ticks: they double for six trials, and then stay.
abbrev pub waits : ℕ → ℕ → ℕ → List ℤ
waits clock_second trial zero = []
waits clock_second trial (suc n) =
    pos (clock_second * 2 ^ min trial 6) ∷ waits clock_second (trial + 1) n

module _ (clock_second : ℕ) (addr : LinkAddr) (n : Net) where
  -- A call that tries to connect, the engine's event of a failure, and the call after it, with the
  -- ticks that it returns.
  abbrev pub fail : Text → Client → Client × ℤ
  fail m c =
      state_machine clock_second addr n m
        (client_event disconnected_event (state_machine clock_second addr n m c).0)

  -- One failure for each message, and what they return.
  pub failures : List Text → Client → Client × List ℤ
  failures [] c = (c, [])
  failures (m ∷ ms) c = let (c1, r) = fail m c in let (c2, rs) = failures ms c1 in (c2, r ∷ rs)

  fail_lem :
      (m : Text) (c : Client)
      → c.state ≡ init
      → have_connectivity n ≡ true
      → let (c', r) = fail m c in
        (c'.state ≡ init)
        × (r ≡ pos (backoff clock_second addr c.reconnection_trial))
        × (c'.reconnection_trial ≡ c.reconnection_trial + 1)
  unfolding state_machine client_event
  fail_lem m c s net = ground arith

  failures_lem :
      (ms : List Text) (c : Client)
      → c.state ≡ init
      → have_connectivity n ≡ true
      → let (c', rs) = failures ms c in
        (c'.state ≡ init)
        × (rs ≡ waits clock_second c.reconnection_trial (length ms))
        × (c'.reconnection_trial ≡ c.reconnection_trial + length ms)
  unfolding failures
  failures_lem [] c s net = (s, refl, omega arith)
  failures_lem (m ∷ ms) c s net =
      let (s1, r, t) = fail_lem m c s net in
      let (s2, rs, t') = failures_lem ms (fail m c).0 s1 net in
      (s2, rw (r, rs, t, (backoff_lem clock_second addr c.reconnection_trial).0) refl, omega arith)

  subscribes :
      (m m' : Text) (c : Client)
      → c.state ≡ init
      → have_connectivity n ≡ true
      → n.queue_room ≡ true
      → let c' =
          (state_machine clock_second addr n m'
            (client_event connected_event (state_machine clock_second addr n m c).0)).0 in
        (c'.state ≡ subscribed) × (c'.reconnection_trial ≡ 0)
  unfolding state_machine client_event
  subscribes m m' c s net room = ground arith

  -- However many connections fail one after the other, from `STATE_INIT` with an address and a route:
  -- the waits that the client returns go on from the trials so far, each twice the one before until
  -- the trial six, and are 64 seconds from there on. A connection and a subscription that the engine
  -- takes then leave it subscribed, with no trial counted.
  pub failures_wait :
      (ms : List Text) (m m' : Text) (c : Client)
      → c.state ≡ init
      → have_connectivity n ≡ true
      → n.queue_room ≡ true
      → let (c1, rs) = failures ms c in
        let c2 =
          (state_machine clock_second addr n m'
            (client_event connected_event (state_machine clock_second addr n m c1).0)).0 in
        (rs ≡ waits clock_second c.reconnection_trial (length ms))
        × (c1.reconnection_trial ≡ c.reconnection_trial + length ms)
        × (c2.state ≡ subscribed)
        × (c2.reconnection_trial ≡ 0)
  failures_wait ms m m' c s net room =
      let (s', rs, t) = failures_lem ms c s net in
      let (s2, t2) = subscribes m m' (failures ms c).0 s' net room in (rs, t, s2, t2)
