-- ===== src/Mqtt/States.antt =====
-- The states of the MQTT client (Motes/lib/mqtt-client/mqtt-client.c): where a call of
-- `state_machine` leads and what it returns, and the way from the start to the first message.
use Prim.Native.Nat.{min}
use native.Mathlib.Decide.{dec_lt}
use dam_monitoring.Prelude.{
  ℕ, zero, suc, ◌+◌, ◌*◌, ◌/◌, ◌^◌, ◌≤◌, ◌<◌, ◌≡◌, ◌≢◌, refl, true, false, ◌∷◌, if◌then◌else◌, ltb,
  lt→ltb, take, arith,
}
use dam_monitoring.Prelude.Int.{ℤ, pos, negsuc}
use dam_monitoring.Clib.Text.{Text}
use dam_monitoring.Common.Urn.{LinkAddr}
use dam_monitoring.Mqtt.{
  ConnState, boot, init, net_ok, connecting, connected, subscribed, disconnected, connect,
  subscribe, publish, disconnect, connected_event, disconnected_event, Client, Net,
  have_connectivity, app_buffer_size, client_event, backoff, state_machine, broker_ip,
  default_broker_port,
}

-- The state that a call of `state_machine` leads to, by the state it starts in.
unfoldable pub next_state : ConnState → Net → ConnState
next_state boot n = if have_connectivity n then connecting else init
next_state init n = if have_connectivity n then connecting else init
next_state net_ok n = connecting
next_state connecting n = connecting
next_state connected n = if n.queue_room then subscribed else connected
next_state subscribed n = subscribed
next_state disconnected n = init

next_state-ne-net_ok : (s : ConnState) (n : Net) → next_state s n ≢ net_ok
unfolding next_state
next_state-ne-net_ok boot n = ground arith
next_state-ne-net_ok _ n = ground arith

pow-le : (trial : ℕ) → trial < 6 → 2 ^ trial ≤ 64
pow-le zero h = omega arith
pow-le (suc zero) h = omega arith
pow-le (suc (suc zero)) h = omega arith
pow-le (suc (suc (suc zero))) h = omega arith
pow-le (suc (suc (suc (suc zero)))) h = omega arith
pow-le (suc (suc (suc (suc (suc zero))))) h = omega arith
pow-le (suc (suc (suc (suc (suc (suc t)))))) h = absurd (omega arith)

module _ (clock_second : ℕ) (addr : LinkAddr) where
  -- What it returns.
  pub next_period : ConnState → Net → Client → ℤ
  next_period connected n c = if n.queue_room then pos c.publish_time_period else negsuc 0
  next_period subscribed n c = pos c.publish_time_period
  next_period disconnected n c = pos (backoff clock_second addr c.reconnection_trial)
  next_period _ n c = pos c.time_period

  state_machine_at :
      (s : ConnState) (n : Net) (message : Text) (c : Client)
      → c.state ≡ s
      → let (c', r) = state_machine clock_second addr n message c in
        (c'.state ≡ next_state s n) × (r ≡ next_period s n c)
  unfolding state_machine next_state next_period
  state_machine_at boot n message c e = ground arith
  state_machine_at _ n message c e = ground arith

  -- One call of `state_machine`, in every state: the table `next_state` gives the state after it, and
  -- `next_period` what it returns; after it the client is never in `STATE_NET_OK`.
  pub state_machine_table :
      (n : Net) (message : Text) (c : Client)
      → let (c', r) = state_machine clock_second addr n message c in
        (c'.state ≡ next_state c.state n) × (r ≡ next_period c.state n c) × (c'.state ≢ net_ok)
  state_machine_table n message c =
      let (goes, gives) = state_machine_at c.state n message c refl in
      (goes, gives, rw goes (next_state-ne-net_ok c.state n))

  -- The delay before a reconnection doubles with each trial since the last subscription, for six
  -- trials, and never passes 64 seconds.
  pub backoff_lem :
      (trial : ℕ)
      → (backoff clock_second addr trial ≡ clock_second * 2 ^ min trial 6)
        × (backoff clock_second addr trial ≤ clock_second * 64)
  unfolding backoff
  backoff_lem trial = elim (dec_lt trial 6) [
    | yes p ↦
        let m : min trial 6 ≡ trial = omega arith in
        rw (lt→ltb trial 6 p, m) (ground arith, grind (arith, pow-le trial p))
    | no p ↦
        let m : min trial 6 ≡ 6 = omega arith in
        let t : ltb trial 6 ≡ false = ground arith in rw (t, m) (ground arith, omega arith)
  ]

  -- From `STATE_INIT`, with an address, a route and room in the queue: a call, the engine's event of a
  -- connection and two more calls connect to the broker, subscribe, and publish the message of the
  -- last call, which returns the publication period; the red led is off and the green one on.
  session_publishes :
      (n : Net) (m1 m2 m3 : Text) (c : Client)
      → c.state ≡ init
      → have_connectivity n ≡ true
      → n.queue_room ≡ true
      → let c1 = (state_machine clock_second addr n m1 c).0 in
        let c2 = client_event connected_event c1 in
        let c3 = (state_machine clock_second addr n m2 c2).0 in
        let (c4, period) = state_machine clock_second addr n m3 c3 in
        (c4.state ≡ subscribed)
        × (period ≡ pos c.publish_time_period)
        × (c4.calls
            ≡ publish c.pub_topic (take app_buffer_size m3)
              ∷ subscribe c.sub_topic true
              ∷ connect broker_ip default_broker_port (c.publish_time_period * 3 / clock_second)
              ∷ c.calls)
        × (c4.red_led ≡ false)
        × (c4.green_led ≡ true)
        × (c4.reconnection_trial ≡ 0)
  unfolding state_machine client_event
  session_publishes n m1 m2 m3 c s h q = ground arith

  -- After the loss of a connection the client tells the engine to disconnect, waits the delay of the
  -- trials so far, and starts again from `STATE_INIT`; the red led's timer runs.
  disconnection_retries :
      (n : Net) (m : Text) (c : Client)
      → let (c', period) =
          state_machine clock_second addr n m (client_event disconnected_event c) in
        (c'.state ≡ init)
        × (period ≡ pos (backoff clock_second addr c.reconnection_trial))
        × (c'.reconnection_trial ≡ c.reconnection_trial + 1)
        × (c'.led_timer ≡ true)
        × (c'.calls ≡ disconnect ∷ c.calls)
  unfolding state_machine client_event
  disconnection_retries n m c = ground arith
