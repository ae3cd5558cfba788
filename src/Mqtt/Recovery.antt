-- ===== src/Mqtt/Recovery.antt =====
-- The way of the MQTT client (Motes/lib/mqtt-client/mqtt-client.c) to its next message, from any state
-- that it may be left in.
use dam_monitoring.Prelude.{ℕ, ◌≤◌, ◌*◌, ◌/◌, ◌≡◌, refl, true, List, [], ◌∷◌, arith, take, length}
use dam_monitoring.Clib.Text.{Text}
use dam_monitoring.Common.Urn.{LinkAddr}
use dam_monitoring.Mqtt.{
  ConnState, boot, connecting, connected, subscribed, disconnected, Call, publish, connected_event,
  Client, Net, connect, register, subscribe, disconnect, broker_ip, default_broker_port, client_id,
  have_connectivity, app_buffer_size, client_event, state_machine,
}
use dam_monitoring.Mqtt.Session.{Input, tick, event, step, run}

-- A call of `state_machine`, or the engine's event of a connection.
pub data Move : Type 0 where
  timed linked : Move

-- The calls that a state still needs, with the event where the client waits for it.
abbrev pub moves : ConnState → List Move
moves subscribed = timed ∷ []
moves connected = timed ∷ timed ∷ []
moves disconnected = timed ∷ timed ∷ linked ∷ timed ∷ timed ∷ []
moves _ = timed ∷ linked ∷ timed ∷ timed ∷ []

abbrev pub input : Net → Text → Move → Input
input n m timed = tick n m
input n m linked = event connected_event

abbrev pub inputs : Net → Text → List Move → List Input
inputs n m [] = []
inputs n m (k ∷ ks) = input n m k ∷ inputs n m ks

abbrev pub way : Net → Text → ConnState → List Input
way n m s = inputs n m (moves s)

length-way : (n : Net) (m : Text) (s : ConnState) → length (way n m s) ≤ 5
length-way n m subscribed = omega arith
length-way n m connected = omega arith
length-way n m disconnected = omega arith
length-way n m _ = omega arith

module _ (clock_second : ℕ) (addr : LinkAddr) where
  -- The call of a connection.
  abbrev connect_call : Client → Call
  connect_call c = connect broker_ip default_broker_port (c.publish_time_period * 3 / clock_second)

  -- The calls of the engine on the way to the message, the latest first, before those of the past.
  abbrev pub calls_before : ConnState → Client → List Call
  calls_before subscribed c = c.calls
  calls_before connected c = subscribe c.sub_topic true ∷ c.calls
  calls_before connecting c = subscribe c.sub_topic true ∷ c.calls
  calls_before disconnected c = subscribe c.sub_topic true ∷ connect_call c ∷ disconnect ∷ c.calls
  calls_before boot c =
      subscribe c.sub_topic true ∷ connect_call c ∷ register (client_id addr) ∷ c.calls
  calls_before _ c = subscribe c.sub_topic true ∷ connect_call c ∷ c.calls

  way_publishes_at :
      (n : Net) (m : Text) (s : ConnState) (c : Client)
      → c.state ≡ s
      → have_connectivity n ≡ true
      → n.queue_room ≡ true
      → let c' = run clock_second addr (way n m s) c in
        (c'.state ≡ subscribed)
        × (c'.calls ≡ publish c.pub_topic (take app_buffer_size m) ∷ calls_before s c)
        × (c'.green_led ≡ true)
        × c'.publish_led_timer ≡ true
  unfolding run step state_machine client_event
  way_publishes_at n m subscribed c e net room = ground arith
  way_publishes_at n m connected c e net room = ground arith
  way_publishes_at n m disconnected c e net room = ground arith
  way_publishes_at n m boot c e net room = ground arith
  way_publishes_at n m _ c e net room = ground arith

  -- From whatever state it is in, with an address, a route and room in the queue, the client publishes
  -- its next message after at most four calls and, if it is not connected, the engine's event of a
  -- connection. It makes the calls of the engine that its state still asks for, in order and no others,
  -- and ends subscribed, with the green led on and the timer set that turns it off.
  pub way_publishes :
      (n : Net) (m : Text) (c : Client)
      → have_connectivity n ≡ true
      → n.queue_room ≡ true
      → let c' = run clock_second addr (way n m c.state) c in
        (length (way n m c.state) ≤ 5)
        × (c'.state ≡ subscribed)
        × (c'.calls ≡ publish c.pub_topic (take app_buffer_size m) ∷ calls_before c.state c)
        × (c'.green_led ≡ true)
        × c'.publish_led_timer ≡ true
  way_publishes n m c net room =
      let (goes, calls, led, timer) = way_publishes_at n m c.state c refl net room in
      (length-way n m c.state, goes, calls, led, timer)
