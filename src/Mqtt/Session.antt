-- ===== src/Mqtt/Session.antt =====
-- The MQTT client (Motes/lib/mqtt-client/mqtt-client.c) over every history of calls, of the engine's
-- events and of timers, with its red led.
use dam_monitoring.Prelude.{ℕ, ◌≡◌, refl, false, List, [], ◌∷◌, if◌then◌else◌, arith}
use dam_monitoring.Clib.Text.{Text}
use dam_monitoring.Common.Urn.{LinkAddr}
use dam_monitoring.Mqtt.{
  ConnState, boot, subscribed, MqttEvent, connected_event, Client, Net, client_event, initial,
  state_machine, toggle_led, led_off, init_mqtt,
}

-- What happens to the client: a call of `state_machine`, an event of the engine, and the expiry of
-- a timer that runs.
pub data Input : Type 0 where
  tick : Net → Text → Input
  event : MqttEvent → Input
  led_timer_fires publish_led_timer_fires : Input

-- The red led stands for a lost connection.
pub record Inv (c : Client) : Type 0 where
  pub quiet : c.state ≡ subscribed → c.led_timer ≡ false
  pub dark : c.state ≡ subscribed → c.red_led ≡ false

module _ (clock_second : ℕ) (addr : LinkAddr) where
  unfoldable pub step : Input → Client → Client
  step (tick n message) c = (state_machine clock_second addr n message c).0
  step (event e) c = client_event e c
  step led_timer_fires c = if c.led_timer then toggle_led c else c
  step publish_led_timer_fires c =
      if c.publish_led_timer then led_off (record c { publish_led_timer = false }) else c

  unfoldable pub run : List Input → Client → Client
  run [] c = c
  run (i ∷ is) c = run is (step i c)

  tick_keeps :
      (s : ConnState) (n : Net) (m : Text) (c : Client)
      → c.state ≡ s
      → Inv c
      → Inv (state_machine clock_second addr n m c).0
  unfolding state_machine
  tick_keeps boot n m c e v = ground arith
  tick_keeps _ n m c e v = ground arith

  event_keeps : (e : MqttEvent) (c : Client) → Inv c → Inv (client_event e c)
  unfolding client_event
  event_keeps connected_event c v = ground arith
  event_keeps _ c v = ground arith

  step-Inv : (i : Input) (c : Client) → Inv c → Inv (step i c)
  unfolding step toggle_led led_off
  step-Inv (tick n m) c v = tick_keeps c.state n m c refl v
  step-Inv (event e) c v = event_keeps e c v
  step-Inv led_timer_fires c v = ground arith
  step-Inv publish_led_timer_fires c v = ground arith

  run-Inv : (is : List Input) (c : Client) → Inv c → Inv (run is c)
  unfolding run
  run-Inv [] c v = v
  run-Inv (i ∷ is) c v = run-Inv is (step i c) (step-Inv i c v)

  -- Over every history from the start, while the client is subscribed its red led is off and does not
  -- blink.
  pub run-initial-Inv :
      (period : ℕ) (pub_topic sub_topic : Text) (is : List Input)
      → Inv (run is (init_mqtt period pub_topic sub_topic (initial clock_second addr)))
  unfolding init_mqtt initial
  run-initial-Inv period pub_topic sub_topic is = run-Inv is _ (ground arith)
