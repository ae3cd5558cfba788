-- ===== src/Mqtt.antt =====
-- Motes/lib/mqtt-client/mqtt-client.c: the MQTT client of the sensors. Contiki's MQTT engine, its
-- timers and its leds are seen through the calls that the client makes of them.
pub mod States
pub mod Session
pub mod Recovery
pub mod Backoff
pub mod ClientId
pub mod Engine
pub mod Live
use dam_monitoring.Prelude.{
  ℕ, ◌+◌, ◌*◌, ◌/◌, ◌^◌, Bool, true, false, not, ◌&&◌, List, [], ◌∷◌, ltb, if◌then◌else◌, take,
}
use dam_monitoring.Prelude.Int.{ℤ, pos, negsuc}
use dam_monitoring.Clib.Text.{Text, codes, snprintf}
use dam_monitoring.Common.Urn.{LinkAddr, hex_bytes}
use dam_monitoring.SensorSim.{Channel}

-- `STATE_BOOT` to `STATE_DISCONNECTED`.
pub data ConnState : Type 0 where
  boot init net_ok connecting connected subscribed disconnected : ConnState

-- The calls of the MQTT engine. `subscribe` carries whether the engine took the command.
pub data Call : Type 0 where
  register : Text → Call
  connect : Text → ℕ → ℕ → Call
  subscribe : Text → Bool → Call
  publish : Text → Text → Call
  disconnect : Call

-- `mqtt_event_t`. A message comes with its topic, its payload, and for each channel what an
-- uninitialised buffer holds while the payload is searched for that channel's field.
pub data MqttEvent : Type 0 where
  connected_event disconnected_event suback unsuback puback unhandled : MqttEvent
  publish_event : (Channel → Text) → Text → Text → MqttEvent

-- The variables of mqtt-client.c, with the leds and timers that it sets. `led_timer` and
-- `publish_led_timer` say whether the timer runs; `calls` is what was called, the latest first.
pub record Client : Type 0 where
  pub state : ConnState
  pub reconnection_trial : ℕ
  pub time_period : ℕ
  pub publish_time_period : ℕ
  pub pub_topic : Text
  pub sub_topic : Text
  pub led_timer : Bool
  pub publish_led_timer : Bool
  pub red_led : Bool
  pub green_led : Bool
  pub calls : List Call

-- What a call of `state_machine` finds: a preferred global address, a default route, and room in
-- the engine's command queue (`mqtt_subscribe` does not return `MQTT_STATUS_OUT_QUEUE_FULL`).
pub record Net : Type 0 where
  pub global_address : Bool
  pub default_route : Bool
  pub queue_room : Bool

abbrev pub broker_ip : Text
broker_ip = codes "fd00::1"

abbrev pub default_broker_port : ℕ
default_broker_port = 1883

abbrev pub default_time_period : ℕ → ℕ
default_time_period clock_second = clock_second * 1

abbrev pub reconnect_interval : ℕ → ℕ
reconnect_interval clock_second = clock_second * 1

abbrev pub max_backoff_exp : ℕ
max_backoff_exp = 6

abbrev pub client_id_buffer_size : ℕ
client_id_buffer_size = 64

abbrev pub app_buffer_size : ℕ
app_buffer_size = 512

-- The build for a node that is no border router.
unfoldable pub have_connectivity : Net → Bool
have_connectivity n = n.global_address && n.default_route

-- The client identifier: six of the eight bytes of the address.
unfoldable pub client_id : LinkAddr → Text
unfolding snprintf
client_id a =
    snprintf client_id_buffer_size (hex_bytes (a.u0 ∷ a.u1 ∷ a.u2 ∷ a.u5 ∷ a.u6 ∷ a.u7 ∷ []) [])

-- The handlers of `mqtt_event` that change the client's state; the others only log.
unfoldable pub client_event : MqttEvent → Client → Client
client_event connected_event c = record c { state = connected }
client_event disconnected_event c = record c { state = disconnected }
client_event _ c = c

unfoldable pub toggle_led : Client → Client
toggle_led c = record c { red_led = not c.red_led; led_timer = true }

unfoldable pub led_off : Client → Client
led_off c = record c { green_led = false }

unfoldable pub init_mqtt : ℕ → Text → Text → Client → Client
init_mqtt publish_period pub_topic sub_topic c = record c {
  pub_topic = pub_topic;
  sub_topic = sub_topic;
  publish_time_period = publish_period;
}

-- `clock_second` is the platform's `CLOCK_SECOND`, `addr` its `linkaddr_node_addr`.
module _ (clock_second : ℕ) (addr : LinkAddr) where
  -- The static variables before the first call.
  unfoldable pub initial : Client
  initial = record {
    state = boot;
    reconnection_trial = 0;
    time_period = default_time_period clock_second;
    publish_time_period = 0;
    pub_topic = [];
    sub_topic = [];
    led_timer = false;
    publish_led_timer = false;
    red_led = false;
    green_led = false;
    calls = [];
  }

  -- The delay before a reconnection.
  unfoldable pub backoff : ℕ → ℕ
  backoff trial =
      if ltb trial max_backoff_exp
      then reconnect_interval clock_second * 2 ^ trial
      else reconnect_interval clock_second * 2 ^ max_backoff_exp

  -- The `if` statements of `state_machine`, in order.
  boot_phase : ConnState → Client → Client
  boot_phase boot c = record c {
    state = init;
    led_timer = true;
    calls = register (client_id addr) ∷ c.calls;
  }
  boot_phase _ c = c

  init_phase : ConnState → Net → Client → Client
  init_phase init n c = record c { state = if have_connectivity n then net_ok else init }
  init_phase _ n c = c

  net_ok_phase : ConnState → Client → Client
  net_ok_phase net_ok c = record c {
    state = connecting;
    calls =
        connect broker_ip default_broker_port (c.publish_time_period * 3 / clock_second) ∷ c.calls;
  }
  net_ok_phase _ c = c

  -- The last three, which return. `message` is what `build_message()` gives.
  last_phase : ConnState → Net → Text → Client → Client × ℤ
  unfolding backoff
  last_phase connected n message c =
      if n.queue_room
      then (
        record c {
          reconnection_trial = 0;
          led_timer = false;
          red_led = false;
          state = subscribed;
          calls = subscribe c.sub_topic true ∷ c.calls;
        },
        pos c.publish_time_period,
      )
      else (record c { calls = subscribe c.sub_topic false ∷ c.calls }, negsuc 0)
  last_phase subscribed n message c = (
    record c {
      green_led = true;
      calls = publish c.pub_topic (take app_buffer_size message) ∷ c.calls;
      time_period = c.publish_time_period;
      publish_led_timer = true;
    },
    pos c.publish_time_period,
  )
  last_phase disconnected n message c = (
    record c {
      led_timer = true;
      calls = disconnect ∷ c.calls;
      state = init;
      time_period = backoff c.reconnection_trial;
      reconnection_trial = c.reconnection_trial + 1;
    },
    pos (backoff c.reconnection_trial),
  )
  last_phase _ n message c = (c, pos c.time_period)

  -- `state_machine()`: the new state, and the ticks to the next call, or -1.
  unfoldable pub state_machine : Net → Text → Client → Client × ℤ
  unfolding boot_phase init_phase net_ok_phase last_phase have_connectivity
  state_machine n message c =
      let c1 = boot_phase c.state c in
      let c2 = init_phase c1.state n c1 in
      let c3 = net_ok_phase c2.state c2 in last_phase c3.state n message c3
