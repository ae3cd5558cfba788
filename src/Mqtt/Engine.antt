-- ===== src/Mqtt/Engine.antt =====
-- What the client of Motes/lib/mqtt-client/mqtt-client.c and the MQTT engine say to each other, and
-- the order that an engine of one client asks for.
pub mod Spoken
pub mod Takes
use dam_monitoring.Prelude.{ℕ, ◌*◌, ◌/◌, ◌≡◌, ◌≢◌, refl, ap, true, false, List, [], ◌∷◌, ◌++◌, take}
use dam_monitoring.Clib.Text.{Text}
use dam_monitoring.Common.Urn.{LinkAddr}
use dam_monitoring.Mqtt.{
  Call, register, connect, subscribe, publish, disconnect, MqttEvent, connected_event,
  disconnected_event, Client, client_id, app_buffer_size, broker_ip, default_broker_port,
}

-- The engine as the client may know it: without a client, without a connection, connected, and with
-- the client's subscription.
pub data EngineState : Type 0 where
  absent down up live : EngineState

-- A call of the client, or an event of the engine.
pub data Label : Type 0 where
  says : Call → Label
  tells : MqttEvent → Label

-- What was set by `init_mqtt`.
pub record Settings : Type 0 where
  pub publish_topic : Text
  pub subscribe_topic : Text
  pub period : ℕ

abbrev pub settings : Client → Settings
settings c = record {
  publish_topic = c.pub_topic;
  subscribe_topic = c.sub_topic;
  period = c.publish_time_period;
}

-- What an event says of the connection.
abbrev pub after_event : MqttEvent → EngineState → EngineState
after_event connected_event s = up
after_event disconnected_event s = down
after_event _ s = s

module _ (clock_second : ℕ) (addr : LinkAddr) (g : Settings) where
  -- What an engine takes in each state: one registration before all else, a connection while there is
  -- none, a subscription on a connection, messages on a subscription, and the end of a connection that
  -- was lost. Once it has a client, it may tell it any event at any time.
  pub data Accepts : Label → EngineState → EngineState → Type 0 where
    registers : Accepts (says (register (client_id addr))) absent down
    connects :
        Accepts
          (says (connect broker_ip default_broker_port (g.period * 3 / clock_second)))
          down
          down
    refuses : Accepts (says (subscribe g.subscribe_topic false)) up up
    subscribes : Accepts (says (subscribe g.subscribe_topic true)) up live
    publishes :
        (m : Text) → Accepts (says (publish g.publish_topic (take app_buffer_size m))) live live
    disconnects : Accepts (says disconnect) down down
    reports : (m : MqttEvent) {s : EngineState} → s ≢ absent → Accepts (tells m) s (after_event m s)

  -- What was said from one state of the engine to another, the latest first.
  pub data Dialogue (first : EngineState) : List Label → EngineState → Type 0 where
    silent : Dialogue first [] first
    further :
        {a : Label} {l : List Label} {s s' : EngineState}
        → Dialogue first l s
        → Accepts a s s'
        → Dialogue first (a ∷ l) s'

  pub joined :
      {first s s' : EngineState} {l m : List Label}
      → Dialogue first l s
      → Dialogue s m s'
      → Dialogue first (m ++ l) s'
  joined d silent = d
  joined d (further e a) = further (joined d e) a

-- The calls of a dialogue.
abbrev pub calls_of : List Label → List Call
calls_of [] = []
calls_of (says c ∷ l) = c ∷ calls_of l
calls_of (tells m ∷ l) = calls_of l

pub calls_of-append : (l m : List Label) → calls_of (l ++ m) ≡ calls_of l ++ calls_of m
calls_of-append [] m = refl
calls_of-append (says c ∷ l) m = ap (λ x. c ∷ x) (calls_of-append l m)
calls_of-append (tells e ∷ l) m = calls_of-append l m
