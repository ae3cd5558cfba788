-- ===== src/Process/Going.antt =====
-- That a main process (Motes/firmwares, Motes/demo) goes on and keeps its topic, whatever its client
-- (Motes/lib/mqtt-client/mqtt-client.c) goes through.
use dam_monitoring.Prelude.{ℕ, ◌≡◌, refl, ap, ◌∙◌, true, arith}
use dam_monitoring.Prelude.Int.{ℤ, pos, ◌≤ℤ◌}
use dam_monitoring.Clib.Text.{Text}
use dam_monitoring.Common.Urn.{LinkAddr}
use dam_monitoring.Mqtt.{
  ConnState, boot, Client, Net, MqttEvent, connected_event, disconnected_event, state_machine,
  client_event,
}
use dam_monitoring.Process.{Schedule, poll_client}
use dam_monitoring.Process.Publishes.{poll_running}

-- A process that goes on and publishes under a topic.
pub record IsGoing (topic : Text) (s : Schedule) : Type 0 where
  pub running : s.running ≡ true
  pub topic_kept : s.client.pub_topic ≡ topic

state_machine-pub_topic :
    (clock_second : ℕ) (addr : LinkAddr) (k : ConnState) (n : Net) (m : Text) (c : Client)
    → c.state ≡ k
    → (state_machine clock_second addr n m c).0.pub_topic ≡ c.pub_topic
unfolding state_machine
state_machine-pub_topic clock_second addr boot n m c e = ground arith
state_machine-pub_topic clock_second addr _ n m c e = ground arith

pub client_event-IsGoing :
    (topic : Text) (e : MqttEvent) (s : Schedule)
    → IsGoing topic s
    → IsGoing topic (record s { client = client_event e s.client })
unfolding client_event
client_event-IsGoing topic connected_event s v = record {
  running = v.running;
  topic_kept = v.topic_kept;
}
client_event-IsGoing topic disconnected_event s v = record {
  running = v.running;
  topic_kept = v.topic_kept;
}
client_event-IsGoing topic _ s v = v

module _ (clock_second : ℕ) (addr : LinkAddr) (to_clock_time : ℤ → ℤ) where
  pub poll_client-client :
      (n : Net) (m : Text) (s : Schedule)
      → (poll_client clock_second addr to_clock_time n m s).client
        ≡ (state_machine clock_second addr n m s.client).0
  unfolding poll_client
  poll_client-client n m s = ground arith

  pub poll_client-IsGoing :
      ((r : ℤ) → pos 0 ≤ℤ to_clock_time r)
      → (topic : Text) (n : Net) (m : Text) (s : Schedule) → IsGoing topic s
      → IsGoing topic (poll_client clock_second addr to_clock_time n m s)
  poll_client-IsGoing nonneg topic n m s v = record {
    running = poll_running clock_second addr to_clock_time nonneg n m s ∙ v.running;
    topic_kept =
        ap (λ c. c.pub_topic) (poll_client-client n m s)
        ∙ state_machine-pub_topic clock_second addr s.client.state n m s.client refl
        ∙ v.topic_kept;
  }
