-- ===== src/Process/Publishes.antt =====
-- From the start of a sensor's main process to its first record: the branch that calls
-- `state_machine` (Motes/firmwares), with the client of Motes/lib/mqtt-client/mqtt-client.c.
use dam_monitoring.Prelude.{ℕ, ◌*◌, ◌/◌, ◌≡◌, refl, true, false, [], ◌∷◌, arith, take}
use dam_monitoring.Prelude.Int.{ℤ, pos, ltb_ℤ, ◌≤ℤ◌}
use dam_monitoring.Clib.Text.{Text}
use dam_monitoring.Common.Urn.{LinkAddr}
use dam_monitoring.Mqtt.{
  Client, Net, state_machine, client_event, connected_event, subscribed, publish, subscribe,
  connect, register, broker_ip, default_broker_port, app_buffer_size, client_id, initial, init_mqtt,
}
use dam_monitoring.Process.{Schedule, poll_client, poll_client_runs}

-- An address, a route and room in the engine's queue.
abbrev pub online : Net
online = record { global_address = true; default_route = true; queue_room = true }

-- The event of a connection.
abbrev pub connects : Schedule → Schedule
connects s = record s { client = client_event connected_event s.client }

module _ (clock_second : ℕ) (addr : LinkAddr) where
  -- A schedule as the main processes start with it.
  pub record IsStart (period : ℕ) (pub_topic sub_topic : Text) (s : Schedule) : Type 0 where
    pub client : s.client ≡ init_mqtt period pub_topic sub_topic (initial clock_second addr)
    pub running : s.running ≡ true

module _ (clock_second : ℕ) (addr : LinkAddr) (to_clock_time : ℤ → ℤ) where
  -- What the first record, `text`, leaves: the calls, the timer, and a process that goes on.
  pub record HasPublished (period : ℕ) (pub_topic sub_topic text : Text) (s : Schedule)
      : Type 0 where
    pub calls :
        s.client.calls
        ≡ publish pub_topic text
          ∷ subscribe sub_topic true
          ∷ connect broker_ip default_broker_port (period * 3 / clock_second)
          ∷ register (client_id addr)
          ∷ []
    pub state : s.client.state ≡ subscribed
    pub interval : s.interval ≡ to_clock_time (pos period)
    pub running : s.running ≡ true

module _ (clock_second : ℕ) (addr : LinkAddr) (to_clock_time : ℤ → ℤ)
    (nonneg : (r : ℤ) → pos 0 ≤ℤ to_clock_time r) where
  -- A call with an unsigned `clock_time_t`.
  abbrev pub polled : Net → Text → Schedule → Schedule
  polled n m s =
      let (c, r) = state_machine clock_second addr n m s.client in
      record s { client = c; time_period = to_clock_time r; interval = to_clock_time r }

  pub poll_client_lem :
      (n : Net) (m : Text) (s : Schedule)
      → poll_client clock_second addr to_clock_time n m s ≡ polled n m s
  unfolding poll_client
  poll_client_lem n m s =
      let r = (state_machine clock_second addr n m s.client).1 in
      let t : ltb_ℤ (to_clock_time r) (pos 0) ≡ false = ground (arith, nonneg r) in rw t

  pub poll_running :
      (n : Net) (m : Text) (s : Schedule)
      → (poll_client clock_second addr to_clock_time n m s).running ≡ s.running
  poll_running n m s = (poll_client_runs clock_second addr to_clock_time nonneg n m s).0

  module _ (period : ℕ) (pub_topic sub_topic : Text) (m1 m2 m3 : Text) where
    first_client : Client
    first_client = init_mqtt period pub_topic sub_topic (initial clock_second addr)

    polled-HasPublished :
        (s : Schedule)
        → s.client ≡ first_client
        → s.running ≡ true
        → HasPublished clock_second addr to_clock_time period pub_topic sub_topic
            (take app_buffer_size m3)
            (polled online m3 (polled online m2 (connects (polled online m1 s))))
    unfolding state_machine client_event init_mqtt initial first_client
    polled-HasPublished s at on = record {
      calls = rw at refl;
      state = ground (arith, at);
      interval = rw at refl;
      running = on;
    }

    -- Three calls, with the connection after the first.
    pub polls-HasPublished :
        (s : Schedule)
        → IsStart clock_second addr period pub_topic sub_topic s
        → HasPublished clock_second addr to_clock_time period pub_topic sub_topic
            (take app_buffer_size m3)
            (poll_client clock_second addr to_clock_time online m3 (
              poll_client clock_second addr to_clock_time online m2
                (connects (poll_client clock_second addr to_clock_time online m1 s))))
    polls-HasPublished s v =
        rw (poll_client_lem online m1 s, poll_client_lem online m2 _, poll_client_lem online m3 _)
          (polled-HasPublished s (unfold first_client in v.client) v.running)
