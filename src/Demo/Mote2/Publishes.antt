-- ===== src/Demo/Mote2/Publishes.antt =====
-- From the start of Motes/demo/mote-2/mote-2.c to its first record.
use dam_monitoring.History
use dam_monitoring.Prelude.{ℕ, ◌*◌, ◌≡◌, refl, ◌∙◌, List, [], ◌∷◌, some, arith, take, take-eq_of_le}
use dam_monitoring.Prelude.Int.{ℤ, pos, ◌≤ℤ◌, ◌-ℤ◌, ◌+ℤ◌}
use dam_monitoring.FlowSensor.{simulate_flow}
use dam_monitoring.Clib.Text.{codes}
use dam_monitoring.Common.Json.{JsonParser}
use dam_monitoring.Common.Urn.{LinkAddr}
use dam_monitoring.SensorSim.{Channel, steady_var}
use dam_monitoring.Mqtt.{connected_event, app_buffer_size, init_mqtt, initial}
use dam_monitoring.Process.{periodic_timer_event}
use dam_monitoring.Process.Publishes.{online, HasPublished, IsStart}
use dam_monitoring.Process.Sensor.{Sensor, first_record}
use dam_monitoring.FlowSensor.{Sim}
use dam_monitoring.Demo.Mote2.{
  Device, init_sim, simulate_channel, simulate_read_flow, build_message, start, mqtt_event,
  process_event, pub_period_s,
}
use dam_monitoring.Demo.Mote2.Messages.{record_text, build_message_flows}
use dam_monitoring.Demo.Mote2.Runs.{Input, scheduler, engine, simulation, step}

-- The record as the engine gets it.
pub whole_record :
    (addr : LinkAddr) (s : Sim)
    → take app_buffer_size (build_message addr s) ≡ record_text addr s.flow
whole_record addr s =
    let (whole, fits) = build_message_flows addr s in
    take-eq_of_le app_buffer_size (build_message addr s) (omega (arith, fits)) ∙ whole

-- The timer, a connection, the timer, a reading and the timer.
abbrev pub first_history : (Channel → ℕ) → List Input
first_history r =
    scheduler online periodic_timer_event
    ∷ engine connected_event
    ∷ scheduler online periodic_timer_event
    ∷ simulation r
    ∷ scheduler online periodic_timer_event
    ∷ []

module _ (p : JsonParser) (addr : LinkAddr) (clock_second : ℕ) (to_clock_time : ℤ → ℤ) where
  -- The process as a sensor.
  unfoldable pub sensor : Sensor clock_second addr to_clock_time Device Sim Input (Channel → ℕ)
  unfolding step mqtt_event process_event
  sensor = record {
    step = step p addr clock_second to_clock_time;
    schedule = λ d. d.schedule;
    sim = λ d. d.sim;
    set_schedule = λ t d. record d { schedule = t };
    set_sim = λ s d. record d { sim = s };
    message = build_message addr;
    simulate = simulate_read_flow;
    timer = λ n. scheduler n periodic_timer_event;
    connection = engine connected_event;
    reading = simulation;
    schedule-set_schedule = λ t d. refl;
    sim-set_schedule = λ t d. refl;
    schedule-set_sim = λ s d. refl;
    sim-set_sim = λ s d. refl;
    step-timer = λ n d on. rw on;
    step-connection = λ d. refl;
    step-reading = λ r d e. rw e;
  }

  start-IsStart :
      IsStart clock_second addr
        (pub_period_s * clock_second)
        (codes "flow-rate")
        (codes "simulation")
        (start p addr clock_second to_clock_time).schedule
  unfolding start init_mqtt initial
  start-IsStart = record { client = refl; running = refl }

  first_reading :
      (r : Channel → ℕ)
      → (s : Sim) × (simulate_read_flow r (start p addr clock_second to_clock_time).sim ≡ some s)
  unfolding start simulate_read_flow simulate_channel simulate_flow init_sim steady_var ◌-ℤ◌ ◌+ℤ◌
  first_reading r = (_, refl)

  -- Where `clock_time_t` is unsigned and the network is there: from the start, the periodic timer,
  -- the engine's event of a connection, the timer, a reading, whatever its random numbers, and the
  -- timer make the mote register, connect, subscribe to `simulation` and publish under `flow-rate`
  -- the whole record of the three flows; the timer is then set to the publication period, and the
  -- process goes on.
  mote_2_publishes :
      (nonneg : (r : ℤ) → pos 0 ≤ℤ to_clock_time r) (r : (Channel → ℕ))
      → (s : Sim) × (d : Device) × (simulate_read_flow r
            (start p addr clock_second to_clock_time).sim
          ≡ some s)
        × (History.run
              (step p addr clock_second to_clock_time)
              (first_history r)
              (start p addr clock_second to_clock_time)
            ≡ some d)
        × (d.sim ≡ s)
        × HasPublished clock_second addr to_clock_time
            (pub_period_s * clock_second)
            (codes "flow-rate")
            (codes "simulation")
            (record_text addr s.flow)
            d.schedule
  unfolding sensor start
  mote_2_publishes nonneg r =
      let (s, read) = first_reading r in
      let (d, runs, at, published) =
        first_record nonneg sensor r (start p addr clock_second to_clock_time)
          (pub_period_s * clock_second) (codes "flow-rate") (codes "simulation") start-IsStart read
          (whole_record addr s) in
      (s, d, read, runs, at, published)
