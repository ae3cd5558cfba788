-- ===== src/WaterLevel/Publishes.antt =====
-- From the start of Motes/firmwares/water-level-sensor/water-level-sensor.c to its first record.
use dam_monitoring.History
use dam_monitoring.Prelude.{ℕ, ◌*◌, ◌≡◌, refl, ◌∙◌, List, [], ◌∷◌, some, arith, take, take-eq_of_le}
use dam_monitoring.Prelude.Int.{ℤ, pos, ◌≤ℤ◌, ◌-ℤ◌, ◌+ℤ◌}
use dam_monitoring.Clib.Arith.{rem_int}
use dam_monitoring.Clib.Text.{codes}
use dam_monitoring.Common.Json.{JsonParser}
use dam_monitoring.Common.Urn.{LinkAddr}
use dam_monitoring.Mqtt.{connected_event, app_buffer_size, init_mqtt, initial}
use dam_monitoring.Process.{periodic_timer_event}
use dam_monitoring.Process.Publishes.{online, HasPublished, IsStart}
use dam_monitoring.Process.Sensor.{Sensor, first_record}
use dam_monitoring.WaterLevel.{
  Sim, WaterDevice, init_sim, simulate_read_water_level, build_message, start, mqtt_event,
  process_event, pub_period_s,
}
use dam_monitoring.WaterLevel.Messages.{level_text, build_message_level}
use dam_monitoring.WaterLevel.Device.{Input, scheduler, engine, simulation, step}

-- The record as the engine gets it.
pub whole_record :
    (addr : LinkAddr) (s : Sim)
    → take app_buffer_size (build_message addr s) ≡ level_text addr s.water_level
whole_record addr s =
    let (whole, fits) = build_message_level addr s in
    take-eq_of_le app_buffer_size (build_message addr s) (omega (arith, fits)) ∙ whole

-- The timer, a connection, the timer, a reading and the timer.
abbrev pub first_history : (ℕ × ℕ) → List Input
first_history r =
    scheduler online periodic_timer_event
    ∷ engine connected_event
    ∷ scheduler online periodic_timer_event
    ∷ simulation r.0 r.1
    ∷ scheduler online periodic_timer_event
    ∷ []

module _ (p : JsonParser) (addr : LinkAddr) (clock_second : ℕ) (to_clock_time : ℤ → ℤ) where
  -- The process as a sensor.
  unfoldable pub sensor : Sensor clock_second addr to_clock_time WaterDevice Sim Input (ℕ × ℕ)
  unfolding step mqtt_event process_event
  sensor = record {
    step = step p addr clock_second to_clock_time;
    schedule = λ d. d.schedule;
    sim = λ d. d.sim;
    set_schedule = λ t d. record d { schedule = t };
    set_sim = λ s d. record d { sim = s };
    message = build_message addr;
    simulate = λ r. simulate_read_water_level r.0 r.1;
    timer = λ n. scheduler n periodic_timer_event;
    connection = engine connected_event;
    reading = λ r. simulation r.0 r.1;
    schedule-set_schedule = λ t d. refl;
    sim-set_schedule = λ t d. refl;
    schedule-set_sim = λ s d. refl;
    sim-set_sim = λ s d. refl;
    step-timer = λ n d on. rw on;
    step-connection = λ d. refl;
    step-reading = λ r d e. rw e;
  }

  start-IsStart :
      IsStart clock_second addr
        (pub_period_s * clock_second)
        (codes "water-level")
        (codes "simulation")
        (start p addr clock_second to_clock_time).schedule
  unfolding start init_mqtt initial
  start-IsStart = record { client = refl; running = refl }

  first_reading :
      (r : ℕ × ℕ)
      → (s : Sim) × (simulate_read_water_level r.0 r.1 (start p addr clock_second to_clock_time).sim
          ≡ some s)
  unfolding start simulate_read_water_level init_sim rem_int ◌-ℤ◌ ◌+ℤ◌
  first_reading r = (_, refl)

  -- Where `clock_time_t` is unsigned and the network is there: from the start, the periodic timer,
  -- the engine's event of a connection, the timer, a reading, whatever its random numbers, and the
  -- timer make the process register, connect, subscribe to `simulation` and publish under `water-
  -- level` the whole record of that level; the timer is then set to the publication period, and the
  -- process goes on.
  level_publishes :
      (nonneg : (r : ℤ) → pos 0 ≤ℤ to_clock_time r) (r : (ℕ × ℕ))
      → (s : Sim) × (d : WaterDevice) × (simulate_read_water_level r.0 r.1
            (start p addr clock_second to_clock_time).sim
          ≡ some s)
        × (History.run
              (step p addr clock_second to_clock_time)
              (first_history r)
              (start p addr clock_second to_clock_time)
            ≡ some d)
        × (d.sim ≡ s)
        × HasPublished clock_second addr to_clock_time
            (pub_period_s * clock_second)
            (codes "water-level")
            (codes "simulation")
            (level_text addr s.water_level)
            d.schedule
  unfolding sensor start
  level_publishes nonneg r =
      let (s, read) = first_reading r in
      let (d, runs, at, published) =
        first_record nonneg sensor r (start p addr clock_second to_clock_time)
          (pub_period_s * clock_second) (codes "water-level") (codes "simulation") start-IsStart
          read (whole_record addr s) in
      (s, d, read, runs, at, published)
