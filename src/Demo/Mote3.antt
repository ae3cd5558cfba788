-- ===== src/Demo/Mote3.antt =====
-- Motes/demo/mote-3/mote-3.c: the water level sensor with another led. Its simulation and its message
-- handlers are the firmware's, word for word, and stand here under their own names.
pub mod Agreement
pub mod Recovery
use dam_monitoring.Prelude.{ℕ, ◌*◌, Bool, true, false, Option, ◌==◌, if◌then◌else◌}
use dam_monitoring.Prelude.Int.{ℤ, pos}
use dam_monitoring.Clib.Text.{Text, codes}
use dam_monitoring.Common.Json.{JsonParser}
use dam_monitoring.Common.Urn.{LinkAddr}
use dam_monitoring.SensorSim.{Channel, init_reservoir, max_reservoir}
use dam_monitoring.Mqtt.{MqttEvent, publish_event, Net, initial, init_mqtt, client_event}
use dam_monitoring.Process.{
  ProcessEvent, periodic_timer_event, led_timer_event, poll, button_release, other_event,
  button_periodic, Schedule, poll_client,
}
use dam_monitoring.WaterLevel
use dam_monitoring.WaterLevel.{Sim}

-- The topics of the messages that the device publishes and of those that it takes.
abbrev pub pub_topic : Text
pub_topic = codes "water-level"

abbrev pub sub_topic : Text
sub_topic = codes "simulation"

abbrev pub default_time_period : ℕ → ℕ
default_time_period clock_second = clock_second * 1

abbrev pub pub_period_s : ℕ
pub_period_s = 5

abbrev pub init_sim : Sim
init_sim = WaterLevel.init_sim

abbrev pub simulate_read_water_level : ℕ → ℕ → Sim → Option Sim
simulate_read_water_level = WaterLevel.simulate_read_water_level

abbrev pub read_water_level : Sim → ℤ
read_water_level = WaterLevel.read_water_level

abbrev pub build_message : LinkAddr → Sim → Text
build_message = WaterLevel.build_message

abbrev pub handle_message : JsonParser → (Channel → Text) → Text → Sim → Sim
handle_message = WaterLevel.handle_message

-- The process: its client and timers, the simulation, and what the button and the led need.
pub record Device : Type 0 where
  pub schedule : Schedule
  pub sim : Sim
  pub btn_release : Bool
  pub led_2 : Bool
  pub led_timer : Bool

-- The button sets the reservoir: to its initial contents, and to its greatest.
unfoldable pub set_reservoir : ℕ → Device → Device
set_reservoir n d = record d {
  sim = record d.sim { reservoir = n };
  led_2 = true;
  led_timer = true;
}

module _ (p : JsonParser) (addr : LinkAddr) (clock_second : ℕ) (to_clock_time : ℤ → ℤ) where
  -- The process up to its loop.
  unfoldable pub start : Device
  unfolding init_mqtt WaterLevel.init_sim initial
  start = record {
    schedule = record {
      client =
          init_mqtt (pub_period_s * clock_second) pub_topic sub_topic (initial clock_second addr);
      time_period = pos (default_time_period clock_second);
      interval = pos (default_time_period clock_second);
      running = true;
    };
    sim = record init_sim { simulate_timer = true };
    btn_release = true;
    led_2 = false;
    led_timer = true;
  }

  -- The engine's events; a message goes to `handle_message`.
  unfoldable pub mqtt_event : MqttEvent → Device → Device
  unfolding client_event
  mqtt_event (publish_event garbage topic chunk) d = record d {
    sim = handle_message p garbage chunk d.sim;
  }
  mqtt_event e d = record d {
    schedule = record d.schedule { client = client_event e d.schedule.client };
  }

  poll_device : Net → Device → Device
  poll_device n d = record d {
    schedule = poll_client clock_second addr to_clock_time n (build_message addr d.sim) d.schedule;
  }

  -- One round of the loop: the process wakes with an event.
  unfoldable pub process_event : Net → ProcessEvent → Device → Device
  unfolding poll_device
  process_event n periodic_timer_event d = poll_device n d
  process_event n poll d = poll_device n d
  process_event n button_release d =
      if d.btn_release then set_reservoir init_reservoir d else record d { btn_release = true }
  process_event n (button_periodic seconds) d =
      if seconds == 3 then record (set_reservoir max_reservoir d) { btn_release = false } else d
  process_event n led_timer_event d = record d { led_2 = false; led_timer = false }
  process_event n other_event d = d
