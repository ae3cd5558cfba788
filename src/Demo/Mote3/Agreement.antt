-- ===== src/Demo/Mote3/Agreement.antt =====
-- Motes/demo/mote-3/mote-3.c against Motes/firmwares/water-level-sensor/water-level-sensor.c: every
-- history of one is a history of the other, with the mote's led for the firmware's.
use dam_monitoring.Prelude.{ℕ, ◌≡◌, refl, List, Option, some, ◌>>=◌, arith, if◌then◌else◌}
use dam_monitoring.Prelude.Int.{ℤ}
use dam_monitoring.History
use dam_monitoring.Common.Json.{JsonParser}
use dam_monitoring.Common.Urn.{LinkAddr}
use dam_monitoring.Mqtt.{Net, MqttEvent, publish_event}
use dam_monitoring.Process.{
  ProcessEvent, periodic_timer_event, led_timer_event, poll, button_release, other_event,
  button_periodic,
}
use dam_monitoring.WaterLevel
use dam_monitoring.WaterLevel.{WaterDevice}
use dam_monitoring.WaterLevel.Device
use dam_monitoring.WaterLevel.Device.{Input, scheduler, engine, simulation}
use dam_monitoring.Demo.Mote3.{
  Device, simulate_read_water_level, set_reservoir, start, mqtt_event, process_event,
}

-- The mote as the firmware's device.
abbrev pub as_firmware : Device → WaterDevice
as_firmware d = record {
  schedule = d.schedule;
  sim = d.sim;
  btn_release = d.btn_release;
  yellow_led = d.led_2;
  led_timer = d.led_timer;
}

module _ (p : JsonParser) (addr : LinkAddr) (clock_second : ℕ) (to_clock_time : ℤ → ℤ) where
  unfoldable pub step : Input → Device → Option Device
  step (scheduler n e) d =
      some (if d.schedule.running then process_event p addr clock_second to_clock_time n e d else d)
  step (engine e) d = some (mqtt_event p addr clock_second to_clock_time e d)
  step (simulation r r') d =
      simulate_read_water_level r r' d.sim >>= λ s. some (record d { sim = s })

  mqtt_event_agrees :
      (e : MqttEvent) (d : Device)
      → as_firmware (mqtt_event p addr clock_second to_clock_time e d)
        ≡ WaterLevel.mqtt_event p addr clock_second to_clock_time e (as_firmware d)
  unfolding mqtt_event WaterLevel.mqtt_event
  mqtt_event_agrees (publish_event g t chunk) d = refl
  mqtt_event_agrees _ d = refl

  process_event_agrees :
      (n : Net) (e : ProcessEvent) (d : Device)
      → as_firmware (process_event p addr clock_second to_clock_time n e d)
        ≡ WaterLevel.process_event p addr clock_second to_clock_time n e (as_firmware d)
  unfolding process_event WaterLevel.process_event set_reservoir WaterLevel.set_reservoir
  process_event_agrees n periodic_timer_event d = refl
  process_event_agrees n poll d = refl
  process_event_agrees n button_release d = ground arith
  process_event_agrees n (button_periodic t) d = ground arith
  process_event_agrees n led_timer_event d = refl
  process_event_agrees n other_event d = refl

  step_agrees :
      (i : Input) (d : Device)
      → (step i d >>= λ x. some (as_firmware x))
        ≡ Device.step p addr clock_second to_clock_time i (as_firmware d)
  unfolding step Device.step
  step_agrees (scheduler n e) d = ground (arith, process_event_agrees n e d)
  step_agrees (engine e) d = ground (arith, mqtt_event_agrees e d)
  step_agrees (simulation r r') d = ground arith

  pub run_agrees :
      (is : List Input) (d : Device)
      → (History.run step is d >>= λ x. some (as_firmware x))
        ≡ Device.run p addr clock_second to_clock_time is (as_firmware d)
  run_agrees =
      History.run_agrees as_firmware step (Device.step p addr clock_second to_clock_time)
        step_agrees

  -- From the start, every history of the mote is the firmware's: it is undefined exactly where the
  -- firmware's is, and else ends in the same state of the client, the timers, the simulation and the
  -- button, with the mote's led as the firmware's.
  pub mote_3-agrees :
      (is : List Input)
      → (History.run step is (start p addr clock_second to_clock_time) >>= λ x.
          some (as_firmware x))
        ≡ Device.run p addr clock_second to_clock_time is
            (WaterLevel.start p addr clock_second to_clock_time)
  unfolding start WaterLevel.start
  mote_3-agrees is = run_agrees is (start p addr clock_second to_clock_time)
