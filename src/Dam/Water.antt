-- ===== src/Dam/Water.antt =====
-- The water level sensor of Motes/firmwares/water-level-sensor/water-level-sensor.c as a listener on
-- every channel: a message sets the flow of the channel, and nothing else does.
use dam_monitoring.Prelude.{
  ℕ, ◌≡◌, refl, sym, ap, ◌∙◌, List, [], some, >>=-eq-some, eq_of_some, arith, if◌then◌else◌,
}
use dam_monitoring.Prelude.Int.{ℤ}
use dam_monitoring.Clib.Text.{Text}
use dam_monitoring.Common.Json.{JsonParser}
use dam_monitoring.Common.Urn.{LinkAddr}
use dam_monitoring.SensorSim.{Channel, get}
use dam_monitoring.SensorSim.Asked.{set_by}
use dam_monitoring.SensorSim.Heard.{settle, settle_none, settle_one, asked-IsClean}
use dam_monitoring.Mqtt.{Net, MqttEvent, publish_event}
use dam_monitoring.Process.{ProcessEvent, button_periodic}
use dam_monitoring.WaterLevel
use dam_monitoring.WaterLevel.{WaterDevice, Sim, simulate_read_water_level, set_reservoir}
use dam_monitoring.WaterLevel.Wanted.{handle_message_flow}
use dam_monitoring.WaterLevel.Device as WaterRuns
use dam_monitoring.WaterLevel.Device.{simulate_keeps}
use dam_monitoring.Dam.Listener.{Listener, heard, IsCleanEvent, if_both}

abbrev pub water_payload : WaterRuns.Input → List Text
water_payload (WaterRuns.Input.engine e) = heard e
water_payload _ = []

abbrev pub IsQuietWater : Channel → WaterRuns.Input → Type 0
IsQuietWater c (WaterRuns.Input.engine e) = IsCleanEvent c e
IsQuietWater c _ = Unit {0}

module _ (p : JsonParser) (addr : LinkAddr) (clock_second : ℕ) (to_clock_time : ℤ → ℤ)
    (c : Channel) where
  abbrev pub kept : WaterDevice → ℤ
  kept d = get d.sim.flow c

  event_keeps :
      (n : Net) (e : ProcessEvent) (d : WaterDevice)
      → (WaterLevel.process_event p addr clock_second to_clock_time n e d).sim.flow ≡ d.sim.flow
  unfolding WaterLevel.process_event set_reservoir
  event_keeps n (button_periodic t) d = ground arith
  event_keeps n e d = ground arith

  scheduled_keeps :
      (n : Net) (e : ProcessEvent) (d : WaterDevice)
      → kept (
          if d.schedule.running
          then WaterLevel.process_event p addr clock_second to_clock_time n e d
          else d)
        ≡ kept d
  scheduled_keeps n e d =
      if_both kept d.schedule.running _ d (ap (λ f. get f c) (event_keeps n e d)) refl

  engine_hears :
      (e : MqttEvent) (d : WaterDevice)
      → IsCleanEvent c e
      → kept (WaterLevel.mqtt_event p addr clock_second to_clock_time e d)
        ≡ settle p c (heard e) (kept d)
  unfolding WaterLevel.mqtt_event
  engine_hears (publish_event garbage topic chunk) d clean =
      handle_message_flow p garbage chunk c d.sim
      ∙ ap (λ o. set_by c o (kept d)) (asked-IsClean p c garbage chunk clean)
      ∙ sym (settle_one p c chunk (kept d))
  engine_hears _ d clean = sym (settle_none p c (kept d))

  pub water_hears :
      (i : WaterRuns.Input) (d d' : WaterDevice)
      → IsQuietWater c i
      → WaterRuns.step p addr clock_second to_clock_time i d ≡ some d'
      → kept d' ≡ settle p c (water_payload i) (kept d)
  unfolding WaterRuns.step
  water_hears (WaterRuns.Input.scheduler n e) d d' quiet h =
      ap kept (sym (eq_of_some h)) ∙ scheduled_keeps n e d ∙ sym (settle_none p c (kept d))
  water_hears (WaterRuns.Input.engine e) d d' quiet h =
      ap kept (sym (eq_of_some h)) ∙ engine_hears e d quiet
  water_hears (WaterRuns.Input.simulation r r') d d' quiet h =
      let (s, given, result) = >>=-eq-some (simulate_read_water_level r r' d.sim) _ h in
      ap kept (sym (eq_of_some result))
      ∙ ap (λ f. get f c) (simulate_keeps r r' d.sim given).0
      ∙ sym (settle_none p c (kept d))

  -- The water level sensor keeps the flow of the channel.
  abbrev pub water_listener : Listener p c WaterDevice WaterRuns.Input (IsQuietWater c)
  water_listener = record {
    step = WaterRuns.step p addr clock_second to_clock_time;
    payload = water_payload;
    setting = kept;
    hears = water_hears;
  }
