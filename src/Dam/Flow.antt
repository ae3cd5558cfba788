-- ===== src/Dam/Flow.antt =====
-- The flow sensor of Motes/firmwares/flow-sensor/flow-sensor.c as a listener: a message sets the target
-- of its channel, and so does the inflow sensor's button, but nothing else.
use dam_monitoring.Prelude.{
  ℕ, ◌≡◌, ◌≢◌, refl, sym, ap, ◌∙◌, List, [], some, >>=-eq-some, eq_of_some, arith, if◌then◌else◌,
}
use dam_monitoring.Prelude.Int.{ℤ}
use dam_monitoring.Clib.Text.{Text}
use dam_monitoring.Common.Json.{JsonParser}
use dam_monitoring.Common.Urn.{LinkAddr}
use dam_monitoring.SensorSim.{Channel, inflow, outflow_1, outflow_2, get}
use dam_monitoring.SensorSim.Asked.{set_by}
use dam_monitoring.SensorSim.Heard.{settle, settle_none, settle_one, asked-IsClean}
use dam_monitoring.Mqtt.{Net, MqttEvent, publish_event}
use dam_monitoring.Process.{ProcessEvent, button_release, button_periodic}
use dam_monitoring.FlowSensor
use dam_monitoring.FlowSensor.{FlowDevice, Sim, simulate_read_flow, simulate_flow}
use dam_monitoring.FlowSensor.Wanted.{handle_message_target}
use dam_monitoring.FlowSensor.Device as FlowRuns
use dam_monitoring.Dam.Listener.{Listener, heard, IsCleanEvent, if_both}

-- No button of the inflow sensor.
abbrev pub IsUntouched : Channel → ProcessEvent → Type 0
IsUntouched inflow button_release = ⊥
IsUntouched inflow (button_periodic seconds) = seconds ≢ 3
IsUntouched _ _ = Unit {0}

abbrev pub flow_payload : FlowRuns.Input → List Text
flow_payload (FlowRuns.Input.engine e) = heard e
flow_payload _ = []

abbrev pub IsQuietFlow : Channel → FlowRuns.Input → Type 0
IsQuietFlow c (FlowRuns.Input.scheduler n e) = IsUntouched c e
IsQuietFlow c (FlowRuns.Input.engine e) = IsCleanEvent c e
IsQuietFlow c (FlowRuns.Input.simulation r) = Unit {0}

module _ (p : JsonParser) (addr : LinkAddr) (clock_second : ℕ) (to_clock_time : ℤ → ℤ)
    (c : Channel) where
  abbrev pub target : FlowDevice → ℤ
  target d = get d.sim.target_flow c

  event_keeps :
      (b : Channel) (n : Net) (e : ProcessEvent) (d : FlowDevice)
      → IsUntouched b e
      → (FlowSensor.process_event p addr clock_second to_clock_time b n e d).sim.target_flow
        ≡ d.sim.target_flow
  unfolding FlowSensor.process_event
  event_keeps inflow n (button_periodic t) d quiet = ground arith
  event_keeps inflow n button_release d quiet = absurd quiet
  event_keeps outflow_1 n (button_periodic t) d quiet = ground arith
  event_keeps outflow_2 n (button_periodic t) d quiet = ground arith
  event_keeps inflow n e d quiet = ground arith
  event_keeps outflow_1 n e d quiet = ground arith
  event_keeps outflow_2 n e d quiet = ground arith

  scheduled_keeps :
      (n : Net) (e : ProcessEvent) (d : FlowDevice)
      → IsUntouched c e
      → target (
          if d.schedule.running
          then FlowSensor.process_event p addr clock_second to_clock_time c n e d
          else d)
        ≡ target d
  scheduled_keeps n e d quiet =
      if_both target d.schedule.running _ d (ap (λ f. get f c) (event_keeps c n e d quiet)) refl

  engine_hears :
      (e : MqttEvent) (d : FlowDevice)
      → IsCleanEvent c e
      → target (FlowSensor.mqtt_event p addr clock_second to_clock_time c e d)
        ≡ settle p c (heard e) (target d)
  unfolding FlowSensor.mqtt_event
  engine_hears (publish_event garbage topic chunk) d clean =
      handle_message_target p c (garbage c) chunk d.sim
      ∙ ap (λ o. set_by c o (target d)) (asked-IsClean p c garbage chunk clean)
      ∙ sym (settle_one p c chunk (target d))
  engine_hears _ d clean = sym (settle_none p c (target d))

  reading_keeps :
      (r : ℕ) (s : Sim) {s' : Sim}
      → simulate_read_flow c r s ≡ some s'
      → s'.target_flow ≡ s.target_flow
  unfolding simulate_read_flow
  reading_keeps r s h =
      let (f, given, result) =
        >>=-eq-some (simulate_flow r (get s.target_flow c) (get s.flow c)) _ h in
      ap (λ x. x.target_flow) (sym (eq_of_some result))

  pub flow_hears :
      (i : FlowRuns.Input) (d d' : FlowDevice)
      → IsQuietFlow c i
      → FlowRuns.step p addr clock_second to_clock_time c i d ≡ some d'
      → target d' ≡ settle p c (flow_payload i) (target d)
  unfolding FlowRuns.step
  flow_hears (FlowRuns.Input.scheduler n e) d d' quiet h =
      ap target (sym (eq_of_some h))
      ∙ scheduled_keeps n e d quiet
      ∙ sym (settle_none p c (target d))
  flow_hears (FlowRuns.Input.engine e) d d' quiet h =
      ap target (sym (eq_of_some h)) ∙ engine_hears e d quiet
  flow_hears (FlowRuns.Input.simulation r) d d' quiet h =
      let (s, given, result) = >>=-eq-some (simulate_read_flow c r d.sim) _ h in
      ap target (sym (eq_of_some result))
      ∙ ap (λ f. get f c) (reading_keeps r d.sim given)
      ∙ sym (settle_none p c (target d))

  -- The flow sensor keeps the target of its channel.
  abbrev pub flow_listener : Listener p c FlowDevice FlowRuns.Input (IsQuietFlow c)
  flow_listener = record {
    step = FlowRuns.step p addr clock_second to_clock_time c;
    payload = flow_payload;
    setting = target;
    hears = flow_hears;
  }
