-- ===== src/Dam/Motes.antt =====
-- Motes 2 and 3 of Motes/demo on the topic `simulation`: the three flows and the water level of one dam.
use dam_monitoring.History
use dam_monitoring.Prelude.{
  ℕ, ◌≡◌, refl, sym, ap, ◌∙◌, List, [], ◌∷◌, some, ◌>>=◌, >>=-eq-some, eq_of_some, arith,
}
use dam_monitoring.Prelude.Int.{ℤ}
use dam_monitoring.Clib.Text.{Text}
use dam_monitoring.Common.Json.{JsonParser}
use dam_monitoring.Common.Urn.{LinkAddr}
use dam_monitoring.SensorSim.{Channel, inflow, outflow_1, outflow_2, get, init_flows}
use dam_monitoring.SensorSim.Asked.{set_by}
use dam_monitoring.SensorSim.Heard.{settle, settle_none, settle_one, asked-IsClean}
use dam_monitoring.Mqtt.{Net, MqttEvent, publish_event}
use dam_monitoring.Process.{ProcessEvent, button_release, button_periodic}
use dam_monitoring.Demo.Mote2
use dam_monitoring.Demo.Mote2.{Device, simulate_read_flow, simulate_channel, press, hold}
use dam_monitoring.Demo.Mote2.Channels.{next_flows, all_flows}
use dam_monitoring.Demo.Mote2.Messages.{handle_message_targets}
use dam_monitoring.Demo.Mote2.Runs as FlowMote
use dam_monitoring.Demo.Mote3
use dam_monitoring.Demo.Mote3.Agreement as LevelMote
use dam_monitoring.Demo.Mote3.Agreement.{mote_3-agrees, as_firmware}
use dam_monitoring.WaterLevel.Device as WaterRuns
use dam_monitoring.History.{All}
use dam_monitoring.Dam.Listener.{Listener, messages, heard, IsCleanEvent, if_both, run_hears}
use dam_monitoring.Dam.Flow.{IsUntouched}
use dam_monitoring.Dam.Water.{IsQuietWater, water_payload}
use dam_monitoring.Dam.Agreement.{flow-settle}

-- What mote 2 hears for a channel: its loop over the channels leaves out the inflow.
abbrev pub mote_payload : Channel → FlowMote.Input → List Text
mote_payload inflow i = []
mote_payload outflow_1 (FlowMote.Input.engine e) = heard e
mote_payload outflow_2 (FlowMote.Input.engine e) = heard e
mote_payload _ _ = []

abbrev pub IsQuietMote : Channel → FlowMote.Input → Type 0
IsQuietMote c (FlowMote.Input.scheduler n e) = IsUntouched c e
IsQuietMote inflow (FlowMote.Input.engine e) = Unit {0}
IsQuietMote c (FlowMote.Input.engine e) = IsCleanEvent c e
IsQuietMote c (FlowMote.Input.simulation r) = Unit {0}

module _ (p : JsonParser) (addr : LinkAddr) (clock_second : ℕ) (to_clock_time : ℤ → ℤ) where
  abbrev pub target : Channel → Device → ℤ
  target c d = get d.sim.target_flow c

  event_keeps :
      (c : Channel) (n : Net) (e : ProcessEvent) (d : Device)
      → IsUntouched c e
      → target c (Mote2.process_event p addr clock_second to_clock_time n e d) ≡ target c d
  unfolding Mote2.process_event press hold
  event_keeps inflow n button_release d quiet = absurd quiet
  event_keeps c n (button_periodic t) d quiet = ground arith
  event_keeps outflow_1 n button_release d quiet = ground arith
  event_keeps outflow_2 n button_release d quiet = ground arith
  event_keeps c n e d quiet = refl

  engine_hears :
      (c : Channel) (e : MqttEvent) (d : Device)
      → IsQuietMote c (FlowMote.Input.engine e)
      → target c (Mote2.mqtt_event p addr clock_second to_clock_time e d)
        ≡ settle p c (mote_payload c (FlowMote.Input.engine e)) (target c d)
  unfolding Mote2.mqtt_event
  engine_hears inflow (publish_event garbage topic chunk) d clean =
      (handle_message_targets p garbage chunk d.sim).0 ∙ sym (settle_none p inflow _)
  engine_hears outflow_1 (publish_event garbage topic chunk) d clean =
      (handle_message_targets p garbage chunk d.sim).1
      ∙ ap (λ o. set_by outflow_1 o (target outflow_1 d))
          (asked-IsClean p outflow_1 garbage chunk clean)
      ∙ sym (settle_one p outflow_1 chunk _)
  engine_hears outflow_2 (publish_event garbage topic chunk) d clean =
      (handle_message_targets p garbage chunk d.sim).2
      ∙ ap (λ o. set_by outflow_2 o (target outflow_2 d))
          (asked-IsClean p outflow_2 garbage chunk clean)
      ∙ sym (settle_one p outflow_2 chunk _)
  engine_hears inflow _ d clean = sym (settle_none p inflow _)
  engine_hears outflow_1 _ d clean = sym (settle_none p outflow_1 _)
  engine_hears outflow_2 _ d clean = sym (settle_none p outflow_2 _)

  reading_keeps :
      (c : Channel) (random : Channel → ℕ) (d : Device) {d' : Device}
      → (simulate_read_flow random d.sim >>= λ s. some (record d { sim = s })) ≡ some d'
      → target c d' ≡ target c d
  reading_keeps c random d h =
      let (s, given, result) = >>=-eq-some (simulate_read_flow random d.sim) _ h in
      let (f, flows, made) =
        >>=-eq-some (next_flows random d.sim) _ (sym (all_flows random d.sim) ∙ given) in
      ap (target c) (sym (eq_of_some result))
      ∙ ap (λ x. get x.target_flow c) (sym (eq_of_some made))

  pub mote_hears :
      (c : Channel) (i : FlowMote.Input) (d d' : Device)
      → IsQuietMote c i
      → FlowMote.step p addr clock_second to_clock_time i d ≡ some d'
      → target c d' ≡ settle p c (mote_payload c i) (target c d)
  unfolding FlowMote.step
  mote_hears c (FlowMote.Input.scheduler n e) d d' quiet h =
      ap (target c) (sym (eq_of_some h))
      ∙ if_both (target c) d.schedule.running _ d (event_keeps c n e d quiet) refl
      ∙ nothing_heard c n e (target c d)
    where
      nothing_heard :
          (c : Channel) (n : Net) (e : ProcessEvent) (v : ℤ)
          → v ≡ settle p c (mote_payload c (FlowMote.Input.scheduler n e)) v
      nothing_heard inflow n e v = sym (settle_none p inflow v)
      nothing_heard outflow_1 n e v = sym (settle_none p outflow_1 v)
      nothing_heard outflow_2 n e v = sym (settle_none p outflow_2 v)
  mote_hears c (FlowMote.Input.engine e) d d' quiet h =
      ap (target c) (sym (eq_of_some h)) ∙ engine_hears c e d quiet
  mote_hears inflow (FlowMote.Input.simulation r) d d' quiet h =
      reading_keeps inflow r d h ∙ sym (settle_none p inflow _)
  mote_hears outflow_1 (FlowMote.Input.simulation r) d d' quiet h =
      reading_keeps outflow_1 r d h ∙ sym (settle_none p outflow_1 _)
  mote_hears outflow_2 (FlowMote.Input.simulation r) d d' quiet h =
      reading_keeps outflow_2 r d h ∙ sym (settle_none p outflow_2 _)

  -- Mote 2 keeps the target of each channel.
  abbrev pub mote_listener : (c : Channel) → Listener p c Device FlowMote.Input (IsQuietMote c)
  mote_listener c = record {
    step = FlowMote.step p addr clock_second to_clock_time;
    payload = mote_payload c;
    setting = target c;
    hears = mote_hears c;
  }

  first_target :
      (c : Channel) → target c (Mote2.start p addr clock_second to_clock_time) ≡ get init_flows c
  unfolding Mote2.start Mote2.init_sim
  first_target c = refl

  target-settle :
      (c : Channel) (is : List FlowMote.Input) {d : Device}
      → All (IsQuietMote c) is
      → FlowMote.run p addr clock_second to_clock_time is
          (Mote2.start p addr clock_second to_clock_time)
        ≡ some d
      → target c d ≡ settle p c (messages (mote_payload c) is) (get init_flows c)
  target-settle c is quiet h =
      run_hears (mote_listener c) is _ quiet h
      ∙ ap (settle p c (messages (mote_payload c) is)) (first_target c)

  -- A flow of mote 3 is what its messages settle, as it is for the firmware.
  level-settle :
      (c : Channel) (js : List WaterRuns.Input) {w : Mote3.Device}
      → All (IsQuietWater c) js
      → History.run
          (LevelMote.step p addr clock_second to_clock_time)
          js
          (Mote3.start p addr clock_second to_clock_time)
        ≡ some w
      → get w.sim.flow c ≡ settle p c (messages water_payload js) (get init_flows c)
  level-settle c js {w} quiet h =
      flow-settle p addr clock_second to_clock_time c js {w = as_firmware w} quiet (
        sym (mote_3-agrees p addr clock_second to_clock_time js)
        ∙ ap (λ o. o >>= λ x. some (as_firmware x)) h)

inflow_hears_none : (is : List FlowMote.Input) → messages (mote_payload inflow) is ≡ []
inflow_hears_none [] = refl
inflow_hears_none (i ∷ is) = inflow_hears_none is

-- Motes 2 and 3, each at its own pace: if from their starts they got the same messages in the same
-- order, whatever else came between, mote 2's button not among it, and no uninitialised buffer held a
-- field's name, then mote 3 has for each outflow the flow that mote 2 aims at. The inflow is another
-- matter: mote 3 has what the messages ask for, and mote 2 what it started with.
pub demo_agrees :
    (p : JsonParser) (addr addr' : LinkAddr) (clock_second : ℕ) (to_clock_time : ℤ → ℤ)
    (is : List FlowMote.Input) (js : List WaterRuns.Input) {d : Device} {w : Mote3.Device}
    → ((c : Channel) → All (IsQuietMote c) is × All (IsQuietWater c) js)
    → messages (mote_payload outflow_1) is ≡ messages water_payload js
    → messages (mote_payload outflow_2) is ≡ messages water_payload js
    → FlowMote.run p addr clock_second to_clock_time is
        (Mote2.start p addr clock_second to_clock_time)
      ≡ some d
    → History.run
        (LevelMote.step p addr' clock_second to_clock_time)
        js
        (Mote3.start p addr' clock_second to_clock_time)
      ≡ some w
    → (get w.sim.flow outflow_1 ≡ get d.sim.target_flow outflow_1)
      × (get w.sim.flow outflow_2 ≡ get d.sim.target_flow outflow_2)
      × (get w.sim.flow inflow
          ≡ settle p inflow (messages water_payload js) (get init_flows inflow))
      × (get d.sim.target_flow inflow ≡ get init_flows inflow)
demo_agrees p addr addr' clock_second to_clock_time is js {d} {w} quiet same_1 same_2 runs runs' = (
  level-settle p addr' clock_second to_clock_time outflow_1 js (quiet outflow_1).1 runs'
      ∙ ap (λ l. settle p outflow_1 l (get init_flows outflow_1)) (sym same_1)
      ∙ sym (target-settle p addr clock_second to_clock_time outflow_1 is (quiet outflow_1).0 runs),
  level-settle p addr' clock_second to_clock_time outflow_2 js (quiet outflow_2).1 runs'
      ∙ ap (λ l. settle p outflow_2 l (get init_flows outflow_2)) (sym same_2)
      ∙ sym (target-settle p addr clock_second to_clock_time outflow_2 is (quiet outflow_2).0 runs),
  level-settle p addr' clock_second to_clock_time inflow js (quiet inflow).1 runs',
  target-settle p addr clock_second to_clock_time inflow is (quiet inflow).0 runs
      ∙ ap (λ l. settle p inflow l (get init_flows inflow)) (inflow_hears_none is)
      ∙ settle_none p inflow _,
)
