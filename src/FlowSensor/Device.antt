-- ===== src/FlowSensor/Device.antt =====
-- The process of Motes/firmwares/flow-sensor/flow-sensor.c over every history of events: the range
-- of the simulation.
use mathlib.Core.Path.{subst}
use dam_monitoring.History
use dam_monitoring.Prelude.{
  ℕ, ◌+◌, ◌*◌, ◌≤◌, ◌≡◌, refl, true, false, List, Option, some, ◌>>=◌, >>=-eq-some, eq_of_some,
  arith, if◌then◌else◌, Bool-cases, inl, inr, ◌==◌,
}
use dam_monitoring.Prelude.Int.{ℤ, pos, ltb_ℤ, leb_ℤ, ◌+ℤ◌}
use dam_monitoring.Common.Json.{JsonParser}
use dam_monitoring.Common.Urn.{LinkAddr}
use dam_monitoring.SensorSim.{Channel, inflow, outflow_1, outflow_2, get, init_flows}
use dam_monitoring.Mqtt.{Net, MqttEvent, publish_event}
use dam_monitoring.Process.{ProcessEvent, periodic_timer_event, button_release, button_periodic}
use dam_monitoring.FlowSensor.{
  FlowDevice, simulate_read_flow, init_sim, start, mqtt_event, process_event, press, hold,
}
use dam_monitoring.FlowSensor.Range.{
  IsInRange, InRange, handle_message-IsInRange, simulate-IsInRange,
}

-- What reaches the device: an event of the scheduler, one of the MQTT engine, and the expiry of the
-- simulation's timer with the number that `random_rand()` then gives.
pub data Input : Type 0 where
  scheduler : Net → ProcessEvent → Input
  engine : MqttEvent → Input
  simulation : ℕ → Input

press_raises :
    (t : ℤ) (k : ℕ)
    → t ≡ pos (k * 800)
    → ltb_ℤ t (pos 80000) ≡ true
    → (t +ℤ (if leb_ℤ (pos 80000) t then pos 0 else pos 8000) ≡ pos ((k + 10) * 800)) × (k ≤ 99)
unfolding ◌+ℤ◌
press_raises t k e h = rw e (ground arith, ground (arith, below))
  where
    below : ltb_ℤ (pos (k * 800)) (pos 80000) ≡ true
    below = rw e at h

press-IsInRange : (d : FlowDevice) → IsInRange inflow d.sim → IsInRange inflow (press d).sim
unfolding press
press-IsInRange d v = elim (Bool-cases (ltb_ℤ d.sim.target_flow.at_inflow (pos 80000))) [
  | inl low ↦
      let (raised, room) = press_raises d.sim.target_flow.at_inflow v.percent v.target_exact low in
      rw low (record {
        percent = v.percent + 10;
        target_exact = raised;
        percent_capped = omega arith;
        amount = (v.percent + 10) * 800;
        flow_exact = raised;
        flow_capped = omega arith;
      })
  | inr high ↦ rw high v
]

hold-IsInRange : (d : FlowDevice) → IsInRange inflow (hold d).sim
unfolding hold
hold-IsInRange d = record {
  percent = 0;
  target_exact = refl;
  percent_capped = omega arith;
  amount = 0;
  flow_exact = refl;
  flow_capped = omega arith;
}

module _ (p : JsonParser) (addr : LinkAddr) (clock_second : ℕ) (to_clock_time : ℤ → ℤ)
    (c : Channel) where
  -- `none` is a run that C leaves undefined. A process that has exited gets no more events.
  unfoldable pub step : Input → FlowDevice → Option FlowDevice
  step (scheduler n e) d =
      some
        (if d.schedule.running then process_event p addr clock_second to_clock_time c n e d else d)
  step (engine e) d = some (mqtt_event p addr clock_second to_clock_time c e d)
  step (simulation r) d = simulate_read_flow c r d.sim >>= λ s. some (record d { sim = s })

  abbrev pub run : List Input → FlowDevice → Option FlowDevice
  run = History.run step

  abbrev InRangeAt : FlowDevice → Type 0
  InRangeAt d = IsInRange c d.sim

  start-IsInRange : IsInRange c (start p addr clock_second to_clock_time c).sim
  unfolding start init_sim
  start-IsInRange = start_channel c
    where
      start_channel : (c : Channel) → InRange c (get init_flows c) (get init_flows c)
      start_channel inflow = record {
        percent = 40;
        target_exact = refl;
        percent_capped = omega arith;
        amount = 32000;
        flow_exact = refl;
        flow_capped = omega arith;
      }
      start_channel outflow_1 = record {
        percent = 0;
        target_exact = refl;
        percent_capped = omega arith;
        amount = 0;
        flow_exact = refl;
        flow_capped = omega arith;
      }
      start_channel outflow_2 = record {
        percent = 0;
        target_exact = refl;
        percent_capped = omega arith;
        amount = 0;
        flow_exact = refl;
        flow_capped = omega arith;
      }

  mqtt_event-IsInRange :
      (e : MqttEvent) (d : FlowDevice)
      → IsInRange c d.sim
      → IsInRange c (mqtt_event p addr clock_second to_clock_time c e d).sim
  unfolding mqtt_event
  mqtt_event-IsInRange (publish_event g t chunk) d v =
      handle_message-IsInRange p c (g c) chunk d.sim v
  mqtt_event-IsInRange _ d v = v

  process_event-IsInRange :
      (b : Channel) (n : Net) (e : ProcessEvent) (d : FlowDevice)
      → IsInRange b d.sim
      → IsInRange b (process_event p addr clock_second to_clock_time b n e d).sim
  unfolding process_event
  process_event-IsInRange inflow n button_release d v =
      elim d.btn_release
        as (λ r. IsInRange inflow (if r then press d else record d { btn_release = true }).sim) [
          | true ↦ press-IsInRange d v
          | false ↦ v
        ]
  process_event-IsInRange inflow n (button_periodic t) d v = elim (Bool-cases (t == 3)) [
    | inl e ↦ rw e (hold-IsInRange d)
    | inr e ↦ rw e v
  ]
  process_event-IsInRange _ n periodic_timer_event d v = v
  process_event-IsInRange _ n _ d v = v

  step-IsInRange :
      (i : Input) (d : FlowDevice) {d' : FlowDevice}
      → IsInRange c d.sim
      → step i d ≡ some d'
      → IsInRange c d'.sim
  unfolding step
  step-IsInRange (scheduler n e) d v h =
      subst InRangeAt (eq_of_some h)
        (elim d.schedule.running
          as (λ r.
            InRangeAt (if r then process_event p addr clock_second to_clock_time c n e d else d)) [
              | true ↦ process_event-IsInRange c n e d v
              | false ↦ v
            ])
  step-IsInRange (engine e) d v h = subst InRangeAt (eq_of_some h) (mqtt_event-IsInRange e d v)
  step-IsInRange (simulation r) d v h =
      let (s, given, result) = >>=-eq-some (simulate_read_flow c r d.sim) _ h in
      subst InRangeAt (eq_of_some result) (simulate-IsInRange c r d.sim v given)

  run-IsInRange :
      (is : List Input) (d d' : FlowDevice) → InRangeAt d → run is d ≡ some d' → InRangeAt d'
  run-IsInRange = History.run_keeps step InRangeAt (λ i d d1 v h. step-IsInRange i d v h)

  -- Over every history from the start whose simulation steps C defines: the target is a whole number
  -- of hundredths of the channel's greatest flow, at most 100 (109 for the inflow, which the button
  -- raises by 10 from below 100), and the flow is between 0 and 150 above the greatest target.
  pub run-start-IsInRange :
      (is : List Input) {d : FlowDevice}
      → run is (start p addr clock_second to_clock_time c) ≡ some d
      → IsInRange c d.sim
  run-start-IsInRange is h = run-IsInRange is _ _ start-IsInRange h
