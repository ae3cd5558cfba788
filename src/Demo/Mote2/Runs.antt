-- ===== src/Demo/Mote2/Runs.antt =====
-- The process of Motes/demo/mote-2/mote-2.c over every history of events, messages and steps of the
-- simulation.
use mathlib.Core.Path.{subst}
use dam_monitoring.History
use dam_monitoring.Prelude.{
  ℕ, ◌+◌, ◌*◌, ◌≤◌, ◌≡◌, refl, true, false, List, Option, some, ◌>>=◌, >>=-eq-some, eq_of_some,
  arith, if◌then◌else◌, Bool-cases, inl, inr, ◌==◌,
}
use dam_monitoring.Prelude.Int.{ℤ, pos, ltb_ℤ, leb_ℤ, ◌+ℤ◌}
use dam_monitoring.Common.Json.{JsonParser}
use dam_monitoring.Common.Urn.{LinkAddr}
use dam_monitoring.SensorSim.{Channel, inflow, outflow_1, outflow_2, get, put}
use dam_monitoring.Mqtt.{Net, MqttEvent, publish_event}
use dam_monitoring.Process.{ProcessEvent, button_release, button_periodic}
use dam_monitoring.FlowSensor.Settle.{excess}
use dam_monitoring.Demo.Mote2.{
  Device, simulate_read_flow, start, mqtt_event, process_event, press, hold, init_sim,
}
use dam_monitoring.Demo.Mote2.Range.{
  IsSound, IsGood, IsStepped, simulate-IsSound, handle_message-IsSound, init_sim-IsSound,
}

-- What reaches the mote: an event of the scheduler, one of the MQTT engine, and the expiry of the
-- simulation's timer with the numbers that `random_rand()` then gives.
pub data Input : Type 0 where
  scheduler : Net → ProcessEvent → Input
  engine : MqttEvent → Input
  simulation : (Channel → ℕ) → Input

on_target : (amount : ℕ) → excess amount amount ≡ 0
unfolding excess
on_target amount = omega arith

press_raises :
    (t : ℤ) (k : ℕ)
    → t ≡ pos (k * 8000)
    → ltb_ℤ t (pos 80000) ≡ true
    → (t +ℤ (if leb_ℤ (pos 80000) t then pos 0 else pos 8000) ≡ pos ((k + 1) * 8000)) × (k ≤ 9)
unfolding ◌+ℤ◌
press_raises t k e h = rw e (ground arith, ground (arith, below))
  where
    below : ltb_ℤ (pos (k * 8000)) (pos 80000) ≡ true
    below = rw e at h

-- The target that a press sets.
abbrev raised : ℤ → ℤ
raised t = t +ℤ (if leb_ℤ (pos 80000) t then pos 0 else pos 8000)

raised-IsStepped :
    {target flow : ℤ}
    → IsStepped target flow
    → ltb_ℤ target (pos 80000) ≡ true
    → IsStepped (raised target) (raised target)
raised-IsStepped {target} v low =
    let (exact, room) = press_raises target v.tenths v.target_exact low in
    record {
      tenths = v.tenths + 1;
      target_exact = exact;
      tenths_capped = omega arith;
      amount = (v.tenths + 1) * 8000;
      flow_exact = exact;
      flow_capped = omega arith;
      calm = on_target ((v.tenths + 1) * 8000);
    }

press-IsSound :
    (d : Device)
    → IsSound d.sim
    → (c : Channel) → IsGood c (get (press d).sim.target_flow c) (get (press d).sim.flow c)
unfolding press
press-IsSound d all c = elim (Bool-cases (ltb_ℤ d.sim.target_flow.at_inflow (pos 80000))) [
  | inl low ↦ rw low (by_channel low c)
  | inr high ↦ rw high (all c)
]
  where
    by_channel :
        ltb_ℤ d.sim.target_flow.at_inflow (pos 80000) ≡ true
        → (c : Channel)
        → IsGood c
            (get (put d.sim.target_flow inflow (raised d.sim.target_flow.at_inflow)) c)
            (get (put d.sim.flow inflow (raised d.sim.target_flow.at_inflow)) c)
    by_channel low inflow = raised-IsStepped (all inflow) low
    by_channel low outflow_1 = all outflow_1
    by_channel low outflow_2 = all outflow_2

hold-IsSound : (d : Device) → IsSound d.sim → IsSound (hold d).sim
unfolding hold
hold-IsSound d all inflow = record {
  tenths = 0;
  target_exact = refl;
  tenths_capped = omega arith;
  amount = 0;
  flow_exact = refl;
  flow_capped = omega arith;
  calm = on_target 0;
}
hold-IsSound d all outflow_1 = all outflow_1
hold-IsSound d all outflow_2 = all outflow_2

module _ (p : JsonParser) (addr : LinkAddr) (clock_second : ℕ) (to_clock_time : ℤ → ℤ) where
  -- `none` is a run that C leaves undefined. A process that has exited gets no more events.
  unfoldable pub step : Input → Device → Option Device
  step (scheduler n e) d =
      some (if d.schedule.running then process_event p addr clock_second to_clock_time n e d else d)
  step (engine e) d = some (mqtt_event p addr clock_second to_clock_time e d)
  step (simulation random) d = simulate_read_flow random d.sim >>= λ s. some (record d { sim = s })

  abbrev pub run : List Input → Device → Option Device
  run = History.run step

  abbrev IsSoundAt : Device → Type 0
  IsSoundAt d = IsSound d.sim

  start-IsSound : IsSound (start p addr clock_second to_clock_time).sim
  unfolding start
  start-IsSound c = by_channel c
    where
      by_channel : IsSound init_sim
      by_channel = init_sim-IsSound

  mqtt_event-IsSound :
      (e : MqttEvent) (d : Device)
      → IsSound d.sim
      → IsSound (mqtt_event p addr clock_second to_clock_time e d).sim
  unfolding mqtt_event
  mqtt_event-IsSound (publish_event g t chunk) d all = handle_message-IsSound p g chunk d.sim all
  mqtt_event-IsSound _ d all = all

  process_event-IsSound :
      (n : Net) (e : ProcessEvent) (d : Device)
      → IsSound d.sim
      → IsSound (process_event p addr clock_second to_clock_time n e d).sim
  unfolding process_event
  process_event-IsSound n button_release d all =
      elim d.btn_release
        as (λ r. IsSound (if r then press d else record d { btn_release = true }).sim) [
          | true ↦ press-IsSound d all
          | false ↦ all
        ]
  process_event-IsSound n (button_periodic t) d all =
      elim (t == 3) as (λ r. IsSound (if r then hold d else d).sim) [
        | true ↦ hold-IsSound d all
        | false ↦ all
      ]
  process_event-IsSound n _ d all = all

  step-IsSound :
      (i : Input) (d : Device) {d' : Device} → IsSound d.sim → step i d ≡ some d' → IsSound d'.sim
  unfolding step
  step-IsSound (scheduler n e) d all h =
      subst IsSoundAt (eq_of_some h)
        (elim d.schedule.running
          as (λ r.
            IsSoundAt (if r then process_event p addr clock_second to_clock_time n e d else d)) [
              | true ↦ process_event-IsSound n e d all
              | false ↦ all
            ])
  step-IsSound (engine e) d all h = subst IsSoundAt (eq_of_some h) (mqtt_event-IsSound e d all)
  step-IsSound (simulation random) d all h =
      let (s, given, result) = >>=-eq-some (simulate_read_flow random d.sim) _ h in
      subst IsSoundAt (eq_of_some result) (simulate-IsSound random d.sim all given)

  run-IsSound : (is : List Input) (d d' : Device) → IsSoundAt d → run is d ≡ some d' → IsSoundAt d'
  run-IsSound = History.run_keeps step IsSoundAt (λ i d d1 v h. step-IsSound i d v h)

  -- Over every history from the start whose steps C defines: the target of the inflow is a whole number
  -- of tenths of the greatest inflow, from none to all ten, and its flow lies within 150 of its target;
  -- the target of each outflow is a whole number of hundredths of its greatest flow, at
  -- most 100, and its flow lies between 0 and 150 above the greatest.
  pub mote_2-IsSound :
      (is : List Input) {d : Device}
      → run is (start p addr clock_second to_clock_time) ≡ some d
      → IsSound d.sim
  mote_2-IsSound is h = run-IsSound is _ _ start-IsSound h
