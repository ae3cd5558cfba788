-- ===== src/WaterLevel/Device.antt =====
-- The process of Motes/firmwares/water-level-sensor/water-level-sensor.c over every history of
-- events, messages and readings.
use mathlib.Core.Path.{subst}
use dam_monitoring.History
use dam_monitoring.Prelude.{
  ℕ, ◌≤◌, ◌≡◌, sym, ap, ◌∙◌, true, false, List, Option, some, ◌>>=◌, >>=-eq-some, eq_of_some, arith,
  if◌then◌else◌, Bool-cases, inl, inr, ◌==◌, ◌++◌, ◌%◌,
}
use dam_monitoring.Prelude.Int.{ℤ, pos, ◌+ℤ◌, ◌≤ℤ◌}
use dam_monitoring.Clib.Text.{Text, codes, snprintf}
use dam_monitoring.Clib.Arith.{rem_int}
use dam_monitoring.Common.Json.{JsonParser, FieldResult, get_json_int_field}
use dam_monitoring.Common.Urn.{LinkAddr}
use dam_monitoring.SensorSim.{
  Channel, inflow, outflow_1, outflow_2, gate, init_reservoir, max_reservoir, min_balance_flow,
  max_balance_flow,
}
use dam_monitoring.Mqtt.{Net, MqttEvent, publish_event}
use dam_monitoring.Process.{ProcessEvent, button_release, button_periodic}
use dam_monitoring.WaterLevel.{
  Sim, init_sim, apply_gate, gate_round, handle_message, limit_level, move_water, signed_var,
  signed_wl_var, simulate_read_water_level, WaterDevice, set_reservoir, start, mqtt_event,
  process_event,
}
use dam_monitoring.WaterLevel.Reservoir.{IsLevel, simulate_read_water_level_lem}
use dam_monitoring.WaterLevel.Balance.{
  IsBalanced, handle_message-IsBalanced, init_sim-IsBalanced, balance_range,
}

-- What reaches the device: an event of the scheduler, one of the MQTT engine, and the expiry of the
-- simulation's timer with the two numbers that `random_rand()` then gives.
pub data Input : Type 0 where
  scheduler : Net → ProcessEvent → Input
  engine : MqttEvent → Input
  simulation : ℕ → ℕ → Input

-- The flows and the balance agree, and the level and the contents are within their limits.
pub record IsSound (s : Sim) : Type 0 where
  pub balanced : IsBalanced s
  pub level : IsLevel s

apply_gate-IsLevel :
    (c : Channel) (res : FieldResult) (s : Sim) → IsLevel s → IsLevel (apply_gate c res s)
unfolding apply_gate
apply_gate-IsLevel c res s v = record {
  level_capped = ground (arith, v.level_capped);
  reservoir_capped = ground (arith, v.reservoir_capped);
}

gate_round-IsLevel :
    (p : JsonParser) (garbage : Channel → Text) (chunk : Text) (c : Channel) (s : Sim)
    → IsLevel s
    → IsLevel (gate_round p garbage chunk c s)
unfolding gate_round
gate_round-IsLevel p garbage chunk c s v =
    let (res, n) =
      get_json_int_field p (garbage c) chunk (snprintf 15 (codes "gate-" ++ gate c))
        s.new_gate_value in
    apply_gate-IsLevel c res (record s { new_gate_value = n })
      (record { level_capped = v.level_capped; reservoir_capped = v.reservoir_capped })

handle_message-IsLevel :
    (p : JsonParser) (garbage : Channel → Text) (chunk : Text) (s : Sim)
    → IsLevel s
    → IsLevel (handle_message p garbage chunk s)
unfolding handle_message
handle_message-IsLevel p garbage chunk s v =
    gate_round-IsLevel p garbage chunk outflow_2 _ (
      gate_round-IsLevel p garbage chunk outflow_1 _
        (gate_round-IsLevel p garbage chunk inflow s v))

limit_level_keeps :
    (s : Sim) → ((limit_level s).flow ≡ s.flow) × ((limit_level s).balance_flow ≡ s.balance_flow)
unfolding limit_level
limit_level_keeps s = ground arith

IsBalanced-of_same :
    (s s' : Sim)
    → s'.flow ≡ s.flow
    → s'.balance_flow ≡ s.balance_flow
    → IsBalanced s
    → IsBalanced s'
IsBalanced-of_same s s' e f v = record {
  setting = rw e (v.setting);
  balanced = rw (e, f) (v.balanced);
}

pub simulate_keeps :
    (random random' : ℕ) (s : Sim) {s' : Sim}
    → simulate_read_water_level random random' s ≡ some s'
    → (s'.flow ≡ s.flow) × (s'.balance_flow ≡ s.balance_flow)
unfolding simulate_read_water_level move_water
simulate_keeps random random' s h =
    let (var, given, result) = >>=-eq-some (rem_int random (s.balance_flow +ℤ pos 1000)) _ h in
    let moved = eq_of_some result in
    let (flow, balance) =
      limit_level_keeps
        (move_water (signed_var var) (signed_wl_var s.balance_flow (random' % 5)) s) in
    (sym (ap (λ x. x.flow) moved) ∙ flow, sym (ap (λ x. x.balance_flow) moved) ∙ balance)

simulate-IsSound :
    (random random' : ℕ) (s : Sim) {s' : Sim}
    → IsSound s
    → simulate_read_water_level random random' s ≡ some s'
    → IsSound s'
simulate-IsSound random random' s {s'} v h = elim (simulate_read_water_level_lem random random' s) [
  | inl (fault, e) ↦ absurd (cc (e, h))
  | inr (safe, (t, e, level)) ↦
      let (flow, balance) = simulate_keeps random random' s h in
      let same : t ≡ s' = eq_of_some (sym e ∙ h) in
      record {
        balanced = IsBalanced-of_same s s' flow balance v.balanced;
        level = subst IsLevel same level;
      }
]

set_reservoir-IsSound :
    (n : ℕ) (d : WaterDevice) → n ≤ max_reservoir → IsSound d.sim → IsSound (set_reservoir n d).sim
unfolding set_reservoir
set_reservoir-IsSound n d h v = record {
  balanced = record { setting = v.balanced.setting; balanced = v.balanced.balanced };
  level = record { level_capped = v.level.level_capped; reservoir_capped = omega arith };
}

module _ (p : JsonParser) (addr : LinkAddr) (clock_second : ℕ) (to_clock_time : ℤ → ℤ) where
  -- `none` is a run that C leaves undefined. A process that has exited gets no more events.
  unfoldable pub step : Input → WaterDevice → Option WaterDevice
  step (scheduler n e) d =
      some (if d.schedule.running then process_event p addr clock_second to_clock_time n e d else d)
  step (engine e) d = some (mqtt_event p addr clock_second to_clock_time e d)
  step (simulation r r') d =
      simulate_read_water_level r r' d.sim >>= λ s. some (record d { sim = s })

  abbrev pub run : List Input → WaterDevice → Option WaterDevice
  run = History.run step

  abbrev IsSoundAt : WaterDevice → Type 0
  IsSoundAt d = IsSound d.sim

  start-IsSound : IsSound (start p addr clock_second to_clock_time).sim
  unfolding start init_sim
  start-IsSound = record {
    balanced = record {
      setting = init_sim-IsBalanced.setting;
      balanced = init_sim-IsBalanced.balanced;
    };
    level = record { level_capped = omega arith; reservoir_capped = omega arith };
  }

  mqtt_event-IsSound :
      (e : MqttEvent) (d : WaterDevice)
      → IsSound d.sim
      → IsSound (mqtt_event p addr clock_second to_clock_time e d).sim
  unfolding mqtt_event
  mqtt_event-IsSound (publish_event g t chunk) d v = record {
    balanced = handle_message-IsBalanced p g chunk d.sim v.balanced;
    level = handle_message-IsLevel p g chunk d.sim v.level;
  }
  mqtt_event-IsSound _ d v = v

  process_event-IsSound :
      (n : Net) (e : ProcessEvent) (d : WaterDevice)
      → IsSound d.sim
      → IsSound (process_event p addr clock_second to_clock_time n e d).sim
  unfolding process_event set_reservoir
  process_event-IsSound n button_release d v = elim (Bool-cases d.btn_release) [
    | inl e ↦ rw e (set_reservoir-IsSound init_reservoir d (omega arith) v)
    | inr e ↦ rw e v
  ]
  process_event-IsSound n (button_periodic t) d v = elim (Bool-cases (t == 3)) [
    | inl e ↦ rw e (set_reservoir-IsSound max_reservoir d (omega arith) v)
    | inr e ↦ rw e v
  ]
  process_event-IsSound n _ d v = v

  step-IsSound :
      (i : Input) (d : WaterDevice) {d' : WaterDevice}
      → IsSound d.sim
      → step i d ≡ some d'
      → IsSound d'.sim
  unfolding step
  step-IsSound (scheduler n e) d v h =
      subst IsSoundAt (eq_of_some h)
        (elim d.schedule.running
          as (λ r.
            IsSoundAt (if r then process_event p addr clock_second to_clock_time n e d else d)) [
              | true ↦ process_event-IsSound n e d v
              | false ↦ v
            ])
  step-IsSound (engine e) d v h = subst IsSoundAt (eq_of_some h) (mqtt_event-IsSound e d v)
  step-IsSound (simulation r r') d v h =
      let (s, given, result) = >>=-eq-some (simulate_read_water_level r r' d.sim) _ h in
      subst IsSoundAt (eq_of_some result) (simulate-IsSound r r' d.sim v given)

  run-IsSound :
      (is : List Input) (d d' : WaterDevice) → IsSoundAt d → run is d ≡ some d' → IsSoundAt d'
  run-IsSound = History.run_keeps step IsSoundAt (λ i d d1 v h. step-IsSound i d v h)

  -- Over every history from the start whose readings C defines: each flow is a whole number of
  -- hundredths of its channel's greatest flow, from 0 to 100; the stored balance is the inflow less
  -- the two outflows, and lies between `MIN_BALANCE_FLOW` and
  -- `MAX_BALANCE_FLOW`; the level is at most 64 m, and the contents
  -- are below the 64.005 m that go with it.
  pub run-start-IsSound :
      (is : List Input) {d : WaterDevice}
      → run is (start p addr clock_second to_clock_time) ≡ some d
      → IsSound d.sim
        × ((min_balance_flow ≤ℤ d.sim.balance_flow) × (d.sim.balance_flow ≤ℤ max_balance_flow))
  run-start-IsSound is {d} h =
      let v = run-IsSound is _ _ start-IsSound h in (v, balance_range d.sim v.balanced)
