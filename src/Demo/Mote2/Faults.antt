-- ===== src/Demo/Mote2/Faults.antt =====
-- Where the process of Motes/demo/mote-2/mote-2.c divides by zero.
use dam_monitoring.History.Faults.{Meets, run_faults}
use dam_monitoring.Prelude.{arith, ℕ, ◌*◌, ◌≡◌, ◌≢◌, List, none, >>=-eq-none, ◌↔◌, inl, inr}
use dam_monitoring.Prelude.Int.{ℤ, pos}
use dam_monitoring.Common.Json.{JsonParser}
use dam_monitoring.Common.Urn.{LinkAddr}
use dam_monitoring.SensorSim.{Channel, inflow, outflow_1, outflow_2, get, max_flow}
use dam_monitoring.FlowSensor
use dam_monitoring.FlowSensor.{Sim, simulate_flow}
use dam_monitoring.FlowSensor.Settle.{excess}
use dam_monitoring.FlowSensor.Faults.{IsNear, simulate_flow_faults}
use dam_monitoring.Demo.Mote2.{Device, simulate_read_flow, start}
use dam_monitoring.Demo.Mote2.Channels.{simulate_read_flow_channels}
use dam_monitoring.Demo.Mote2.Range.{IsGood, IsSound, IsStepped}
use dam_monitoring.Demo.Mote2.Runs.{Input, scheduler, engine, simulation, step, run, mote_2-IsSound}

amounts :
    (c : Channel) (target flow : ℤ)
    → IsGood c target flow
    → (t : ℕ) × (f : ℕ) × (target ≡ pos t) × (flow ≡ pos f)
amounts inflow target flow v = (v.tenths * 8000, v.amount, v.target_exact, v.flow_exact)
amounts outflow_1 target flow v =
    (v.percent * max_flow outflow_1, v.amount, v.target_exact, v.flow_exact)
amounts outflow_2 target flow v =
    (v.percent * max_flow outflow_2, v.amount, v.target_exact, v.flow_exact)

-- A firmware's step is undefined where its channel is 1 to 9 outside its band.
firmware_faults :
    (c : Channel) (random : ℕ) (s : Sim)
    → IsSound s
    → (FlowSensor.simulate_read_flow c random s ≡ none)
      ↔ IsNear (get s.target_flow c) (get s.flow c)
unfolding FlowSensor.simulate_read_flow
firmware_faults c random s v =
    let (t, f, et, ef) = amounts c (get s.target_flow c) (get s.flow c) (v c) in
    let (moved, stays) =
      >>=-eq-none (simulate_flow random (get s.target_flow c) (get s.flow c)) _ in
    let (near, faults) = simulate_flow_faults random t f et ef in
    (λ h. near (moved h), λ n. stays (faults n))

-- The inflow follows its target and is never there.
inflow_calm : (target flow : ℤ) → IsStepped target flow → ¬ IsNear target flow
inflow_calm target flow v (t, f, et, ef, near, close) =
    let same_t : v.tenths * 8000 ≡ t = cc (v.target_exact, et) in
    let same_f : v.amount ≡ f = cc (v.flow_exact, ef) in
    let none_off : excess t f ≡ 0 = cc (v.calm, same_t, same_f) in omega arith

near_outflow :
    (c : Channel) (s : Sim) → IsSound s → IsNear (get s.target_flow c) (get s.flow c) → c ≢ inflow
near_outflow inflow s v near = absurd (inflow_calm _ _ (v inflow) near)
near_outflow outflow_1 s v near = ground arith
near_outflow outflow_2 s v near = ground arith

-- A reading while one of the outflows is there.
abbrev pub IsFault : Input → Device → Type 0
IsFault (simulation random) d =
    (c : Channel) × (c ≢ inflow) × IsNear (get d.sim.target_flow c) (get d.sim.flow c)
IsFault _ d = ⊥

reading_faults :
    (random : Channel → ℕ) (s : Sim)
    → IsSound s
    → (simulate_read_flow random s ≡ none)
      ↔ ((c : Channel) × (c ≢ inflow) × IsNear (get s.target_flow c) (get s.flow c))
reading_faults random s v = elim (simulate_read_flow_channels random s) [
  | inl (s', e, each, targets, value, timer) ↦ (
    λ h. absurd (cc (e, h)),
    λ (c, outflow, near).
        let (t, given, same) = each c in
        absurd (cc (given, (firmware_faults c (random c) s v).1 near)),
  )
  | inr (e, (c, fault)) ↦
      let near = (firmware_faults c (random c) s v).0 fault in
      (λ h. (c, near_outflow c s v near, near), λ f. e)
]

module _ (p : JsonParser) (addr : LinkAddr) (clock_second : ℕ) (to_clock_time : ℤ → ℤ) where
  step_faults :
      (i : Input) (d : Device)
      → IsSound d.sim
      → (step p addr clock_second to_clock_time i d ≡ none) ↔ IsFault i d
  unfolding step
  step_faults (scheduler n e) d v = (λ h. cc, λ f. absurd f)
  step_faults (engine e) d v = (λ h. cc, λ f. absurd f)
  step_faults (simulation random) d v =
      let (read, fails) = >>=-eq-none (simulate_read_flow random d.sim) _ in
      let (near, faults) = reading_faults random d.sim v in
      (λ h. near (read h), λ f. fails (faults f))

  -- A history from the start comes to a division by zero exactly when it comes to a reading while
  -- the flow of an outflow is 1 to 9 outside the band of 150 around its target.
  pub mote_2_faults :
      (is : List Input)
      → (run p addr clock_second to_clock_time is (start p addr clock_second to_clock_time) ≡ none)
        ↔ Meets
            (step p addr clock_second to_clock_time)
            IsFault
            is
            (start p addr clock_second to_clock_time)
  mote_2_faults =
      run_faults (step p addr clock_second to_clock_time) IsFault (λ d. IsSound d.sim)
        (start p addr clock_second to_clock_time)
        (λ is d h. mote_2-IsSound p addr clock_second to_clock_time is h) step_faults
