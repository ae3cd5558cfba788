-- ===== src/FlowSensor/Faults.antt =====
-- Where the process of Motes/firmwares/flow-sensor/flow-sensor.c divides by zero.
use dam_monitoring.History.Faults.{Meets, run_faults}
use dam_monitoring.Prelude.{ℕ, ◌<◌, ◌≡◌, List, none, >>=-eq-none, ◌↔◌, inl, inr}
use dam_monitoring.Prelude.Int.{ℤ, pos}
use dam_monitoring.Common.Json.{JsonParser}
use dam_monitoring.Common.Urn.{LinkAddr}
use dam_monitoring.SensorSim.{Channel, get}
use dam_monitoring.FlowSensor.{FlowDevice, simulate_flow, simulate_read_flow, start}
use dam_monitoring.FlowSensor.Settle.{excess, simulate_flow_undefined, simulate_flow_lem}
use dam_monitoring.FlowSensor.Range.{IsInRange}
use dam_monitoring.FlowSensor.Device.{
  Input, scheduler, engine, simulation, step, run, run-start-IsInRange,
}

-- A flow that is 1 to 9 outside the band of 150 around its target.
abbrev pub IsNear : ℤ → ℤ → Type 0
IsNear target flow =
    (t : ℕ) × (f : ℕ) × (target ≡ pos t) × (flow ≡ pos f) × (0 < excess t f) × (excess t f < 10)

-- A simulation step of flows that are not negative is undefined exactly there.
pub simulate_flow_faults :
    (random t f : ℕ) {target flow : ℤ}
    → target ≡ pos t
    → flow ≡ pos f
    → (simulate_flow random target flow ≡ none) ↔ IsNear target flow
simulate_flow_faults random t f et ef = (
  λ h. elim (simulate_flow_lem random t f) [
    | inl (near, close, e) ↦ (t, f, et, ef, near, close)
    | inr (far, a) ↦ absurd (cc (a.given, h, et, ef))
  ],
  λ (t', f', et', ef', near, close).
      rw (et', ef') (simulate_flow_undefined random t' f' near close),
)

-- A reading of a flow in that place.
abbrev pub IsFault : Channel → Input → FlowDevice → Type 0
IsFault c (simulation r) d = IsNear (get d.sim.target_flow c) (get d.sim.flow c)
IsFault c _ d = ⊥

module _ (p : JsonParser) (addr : LinkAddr) (clock_second : ℕ) (to_clock_time : ℤ → ℤ)
    (c : Channel) where
  step_faults :
      (i : Input) (d : FlowDevice)
      → IsInRange c d.sim
      → (step p addr clock_second to_clock_time c i d ≡ none) ↔ IsFault c i d
  unfolding step simulate_read_flow
  step_faults (scheduler n e) d v = (λ h. cc, λ f. absurd f)
  step_faults (engine e) d v = (λ h. cc, λ f. absurd f)
  step_faults (simulation r) d v =
      let (read, fails) = >>=-eq-none (simulate_read_flow c r d.sim) _ in
      let (moved, stays) =
        >>=-eq-none (simulate_flow r (get d.sim.target_flow c) (get d.sim.flow c)) _ in
      let (near, faults) = simulate_flow_faults r _ _ v.target_exact v.flow_exact in
      (λ h. near (moved (read h)), λ f. fails (stays (faults f)))

  -- A history from the start comes to a division by zero exactly when it comes to a reading while
  -- the flow is 1 to 9 outside the band of 150 around its target.
  pub flow_faults :
      (is : List Input)
      → (run p addr clock_second to_clock_time c is (start p addr clock_second to_clock_time c)
          ≡ none)
        ↔ Meets
            (step p addr clock_second to_clock_time c)
            (IsFault c)
            is
            (start p addr clock_second to_clock_time c)
  flow_faults =
      run_faults (step p addr clock_second to_clock_time c) (IsFault c) (λ d. IsInRange c d.sim)
        (start p addr clock_second to_clock_time c)
        (λ is d h. run-start-IsInRange p addr clock_second to_clock_time c is h) step_faults
