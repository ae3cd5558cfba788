-- ===== src/WaterLevel/Faults.antt =====
-- Where the process of Motes/firmwares/water-level-sensor/water-level-sensor.c divides by zero.
use dam_monitoring.History.Faults.{Meets, run_faults}
use dam_monitoring.Prelude.{ℕ, ◌≡◌, List, none, >>=-eq-none, ◌↔◌, inl, inr}
use dam_monitoring.Prelude.Int.{ℤ, negsuc}
use dam_monitoring.Common.Json.{JsonParser}
use dam_monitoring.Common.Urn.{LinkAddr}
use dam_monitoring.WaterLevel.{WaterDevice, simulate_read_water_level, start}
use dam_monitoring.WaterLevel.Reservoir.{simulate_read_water_level_lem}
use dam_monitoring.WaterLevel.Device.{Input, scheduler, engine, simulation, step, run}

-- A reading with a balance of -1 cubic metre per second.
abbrev pub IsFault : Input → WaterDevice → Type 0
IsFault (simulation r r') d = d.sim.balance_flow ≡ negsuc 999
IsFault _ d = ⊥

module _ (p : JsonParser) (addr : LinkAddr) (clock_second : ℕ) (to_clock_time : ℤ → ℤ) where
  step_faults :
      (i : Input) (d : WaterDevice)
      → Unit {0}
      → (step p addr clock_second to_clock_time i d ≡ none) ↔ IsFault i d
  unfolding step
  step_faults (scheduler n e) d v = (λ h. cc, λ f. absurd f)
  step_faults (engine e) d v = (λ h. cc, λ f. absurd f)
  step_faults (simulation r r') d v =
      let (read, fails) = >>=-eq-none (simulate_read_water_level r r' d.sim) _ in
      elim (simulate_read_water_level_lem r r' d.sim) [
        | inl (b, e) ↦ (λ h. b, λ f. fails e)
        | inr (b, (s, e, level)) ↦ (λ h. absurd (cc (e, read h)), λ f. absurd (b f))
      ]

  -- A history from the start comes to a division by zero exactly when it comes to a reading while
  -- the stored balance is -1000 thousandths of a cubic metre per second.
  pub level_faults :
      (is : List Input)
      → (run p addr clock_second to_clock_time is (start p addr clock_second to_clock_time) ≡ none)
        ↔ Meets
            (step p addr clock_second to_clock_time)
            IsFault
            is
            (start p addr clock_second to_clock_time)
  level_faults =
      run_faults (step p addr clock_second to_clock_time) IsFault (λ d. Unit {0})
        (start p addr clock_second to_clock_time) (λ is d h. tt) step_faults
