-- ===== src/FlowSensor/Steps.antt =====
-- The branches of `simulate_read_flow` (Motes/firmwares/flow-sensor/flow-sensor.c), with the
-- integers that occur there computed.
use Prim.Native.Nat.{min}
use dam_monitoring.Prelude.{
  ℕ, ◌+◌, ◌-◌, ◌/◌, ◌≤◌, ◌<◌, ◌≡◌, refl, true, false, Option, none, some, ◌>>=◌, Bool-cases, ap,
  inl, inr, arith, ◌==◌, ◌%◌, if◌then◌else◌,
}
use dam_monitoring.Prelude.Int.{
  ℤ, ltb_ℤ, pos, ◌+ℤ◌, ◌-ℤ◌, -ℤ_parts, +ℤ_parts, int_laws, eq_of_parts,
}
use dam_monitoring.SensorSim.{linear_var, steady_var}
use dam_monitoring.FlowSensor.{limit_flow, next_flow, simulate_flow}

-- `LINEAR_VAR` at a distance `d` from its bound.
abbrev linear : ℕ → ℕ → Option ℤ
linear random d = if d / 10 == 0 then none else some (pos (random % (d / 10) + 100))

linear_var_below :
    (random : ℕ) (bound : ℤ) (flow d : ℕ)
    → bound ≡ pos (flow + d)
    → 0 < d
    → linear_var random bound (pos flow) ≡ linear random d
unfolding linear_var ◌-ℤ◌
linear_var_below random bound flow d e h = rw e (ground arith)

linear_var_above :
    (random : ℕ) (bound : ℤ) (b d : ℕ)
    → bound ≡ pos b
    → linear_var random bound (pos (b + d)) ≡ linear random d
unfolding linear_var ◌-ℤ◌
linear_var_above random bound b d e = rw e (ground arith)

below_test : (flow d : ℕ) → 0 < d → ltb_ℤ (pos flow) (pos (flow + d)) ≡ true
below_test flow d h = ground arith

above_test : (a b : ℕ) → b ≤ a → ltb_ℤ (pos a) (pos b) ≡ false
above_test a b h = ground arith

next_flow_low :
    (random flow d : ℕ) (target max : ℤ)
    → 0 < d
    → next_flow random target max (pos (flow + d)) (pos flow)
      ≡ (linear random d >>= λ v. some (pos flow +ℤ v))
unfolding next_flow
next_flow_low random flow d target max h =
    rw (below_test flow d h, linear_var_below random _ flow d refl h)

next_flow_high :
    (random b d : ℕ) (target min : ℤ)
    → 0 < d
    → ltb_ℤ (pos (b + d)) min ≡ false
    → next_flow random target (pos b) min (pos (b + d))
      ≡ (linear random d >>= λ v. some (pos (b + d) -ℤ v))
unfolding next_flow
next_flow_high random b d target min h low =
    rw (low, below_test b d h, linear_var_above random _ b d refl)

not_low : (target d : ℕ) → ltb_ℤ (pos (target + 150 + d)) (pos target -ℤ pos 150) ≡ false
not_low target d = ground (arith, -ℤ_parts (pos target) (pos 150))

limit_flow_id : (m n : ℕ) → n ≤ m → limit_flow (pos m) (pos n) ≡ pos n
unfolding limit_flow
limit_flow_id m n h = ground arith

limit_flow_sub : (m a b : ℕ) → limit_flow (pos m) (pos a -ℤ pos b) ≡ pos (min m (a - b))
unfolding limit_flow ◌-ℤ◌
limit_flow_sub m a b = ground arith

max_value-eq : (target : ℕ) → pos target +ℤ pos 150 ≡ pos (target + 150)
max_value-eq target = eq_of_parts _ _ (omega (arith, +ℤ_parts (pos target) (pos 150)))

min_value-eq : (flow : ℕ) → pos (flow + 150) -ℤ pos 150 ≡ pos flow
min_value-eq flow = eq_of_parts _ _ (omega (arith, -ℤ_parts (pos (flow + 150)) (pos 150)))

band-eq : (t : ℕ) → pos (t + 150) -ℤ (pos t -ℤ pos 150) +ℤ pos 1 ≡ pos 301
band-eq t = eq_of_parts _ _ (omega int_laws)

-- The flow after a step by `v` below the band, and above it.
abbrev pub raised : ℕ → ℕ → ℕ → Option ℤ
raised random flow d = if d / 10 == 0 then none else some (pos (flow + (random % (d / 10) + 100)))

abbrev pub lowered : ℕ → ℕ → ℕ → Option ℤ
lowered random b d =
    if d / 10 == 0 then none else some (pos (min b (b + d - (random % (d / 10) + 100))))

raise_limit :
    (random flow d : ℕ)
    → 0 < d / 10
    → some (limit_flow (pos (flow + d + 150 + 150)) (pos flow +ℤ pos (random % (d / 10) + 100)))
      ≡ some (pos (flow + (random % (d / 10) + 100)))
raise_limit random flow d h =
    let sum : pos flow +ℤ pos (random % (d / 10) + 100) ≡ pos (flow + (random % (d / 10) + 100)) =
      eq_of_parts _ _ (omega int_laws) in
    rw sum (
      ap some
        (limit_flow_id (flow + d + 150 + 150) (flow + (random % (d / 10) + 100)) (grind arith)))

pub simulate_flow_low :
    (random flow d : ℕ)
    → 0 < d
    → simulate_flow random (pos (flow + d + 150)) (pos flow) ≡ raised random flow d
unfolding simulate_flow
simulate_flow_low random flow d h =
    rw (max_value-eq (flow + d + 150), min_value-eq (flow + d), next_flow_low random flow d _ _ h)
      (elim (Bool-cases (d / 10 == 0)) [
        | inl e ↦ rw e
        | inr e ↦ rw e (raise_limit random flow d (ground arith))
      ])

pub simulate_flow_high :
    (random target d : ℕ)
    → 0 < d
    → simulate_flow random (pos target) (pos (target + 150 + d)) ≡ lowered random (target + 150) d
unfolding simulate_flow
simulate_flow_high random target d h =
    rw
      (
        max_value-eq target,
        next_flow_high random (target + 150) d (pos target) (pos target -ℤ pos 150) h
            (not_low target d),
      )
      (elim (Bool-cases (d / 10 == 0)) [
        | inl e ↦ rw e
        | inr e ↦
            rw e
              (ap some (limit_flow_sub (target + 150) (target + 150 + d) (random % (d / 10) + 100)))
      ])

next_flow_steady :
    (random target flow : ℕ)
    → target ≤ flow + 150
    → flow ≤ target + 150
    → next_flow random (pos target) (pos (target + 150)) (pos target -ℤ pos 150) (pos flow)
      ≡ steady_var (pos target) random (pos (target + 150)) (pos target -ℤ pos 150)
unfolding next_flow
next_flow_steady random target flow lo hi =
    let low : ltb_ℤ (pos flow) (pos target -ℤ pos 150) ≡ false =
      ground (arith, -ℤ_parts (pos target) (pos 150)) in
    rw (low, above_test (target + 150) flow hi)

steady_var_band :
    (random target : ℕ)
    → 0 < target
    → steady_var (pos target) random (pos (target + 150)) (pos target -ℤ pos 150)
      ≡ some (pos (random % 301) +ℤ (pos target -ℤ pos 150))
unfolding steady_var
steady_var_band random target h = rw (band-eq target) (ground arith)

steady_limit :
    (target r : ℕ)
    → r < 301
    → limit_flow (pos (target + 150)) (pos r +ℤ (pos target -ℤ pos 150)) ≡ pos (r + target - 150)
unfolding limit_flow
steady_limit target r h =
    ground (arith, +ℤ_parts (pos r) (pos target -ℤ pos 150), -ℤ_parts (pos target) (pos 150))

pub simulate_flow_steady :
    (random target flow : ℕ)
    → 0 < target
    → target ≤ flow + 150
    → flow ≤ target + 150
    → simulate_flow random (pos target) (pos flow) ≡ some (pos (random % 301 + target - 150))
unfolding simulate_flow
simulate_flow_steady random target flow h lo hi =
    rw
      (
        max_value-eq target,
        next_flow_steady random target flow lo hi,
        steady_var_band random target h,
      )
      (ap some (steady_limit target (random % 301) (omega arith)))

pub simulate_flow_closed :
    (random flow : ℕ) → flow ≤ 150 → simulate_flow random (pos 0) (pos flow) ≡ some (pos 0)
unfolding simulate_flow steady_var
simulate_flow_closed random flow h =
    rw (max_value-eq 0, next_flow_steady random 0 flow (omega arith) (omega arith))
