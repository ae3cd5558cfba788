-- ===== src/FlowSensor/Settle.antt =====
-- `simulate_read_flow` (Motes/firmwares/flow-sensor/flow-sensor.c) over time: where it is defined,
-- the limits of the flow, and that it settles in the band around its target.
use Prim.Native.Nat.{min}
use native.Mathlib.Decide.{dec_lt}
use dam_monitoring.Prelude.{
  ℕ, zero, suc, ◌+◌, ◌-◌, ◌*◌, ◌/◌, ◌%◌, ◌≤◌, ◌<◌, ◌≡◌, ◌⊎◌, inl, inr, refl, List, [], ◌∷◌, Option,
  none, some, ◌>>=◌, length, arith,
}
use dam_monitoring.Prelude.Int.{ℤ, pos}
use dam_monitoring.FlowSensor.{simulate_flow}
use dam_monitoring.FlowSensor.Steps.{
  raised, lowered, simulate_flow_low, simulate_flow_high, simulate_flow_steady,
  simulate_flow_closed,
}

-- How far a flow lies outside the band of 150 around its target.
unfoldable pub excess : ℕ → ℕ → ℕ
excess target flow = (flow - (target + 150)) + (target - (flow + 150))

band_cases :
    (target flow : ℕ)
    → ((d : ℕ) × (0 < d) × (target ≡ flow + d + 150))
      ⊎ (((d : ℕ) × (0 < d) × (flow ≡ target + 150 + d))
          ⊎ ((target ≤ flow + 150) × (flow ≤ target + 150)))
band_cases target flow = elim (dec_lt (flow + 150) target) [
  | yes p ↦ inl (target - (flow + 150), omega arith, omega arith)
  | no p ↦ elim (dec_lt (target + 150) flow) [
    | yes q ↦ inr (inl (flow - (target + 150), omega arith, omega arith))
    | no q ↦ inr (inr (omega arith, omega arith))
  ]
]

near_cases : (n : ℕ) → ((0 < n) × (n < 10)) ⊎ ((n ≡ 0) ⊎ (10 ≤ n))
near_cases n = elim (dec_lt 0 n) [
  | yes p ↦ elim (dec_lt n 10) [ yes q ↦ inl (p, q) | no q ↦ inr (inr (omega arith)) ]
  | no p ↦ inr (inl (omega arith))
]

-- A flow at a distance of 1 to 9 from the band: the step divides by zero.
pub simulate_flow_undefined :
    (random target flow : ℕ)
    → 0 < excess target flow
    → excess target flow < 10
    → simulate_flow random (pos target) (pos flow) ≡ none
unfolding excess
simulate_flow_undefined random target flow near close = elim (band_cases target flow) [
  | inl (d, p, e) ↦ rw (e, simulate_flow_low random flow d p) (ground arith)
  | inr (inl (d, p, e)) ↦ rw (e, simulate_flow_high random target d p) (ground arith)
  | inr (inr (lo, hi)) ↦ absurd (omega arith)
]

-- What one step leaves: a flow that is not negative nor above the band, at least 100 nearer to it
-- than before, and 0 where the target is 0.
pub record Approaches (target flow : ℕ) (next : Option ℤ) : Type 0 where
  pub value : ℕ
  pub given : next ≡ some (pos value)
  pub capped : value ≤ target + 150
  nearer : excess target value ≤ excess target flow - 100

step_small : (random d : ℕ) → 10 ≤ d → random % (d / 10) < d
step_small random d h = grind arith

raised-Approaches :
    (random flow d : ℕ) → 10 ≤ d → Approaches (flow + d + 150) flow (raised random flow d)
unfolding excess
raised-Approaches random flow d h = record {
  value = flow + (random % (d / 10) + 100);
  given = ground arith;
  capped = omega (arith, step_small random d h);
  nearer = omega (arith, step_small random d h);
}

lowered-Approaches :
    (random target d : ℕ)
    → 10 ≤ d
    → Approaches target (target + 150 + d) (lowered random (target + 150) d)
unfolding excess
lowered-Approaches random target d h = record {
  value = min (target + 150) (target + 150 + d - (random % (d / 10) + 100));
  given = ground arith;
  capped = omega arith;
  nearer = omega (arith, step_small random d h);
}

in_band-Approaches :
    (random target flow : ℕ)
    → target ≤ flow + 150
    → flow ≤ target + 150
    → Approaches target flow (simulate_flow random (pos target) (pos flow))
unfolding excess
in_band-Approaches random zero flow lo hi =
    rw (simulate_flow_closed random flow hi)
      (record { value = 0; given = refl; capped = omega arith; nearer = omega arith })
in_band-Approaches random (suc t) flow lo hi =
    rw (simulate_flow_steady random (suc t) flow (omega arith) lo hi) (record {
      value = random % 301 + suc t - 150;
      given = refl;
      capped = omega arith;
      nearer = omega arith;
    })

simulate_flow-Approaches :
    (random target flow : ℕ)
    → (excess target flow ≡ 0) ⊎ (10 ≤ excess target flow)
    → Approaches target flow (simulate_flow random (pos target) (pos flow))
unfolding excess
simulate_flow-Approaches random target flow h = elim (band_cases target flow) [
  | inl (d, p, e) ↦
      rw (e, simulate_flow_low random flow d p) (raised-Approaches random flow d (ground arith))
  | inr (inl (d, p, e)) ↦
      rw (e, simulate_flow_high random target d p)
        (lowered-Approaches random target d (ground arith))
  | inr (inr (lo, hi)) ↦ in_band-Approaches random target flow lo hi
]

-- For every random number, target and flow that are not negative: either the flow is 1 to 9 outside
-- the band of 150 around the target, and the step is undefined; or it is in the band or 10 and more
-- outside, and the step gives a flow that is not negative, at most 150 above the target, and in the
-- band or at least 100 nearer to it.
pub simulate_flow_lem :
    (random target flow : ℕ)
    → ((0 < excess target flow)
        × (excess target flow < 10)
        × (simulate_flow random (pos target) (pos flow) ≡ none))
      ⊎ (((excess target flow ≡ 0) ⊎ (10 ≤ excess target flow))
          × Approaches target flow (simulate_flow random (pos target) (pos flow)))
simulate_flow_lem random target flow = elim (near_cases (excess target flow)) [
  | inl (near, close) ↦ inl (near, close, simulate_flow_undefined random target flow near close)
  | inr far ↦ inr (far, simulate_flow-Approaches random target flow far)
]

pub simulate_flow_range :
    (random target flow : ℕ) {next : ℤ}
    → simulate_flow random (pos target) (pos flow) ≡ some next
    → (n : ℕ) × (next ≡ pos n) × (n ≤ target + 150)
simulate_flow_range random target flow e = elim (near_cases (excess target flow)) [
  | inl (near, close) ↦ absurd (cc (simulate_flow_undefined random target flow near close))
  | inr far ↦
      let a = simulate_flow-Approaches random target flow far in (a.value, cc (a.given), a.capped)
]

-- A flow in the band stays there.
pub simulate_flow_stays :
    (random target flow : ℕ) {next : ℤ}
    → excess target flow ≡ 0
    → simulate_flow random (pos target) (pos flow) ≡ some next
    → (n : ℕ) × (next ≡ pos n) × (n ≤ target + 150) × (excess target n ≡ 0)
simulate_flow_stays random target flow calm e = elim (simulate_flow_lem random target flow) [
  | inl (near, close, fault) ↦ absurd (omega arith)
  | inr (far, a) ↦ (a.value, cc (a.given), a.capped, omega (arith, a.nearer))
]

-- A flow above the band falls into it in one step, however far the target is.
pub simulate_flow_drops :
    (random target flow : ℕ)
    → target + 160 ≤ flow
    → (value : ℕ) × (simulate_flow random (pos target) (pos flow) ≡ some (pos value))
      × (target + 50 ≤ value)
      × (value ≤ target + 150)
simulate_flow_drops random target flow h =
    let (d, e, far) = above_band target flow h in
    (
      min (target + 150) (target + 150 + d - (random % (d / 10) + 100)),
      rw (e, simulate_flow_high random target d (omega arith)) (ground arith),
      omega (arith, step_small random d far),
      omega arith,
    )
  where
    above_band :
        (target flow : ℕ) → target + 160 ≤ flow → (d : ℕ) × (flow ≡ target + 150 + d) × (10 ≤ d)
    above_band target flow h = (flow - (target + 150), omega arith, omega arith)

-- The calls of the timer: one step for each random number.
unfoldable pub simulate_flows : List ℕ → ℤ → ℤ → Option ℤ
simulate_flows [] target flow = some flow
simulate_flows (r ∷ rs) target flow = simulate_flow r target flow >>= simulate_flows rs target

-- With the target unchanged, the calls that are needed to close the distance at 100 a call leave the
-- flow in the band, if none of them is undefined, and it stays there.
pub simulate_flows_settle :
    (rs : List ℕ) (target flow : ℕ) {next : ℤ}
    → excess target flow ≤ 100 * length rs
    → simulate_flows rs (pos target) (pos flow) ≡ some next
    → (value : ℕ) × (next ≡ pos value) × (excess target value ≡ 0)
unfolding simulate_flows
simulate_flows_settle [] target flow h e = (flow, ground arith, omega arith)
simulate_flows_settle (r ∷ rs) target flow h e = elim (near_cases (excess target flow)) [
  | inl (near, close) ↦ absurd (cc (rw (simulate_flow_undefined r target flow near close) at e))
  | inr far ↦
      let a = simulate_flow-Approaches r target flow far in
      simulate_flows_settle rs target a.value (omega (arith, a.nearer)) (rw a.given at e)
]

first_step :
    (r target flow k : ℕ)
    → target ≡ flow + (100 + k) + 150
    → k < 10
    → simulate_flow r (pos target) (pos flow) ≡ some (pos (flow + (r % 10 + 100)))
first_step r target flow k e hi =
    let tens : (100 + k) / 10 ≡ 10 = omega arith in
    rw (e, simulate_flow_low r flow (100 + k) (omega arith), tens)

-- A flow 101 to 109 below the band, as a gate that opens step by step leaves it, and a random number
-- whose last digit is less than what exceeds 100: the second call divides by zero.
simulate_flows_fault :
    (r r' target flow k : ℕ)
    → target ≡ flow + 250 + k
    → r % 10 < k
    → k < 10
    → simulate_flows (r ∷ r' ∷ []) (pos target) (pos flow) ≡ none
unfolding simulate_flows excess
simulate_flows_fault r r' target flow k e lo hi =
    rw (first_step r target flow k (omega arith) hi)
      (rw (simulate_flow_undefined r' target (flow + (r % 10 + 100)) (omega arith) (omega arith)))
