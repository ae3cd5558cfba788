-- ===== src/WaterLevel/Contents.antt =====
-- The simulated contents of Motes/firmwares/water-level-sensor/water-level-sensor.c between the limits of
-- the reservoir: they follow the balance of the flows.
use mathlib.Core.Path.{subst}
use dam_monitoring.Prelude.{
  ℕ, suc, ◌+◌, ◌-◌, ◌*◌, ◌/◌, ◌%◌, ◌≤◌, ◌<◌, ◌≡◌, refl, sym, ◌∙◌, ap, true, false, List, [], ◌∷◌,
  Option, some, ◌>>=◌, ltb, arith, length,
}
use dam_monitoring.Prelude.Int.{ℤ, pos, negsuc, nat_abs, pos_part, neg_part, ◌+ℤ◌, +ℤ_parts}
use dam_monitoring.SensorSim.{max_water_level, surface}
use dam_monitoring.WaterLevel.{
  Sim, limit_level, move_water, signed_var, signed_wl_var, simulate_read_water_level, to_ulong,
  ulong_mod,
}
use dam_monitoring.WaterLevel.Reservoir.{
  limit_level_lem, one_part, signed_var_abs, signed_wl_var_small, rem_int_nonzero,
}

-- The bound on the random part of a step.
abbrev pub swing : ℤ → ℕ
swing balance = nat_abs (balance +ℤ pos 1000)

-- The contents are those of before and `n` times the balance, up to `bound`.
pub record IsMoved (n bound : ℕ) (s s' : Sim) : Type 0 where
  pub kept : s'.balance_flow ≡ s.balance_flow
  at_least :
      s.reservoir + n * pos_part s.balance_flow ≤ s'.reservoir + n * neg_part s.balance_flow + bound
  at_most :
      s'.reservoir + n * neg_part s.balance_flow ≤ s.reservoir + n * pos_part s.balance_flow + bound

-- The level is the depth of the contents, up to the disturbance of four millimetres.
pub record IsDepth (s : Sim) : Type 0 where
  pub deep : s.reservoir / surface ≤ s.water_level + 4
  shallow : s.water_level ≤ s.reservoir / surface + 4

-- Contents that `n` steps keep clear of both limits.
pub record IsClear (n : ℕ) (s : Sim) : Type 0 where
  pub above : 4096 + n * (neg_part s.balance_flow + swing s.balance_flow) ≤ s.reservoir
  pub below :
      s.reservoir + n * (pos_part s.balance_flow + swing s.balance_flow)
      < (max_water_level - 3) * surface

add_word :
    (contents : ℕ) (delta : ℤ)
    → neg_part delta ≤ contents
    → contents + pos_part delta < ulong_mod
    → (contents + to_ulong delta) % ulong_mod + neg_part delta ≡ contents + pos_part delta
add_word contents (pos n) h small = omega arith
add_word contents (negsuc n) h small = omega arith

depth :
    (contents : ℕ) (wl_var : ℤ)
    → nat_abs wl_var ≤ 4
    → 4096 ≤ contents
    → contents < (max_water_level - 3) * surface
    → let level = (contents / surface + to_ulong wl_var) % ulong_mod in
      (level ≤ max_water_level)
      × (contents / surface ≤ level + 4)
      × (level ≤ contents / surface + 4)
depth contents (pos n) small lo hi = omega arith
depth contents (negsuc n) small lo hi = omega arith

moves :
    (contents : ℕ) (balance var : ℤ) (w : ℕ)
    → nat_abs var < w
    → 4096 + (neg_part balance + w) ≤ contents
    → contents + (pos_part balance + w) < (max_water_level - 3) * surface
    → let c = (contents + to_ulong (balance +ℤ var)) % ulong_mod in
      (4096 ≤ c)
      × (c < (max_water_level - 3) * surface)
      × (contents + pos_part balance ≤ c + neg_part balance + w)
      × (c + neg_part balance ≤ contents + pos_part balance + w)
moves contents balance var w small lo hi =
    let parts = +ℤ_parts balance var in
    let part = one_part (balance +ℤ var) in
    let e : neg_part (balance +ℤ var) ≤ contents = omega arith in
    let e' : contents + pos_part (balance +ℤ var) < ulong_mod = omega arith in
    let word = add_word contents (balance +ℤ var) e e' in
    (omega arith, omega arith, omega arith, omega arith)

limits_pass : (s : Sim) → s.water_level ≤ max_water_level → limit_level s ≡ s
limits_pass s h =
    let low : ltb max_water_level s.water_level ≡ false = ground arith in
    rw (limit_level_lem s, low) refl

read_step :
    (random random' : ℕ) (s : Sim)
    → 0 < swing s.balance_flow
    → IsClear 1 s
    → (s' : Sim) × (simulate_read_water_level random random' s ≡ some s')
      × IsMoved 1 (swing s.balance_flow) s s'
      × IsDepth s'
unfolding simulate_read_water_level move_water
read_step random random' s divisor clear =
    let run = rem_int_nonzero random (s.balance_flow +ℤ pos 1000) divisor in
    let var = signed_var (random % swing s.balance_flow) in
    let wl_var = signed_wl_var s.balance_flow (random' % 5) in
    let small : nat_abs var < swing s.balance_flow =
      omega (arith, signed_var_abs (random % swing s.balance_flow)) in
    let (lo, hi, at_least, at_most) =
      moves s.reservoir s.balance_flow var (swing s.balance_flow) small (omega (arith, clear.above))
        (omega (arith, clear.below)) in
    let (fits, deep, shallow) =
      depth ((s.reservoir + to_ulong (s.balance_flow +ℤ var)) % ulong_mod) wl_var
        (signed_wl_var_small s.balance_flow random') lo hi in
    (
      record (move_water var wl_var s) { simulate_timer = true },
      rw (run, limits_pass (move_water var wl_var s) fits) refl,
      record { kept = refl; at_least = omega arith; at_most = omega arith },
      record { deep = deep; shallow = shallow },
    )

first : (n : ℕ) (s : Sim) → IsClear (suc n) s → IsClear 1 s
first n s clear = record { above = grind (arith, clear.above); below = grind (arith, clear.below) }

rest :
    (n : ℕ) (s s1 : Sim) → IsClear (suc n) s → IsMoved 1 (swing s.balance_flow) s s1 → IsClear n s1
rest n s s1 clear moved = record {
  above = rw moved.kept (grind (arith, clear.above, moved.at_least));
  below = rw moved.kept (grind (arith, clear.below, moved.at_most));
}

goes_on :
    (n w : ℕ) (s s1 s' : Sim)
    → IsMoved 1 w s s1
    → IsMoved n (n * w) s1 s'
    → IsMoved (suc n) (suc n * w) s s'
goes_on n w s s1 s' m ms =
    let kept : s1.balance_flow ≡ s.balance_flow = m.kept in
    let at_least : s1.reservoir + n * pos_part s.balance_flow
        ≤ s'.reservoir + n * neg_part s.balance_flow + n * w =
      rw (sym kept) ms.at_least in
    let at_most : s'.reservoir + n * neg_part s.balance_flow
        ≤ s1.reservoir + n * pos_part s.balance_flow + n * w =
      rw (sym kept) ms.at_most in
    record {
      kept = ms.kept ∙ kept;
      at_least = grind (arith, m.at_least);
      at_most = grind (arith, m.at_most);
    }

-- Readings one after the other, each with its two random numbers.
pub readings : List (ℕ × ℕ) → Sim → Option Sim
readings [] s = some s
readings ((r, r') ∷ rs) s = simulate_read_water_level r r' s >>= readings rs

-- Readings, at least one, with the balance unchanged and not -1000, whose contents stay clear of both
-- limits by what the balance and the disturbance can move in that many readings: they are defined, the
-- contents change by the balance times their number, up to the disturbance of each, |balance + 1000|,
-- and the level is the depth of the contents, up to four millimetres.
pub readings_follow :
    (r : ℕ × ℕ) (rs : List (ℕ × ℕ)) (s : Sim)
    → 0 < swing s.balance_flow
    → IsClear (suc (length rs)) s
    → (s' : Sim) × (readings (r ∷ rs) s ≡ some s')
      × IsMoved (suc (length rs)) (suc (length rs) * swing s.balance_flow) s s'
      × IsDepth s'
unfolding readings
readings_follow (r, r') [] s divisor clear =
    let (s1, run, moved, depth) = read_step r r' s divisor clear in
    (
      s1,
      rw run refl,
      record {
        kept = moved.kept;
        at_least = grind (arith, moved.at_least);
        at_most = grind (arith, moved.at_most);
      },
      depth,
    )
readings_follow (r, r') (q ∷ rs) s divisor clear =
    let (s1, run, moved, _) = read_step r r' s divisor (first (suc (length rs)) s clear) in
    let kept : s1.balance_flow ≡ s.balance_flow = moved.kept in
    let (s', runs, moves, depth) =
      readings_follow q rs s1 (rw kept divisor) (rest (suc (length rs)) s s1 clear moved) in
    (
      s',
      ap (λ o. o >>= readings (q ∷ rs)) run ∙ runs,
      goes_on (suc (length rs)) (swing s.balance_flow) s s1 s' moved
          (subst (λ b. IsMoved (suc (length rs)) (suc (length rs) * swing b) s1 s') kept moves),
      depth,
    )
