-- ===== src/WaterLevel/Reservoir.antt =====
-- The simulated water of Motes/firmwares/water-level-sensor/water-level-sensor.c: where a step is
-- defined, the range of the level, and what an empty reservoir does.
use dam_monitoring.Prelude.{
  ℕ, ◌+◌, ◌-◌, ◌*◌, ◌/◌, ◌%◌, ◌≤◌, ◌<◌, ◌≡◌, ◌≢◌, ◌⊎◌, inl, inr, refl, true, false, none, some,
  if◌then◌else◌, Bool-cases, lt→ltb, ltb, arith, ap,
}
use dam_monitoring.Prelude.Int.{
  ℤ, pos, negsuc, nat_abs, pos_part, neg_part, ◌+ℤ◌, ◌-ℤ◌, +ℤ_parts, eq_of_parts,
}
use dam_monitoring.Clib.Arith.{rem_int}
use dam_monitoring.SensorSim.{max_water_level, max_reservoir, surface}
use dam_monitoring.WaterLevel.{
  Sim, limit_level, move_water, signed_var, signed_wl_var, simulate_read_water_level, to_ulong,
  ulong_mod,
}

-- A level in range, and the contents that go with it: the level is their depth up to the disturbance.
pub record IsLevel (s : Sim) : Type 0 where
  pub level_capped : s.water_level ≤ max_water_level
  pub reservoir_capped : s.reservoir < (max_water_level + 5) * surface

pub limit_level_lem :
    (s : Sim)
    → limit_level s ≡ (
        if ltb max_water_level s.water_level
        then record s { water_level = max_water_level; reservoir = max_reservoir }
        else s)
unfolding limit_level
limit_level_lem s = let unsigned : ltb s.water_level 0 ≡ false = ground arith in rw unsigned

depth_capped :
    (contents : ℕ) (wl_var : ℤ)
    → nat_abs wl_var ≤ 4
    → contents < ulong_mod
    → (contents / surface + to_ulong wl_var) % ulong_mod ≤ max_water_level
    → contents < (max_water_level + 5) * surface
depth_capped contents (pos w) small word low = omega arith
depth_capped contents (negsuc w) small word low = omega arith

limit_level-IsLevel :
    (s : Sim) (wl_var : ℤ)
    → nat_abs wl_var ≤ 4
    → s.reservoir < ulong_mod
    → s.water_level ≡ (s.reservoir / surface + to_ulong wl_var) % ulong_mod
    → IsLevel (limit_level s)
limit_level-IsLevel s wl_var small word e = elim (Bool-cases (ltb max_water_level s.water_level)) [
  | inl high ↦
      rw (limit_level_lem s)
        (rw high (record { level_capped = omega arith; reservoir_capped = omega arith }))
  | inr h ↦
      let low : s.water_level ≤ max_water_level = ground arith in
      rw (limit_level_lem s) (
        rw h (record {
          level_capped = low;
          reservoir_capped = depth_capped s.reservoir wl_var small word (omega arith);
        }))
]

pub signed_wl_var_small : (balance : ℤ) (r : ℕ) → nat_abs (signed_wl_var balance (r % 5)) ≤ 4
unfolding signed_wl_var ◌-ℤ◌
signed_wl_var_small balance r = ground arith

move_water-IsLevel :
    (var wl_var : ℤ) (s : Sim)
    → nat_abs wl_var ≤ 4
    → IsLevel (limit_level (move_water var wl_var s))
unfolding move_water
move_water-IsLevel var wl_var s small = limit_level-IsLevel _ wl_var small (omega arith) refl

rem_int-cases :
    (r : ℕ) (d : ℤ)
    → ((d ≡ pos 0) × (rem_int r d ≡ none)) ⊎ ((d ≢ pos 0) × (rem_int r d ≡ some (r % nat_abs d)))
unfolding rem_int
rem_int-cases r (pos n) = ground arith
rem_int-cases r (negsuc n) = inr (λ e. cc, ground arith)

-- A simulation step, from any state and for any random numbers: it is undefined where the balance is
-- -1000 thousandths of a cubic metre per second, and elsewhere it leaves a level of at most 64 m and
-- contents below the 64.005 m that go with it.
pub simulate_read_water_level_lem :
    (random random' : ℕ) (s : Sim)
    → ((s.balance_flow ≡ negsuc 999) × (simulate_read_water_level random random' s ≡ none))
      ⊎ ((s.balance_flow ≢ negsuc 999)
          × ((s' : Sim) × (simulate_read_water_level random random' s ≡ some s') × IsLevel s'))
unfolding simulate_read_water_level
simulate_read_water_level_lem random random' s =
    elim (rem_int-cases random (s.balance_flow +ℤ pos 1000)) [
      | inl (zero_divisor, e) ↦ inl (
        eq_of_parts _ _ (
            omega (
              arith,
              +ℤ_parts s.balance_flow (pos 1000),
              ap pos_part zero_divisor,
              ap neg_part zero_divisor,
            )),
        rw e,
      )
      | inr (divisor, e) ↦
          let wl_var = signed_wl_var s.balance_flow (random' % 5) in
          let var = signed_var (random % nat_abs (s.balance_flow +ℤ pos 1000)) in
          let level =
            move_water-IsLevel var wl_var s (signed_wl_var_small s.balance_flow random') in
          inr (
            λ b. divisor (
                eq_of_parts _ _ (
                  omega (arith, +ℤ_parts s.balance_flow (pos 1000), ap pos_part b, ap neg_part b))),
            (
              record (limit_level (move_water var wl_var s)) { simulate_timer = true },
              rw e,
              record {
                level_capped = level.level_capped;
                reservoir_capped = level.reservoir_capped;
              },
            ),
          )
    ]

pub one_part : (z : ℤ) → (pos_part z ≡ 0) ⊎ (neg_part z ≡ 0)
one_part (pos n) = inr refl
one_part (negsuc n) = inl refl

pub signed_var_abs : (var : ℕ) → nat_abs (signed_var var) ≡ var
unfolding signed_var ◌-ℤ◌
signed_var_abs var = ground arith

wraps :
    (contents : ℕ) (delta : ℤ)
    → contents < neg_part delta
    → neg_part delta ≤ 270000
    → ulong_mod - 270000 ≤ (contents + to_ulong delta) % ulong_mod
wraps contents (pos n) h small = absurd (omega arith)
wraps contents (negsuc n) h small = omega arith

deep :
    (contents : ℕ) (wl_var : ℤ)
    → contents < ulong_mod
    → ulong_mod - 270000 ≤ contents
    → nat_abs wl_var ≤ 4
    → max_water_level < (contents / surface + to_ulong wl_var) % ulong_mod
deep contents (pos w) word h small = omega arith
deep contents (negsuc w) word h small = omega arith

move_water_overflows :
    (var wl_var : ℤ) (s : Sim)
    → s.reservoir < neg_part (s.balance_flow +ℤ var)
    → neg_part (s.balance_flow +ℤ var) ≤ 270000
    → nat_abs wl_var ≤ 4
    → let s' = limit_level (move_water var wl_var s) in
      (s'.water_level ≡ max_water_level) × (s'.reservoir ≡ max_reservoir)
unfolding move_water
move_water_overflows var wl_var s drains small w =
    let full =
      deep ((s.reservoir + to_ulong (s.balance_flow +ℤ var)) % ulong_mod) wl_var (omega arith)
        (wraps s.reservoir (s.balance_flow +ℤ var) drains small) w in
    rw (limit_level_lem (move_water var wl_var s), lt→ltb _ _ full) (refl, refl)

pub rem_int_nonzero : (r : ℕ) (d : ℤ) → 0 < nat_abs d → rem_int r d ≡ some (r % nat_abs d)
unfolding rem_int
rem_int_nonzero r d h = ground arith

drained :
    (balance : ℤ) (loss var : ℕ)
    → balance ≡ negsuc loss
    → 1000 ≤ loss
    → loss < 135000
    → var < loss - 999
    → (1000 < neg_part (balance +ℤ signed_var var))
      × (neg_part (balance +ℤ signed_var var) ≤ 270000)
drained balance loss var e lo hi below = rw e (
    omega (
      arith,
      +ℤ_parts (negsuc loss) (signed_var var),
      signed_var_abs var,
      one_part (negsuc loss +ℤ signed_var var),
    ))

-- Where the reservoir holds at most 1000 litres and the stored balance is from -135000 to -1001, a
-- loss of more than a cubic metre a second, the unsigned contents wrap: the step is defined and reports
-- the greatest level and a full reservoir.
pub empty_reads_full :
    (random random' loss : ℕ) (s : Sim)
    → s.balance_flow ≡ negsuc loss
    → 1000 ≤ loss
    → loss < 135000
    → s.reservoir ≤ 1000
    → (s' : Sim) × (simulate_read_water_level random random' s ≡ some s')
      × (s'.water_level ≡ max_water_level)
      × (s'.reservoir ≡ max_reservoir)
unfolding simulate_read_water_level
empty_reads_full random random' loss s e lo hi low =
    let wl_var = signed_wl_var s.balance_flow (random' % 5) in
    let var = random % nat_abs (s.balance_flow +ℤ pos 1000) in
    let divisor : nat_abs (s.balance_flow +ℤ pos 1000) ≡ loss - 999 =
      rw e (omega (arith, +ℤ_parts (negsuc loss) (pos 1000), one_part (negsuc loss +ℤ pos 1000))) in
    let below : var < loss - 999 = rw divisor (omega arith) in
    let run = rem_int_nonzero random (s.balance_flow +ℤ pos 1000) (omega arith) in
    let (drains, small) = drained s.balance_flow loss var e lo hi below in
    let (level, contents) =
      move_water_overflows (signed_var var) wl_var s (omega arith) small
        (signed_wl_var_small s.balance_flow random') in
    (
      record (limit_level (move_water (signed_var var) wl_var s)) { simulate_timer = true },
      rw run,
      level,
      contents,
    )
