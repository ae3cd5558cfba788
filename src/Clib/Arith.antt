-- ===== src/Clib/Arith.antt =====
-- Integer operations of C that a zero divisor leaves undefined: they give `none` there.
use dam_monitoring.Prelude.{ℕ, ◌%◌, Option, none, some, ◌==◌, if◌then◌else◌}
use dam_monitoring.Prelude.Int.{ℤ, nat_abs}

-- `r % d` for an `r` that is not negative: the remainder has the sign of `r`.
unfoldable pub rem_int : ℕ → ℤ → Option ℕ
rem_int r d = if nat_abs d == 0 then none else some (r % nat_abs d)
