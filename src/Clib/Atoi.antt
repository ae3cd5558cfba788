-- ===== src/Clib/Atoi.antt =====
-- `atoi`: white space, a sign, and digits up to the first byte that is none. A number that `int`
-- cannot hold is undefined in C; here it saturates, as the target's library does (its `atoi` is a
-- `strtol` over a 32-bit `long`).
use dam_monitoring.Prelude.{
  ℕ, ◌+◌, ◌-◌, ◌*◌, ◌≤◌, ◌≡◌, Bool, true, false, ◌&&◌, ◌||◌, [], ◌∷◌, arith, ltb, leb, ◌==◌,
  if◌then◌else◌,
}
use dam_monitoring.Prelude.Int.{ℤ, pos, negsuc, ◌-ℤ◌, ◌≤ℤ◌}
use dam_monitoring.Clib.Text.{Text}

abbrev pub int_max : ℕ
int_max = 2147483647

unfoldable pub is_digit : ℕ → Bool
is_digit c = leb b'0' c && leb c b'9'

-- The six bytes of `isspace`.
is_space : ℕ → Bool
is_space c = c == 32 || leb 9 c && leb c 13

skip_spaces : Text → Text
unfolding is_space
skip_spaces [] = []
skip_spaces (c ∷ cs) = if is_space c then skip_spaces cs else c ∷ cs

unfoldable pub digits_value : ℕ → Text → ℕ
unfolding is_digit
digits_value acc [] = acc
digits_value acc (c ∷ cs) =
    let rest = digits_value (acc * 10 + (c - b'0')) cs in if is_digit c then rest else acc

saturate : Bool → ℕ → ℤ
saturate negative n =
    if negative
    then (if ltb int_max n then negsuc int_max else pos 0 -ℤ pos n)
    else (if ltb int_max n then pos int_max else pos n)

signed : Text → ℤ
unfolding saturate digits_value
signed [] = pos 0
signed (c ∷ cs) =
    if c == b'-'
    then saturate true (digits_value 0 cs)
    else (if c == b'+'
        then saturate false (digits_value 0 cs)
        else saturate false (digits_value 0 (c ∷ cs)))

unfoldable pub atoi : Text → ℤ
unfolding skip_spaces signed ◌-ℤ◌
atoi s = signed (skip_spaces s)

-- The result is an `int`.
atoi_range : (s : Text) → (negsuc int_max ≤ℤ atoi s) × (atoi s ≤ℤ pos int_max)
unfolding atoi
atoi_range s = signed_range (skip_spaces s)
  where
    signed_range : (t : Text) → (negsuc int_max ≤ℤ signed t) × (signed t ≤ℤ pos int_max)
    signed_range [] = ground arith
    signed_range (c ∷ cs) = ground arith

-- A text that begins with a digit is read as an unsigned number.
pub atoi-digits :
    (c : ℕ) (cs : Text)
    → is_digit c ≡ true
    → digits_value 0 (c ∷ cs) ≤ int_max
    → atoi (c ∷ cs) ≡ pos (digits_value 0 (c ∷ cs))
unfolding atoi digits_value
atoi-digits c cs d h = ground arith

pub atoi-minus :
    (cs : Text) → digits_value 0 cs ≤ int_max → atoi (b'-' ∷ cs) ≡ pos 0 -ℤ pos (digits_value 0 cs)
unfolding atoi
atoi-minus cs h = ground arith
