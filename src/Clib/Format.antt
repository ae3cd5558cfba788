-- ===== src/Clib/Format.antt =====
-- The conversions `%d` and `%02x` of `snprintf`.
use mathlib.Core.List.{append-nil, append_assoc}
use native.Mathlib.Nat.{pow-suc}
use dam_monitoring.Prelude.{
  ℕ, zero, suc, ◌+◌, ◌-◌, ◌*◌, ◌/◌, ◌%◌, ◌^◌, ◌≤◌, ◌<◌, ◌≡◌, ap, ◌∙◌, inl, inr, true, [], ◌∷◌, ◌++◌,
  arith, ltb, if◌then◌else◌, length, length-append, Bool-cases,
}
use dam_monitoring.Prelude.Int.{ℤ, pos, negsuc, nat_abs, eq_of_parts, -ℤ_parts}
use dam_monitoring.Clib.Text.{Text}
use dam_monitoring.Clib.Atoi.{int_max, is_digit, digits_value, atoi, atoi-digits, atoi-minus}

-- The decimal digits of `n`, on fuel: `fuel` digits are enough for `n < 10 ^ fuel`.
decimal_digits : ℕ → ℕ → Text
decimal_digits zero n = []
decimal_digits (suc fuel) n =
    let front = decimal_digits fuel (n / 10) in
    if ltb n 10 then (b'0' + n) ∷ [] else front ++ (b'0' + n % 10) ∷ []

-- `%d` of an `int`, which has ten digits at most.
unfoldable pub format_d : ℤ → Text
unfolding decimal_digits
format_d (pos n) = decimal_digits 10 n
format_d (negsuc n) = b'-' ∷ decimal_digits 10 (suc n)

unfoldable pub hex_digit : ℕ → ℕ
hex_digit n = if ltb n 10 then b'0' + n else b'a' + (n - 10)

-- `%02x` of a byte.
unfoldable pub format_02x : ℕ → Text
format_02x b = hex_digit (b / 16) ∷ hex_digit (b % 16) ∷ []

length-decimal_digits : (fuel n : ℕ) → length (decimal_digits fuel n) ≤ fuel
unfolding decimal_digits
length-decimal_digits zero n = omega arith
length-decimal_digits (suc fuel) n = ground (
  arith,
  length-decimal_digits fuel (n / 10),
  length-append (decimal_digits fuel (n / 10)) ((b'0' + n % 10) ∷ []),
)

-- An `int` is printed in eleven bytes at most.
pub length-format_d : (v : ℤ) → length (format_d v) ≤ 11
unfolding format_d
length-format_d (pos n) = omega (arith, length-decimal_digits 10 n)
length-format_d (negsuc n) = omega (arith, length-decimal_digits 10 (suc n))

digit_is_digit : (n : ℕ) → n < 10 → is_digit (b'0' + n) ≡ true
unfolding is_digit
digit_is_digit n h = ground arith

digit_first :
    (n : ℕ) (rest : Text) → n < 10 → digits_value 0 ((b'0' + n) ∷ rest) ≡ digits_value n rest
unfolding digits_value
digit_first n rest h =
    let e : 0 * 10 + (b'0' + n - b'0') ≡ n = omega arith in
    let d = digit_is_digit n h in rw d (rw e)

last_digit :
    (n : ℕ) (rest : Text) → digits_value (n / 10) ((b'0' + n % 10) ∷ rest) ≡ digits_value n rest
unfolding digits_value
last_digit n rest =
    let e : n / 10 * 10 + (b'0' + n % 10 - b'0') ≡ n = omega arith in
    let d = digit_is_digit (n % 10) (omega arith) in rw d (rw e)

-- Reading printed digits and then more text goes on from the number that was printed.
digits_value-decimal_digits :
    (fuel n : ℕ) (rest : Text)
    → n < 10 ^ fuel
    → 0 < fuel
    → digits_value 0 (decimal_digits fuel n ++ rest) ≡ digits_value n rest
unfolding decimal_digits
digits_value-decimal_digits zero n rest h p = absurd (omega arith)
digits_value-decimal_digits (suc zero) n rest h p =
    let small : ltb n 10 ≡ true = ground arith in rw small (digit_first n rest (omega arith))
digits_value-decimal_digits (suc (suc fuel)) n rest h p = elim (Bool-cases (ltb n 10)) [
  | inl small ↦ rw small (digit_first n rest (ground arith))
  | inr large ↦
      rw (large, append_assoc)
        (digits_value-decimal_digits (suc fuel) (n / 10) ((b'0' + n % 10) ∷ rest)
            (omega (arith, pow-suc 10 (suc fuel))) (omega arith)
          ∙ last_digit n rest)
]

-- The digits of a number are not empty, and the first is a digit.
decimal_digits_head :
    (fuel n : ℕ)
    → n < 10 ^ suc fuel
    → (c : ℕ) × (cs : Text) × (decimal_digits (suc fuel) n ≡ c ∷ cs) × (is_digit c ≡ true)
unfolding decimal_digits
decimal_digits_head zero n h =
    let small : ltb n 10 ≡ true = ground arith in
    (b'0' + n, [], rw small, digit_is_digit n (omega arith))
decimal_digits_head (suc fuel) n h = elim (Bool-cases (ltb n 10)) [
  | inl small ↦ (b'0' + n, [], rw small, digit_is_digit n (ground arith))
  | inr large ↦
      let (c, cs, e, d) =
        decimal_digits_head fuel (n / 10) (omega (arith, pow-suc 10 (suc fuel))) in
      (c, cs ++ (b'0' + n % 10) ∷ [], rw (large, e), d)
]

digits_value-format : (n : ℕ) → n ≤ int_max → digits_value 0 (decimal_digits 10 n) ≡ n
unfolding digits_value
digits_value-format n h =
    rw (← append-nil (decimal_digits 10 n))
      (digits_value-decimal_digits 10 n [] (omega arith) (omega arith))

-- `atoi` reads back what `%d` prints, for every `int` but the least.
pub atoi-format_d : (v : ℤ) → nat_abs v ≤ int_max → atoi (format_d v) ≡ v
unfolding format_d
atoi-format_d (pos n) h =
    let (c, cs, e, d) = decimal_digits_head 9 n (omega arith) in
    let v : digits_value 0 (c ∷ cs) ≡ n = rw e at (digits_value-format n (omega arith)) in
    rw e (atoi-digits c cs d (omega arith) ∙ ap pos v)
atoi-format_d (negsuc n) h =
    let v : digits_value 0 (decimal_digits 10 (suc n)) ≡ suc n =
      digits_value-format (suc n) (omega arith) in
    atoi-minus (decimal_digits 10 (suc n)) (omega arith)
    ∙ rw v (eq_of_parts _ _ (omega (arith, -ℤ_parts (pos 0) (pos (suc n)))))
