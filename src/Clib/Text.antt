-- ===== src/Clib/Text.antt =====
-- Strings of the C library. A `Text` is the bytes of a `char` buffer before its NUL.
use Prim.Native.Char.{code}
use Prim.Native.String.{String}
use dam_monitoring.Prelude.{
  ℕ, zero, suc, ◌-◌, ◌≡◌, refl, ap, Bool, true, false, List, [], ◌∷◌, arith, ◌==◌, length, take,
  take-eq_of_le, length, ◌<◌, ◌&&◌,
}

abbrev pub Text : Type 0
Text = List ℕ

-- The bytes of a string literal.
abbrev pub codes : String → Text
codes String.[] = []
codes (String.◌∷◌ c s) = code c ∷ codes s

-- `strcmp(a, b) == 0`.
unfoldable pub strcmp_eq : Text → Text → Bool
strcmp_eq [] [] = true
strcmp_eq [] (y ∷ ys) = false
strcmp_eq (x ∷ xs) [] = false
strcmp_eq (x ∷ xs) (y ∷ ys) = x == y && strcmp_eq xs ys

-- `strncmp(a, b, n) == 0`.
unfoldable pub strncmp_eq : Text → Text → ℕ → Bool
strncmp_eq a b zero = true
strncmp_eq [] [] (suc n) = true
strncmp_eq [] (y ∷ ys) (suc n) = false
strncmp_eq (x ∷ xs) [] (suc n) = false
strncmp_eq (x ∷ xs) (y ∷ ys) (suc n) = x == y && strncmp_eq xs ys n

-- What `snprintf` leaves in a buffer of `size` bytes, or `strncpy` of a text that is shorter.
unfoldable pub snprintf : ℕ → Text → Text
snprintf size s = take (size - 1) s

strcmp_eq_refl : (a : Text) → strcmp_eq a a ≡ true
unfolding strcmp_eq
strcmp_eq_refl [] = refl
strcmp_eq_refl (x ∷ xs) = ground (arith, strcmp_eq_refl xs)

strcmp_eq→eq : (a b : Text) → strcmp_eq a b ≡ true → a ≡ b
unfolding strcmp_eq
strcmp_eq→eq [] [] h = refl
strcmp_eq→eq [] (y ∷ ys) h = cc
strcmp_eq→eq (x ∷ xs) [] h = cc
strcmp_eq→eq (x ∷ xs) (y ∷ ys) h = ground (arith, strcmp_eq→eq xs ys)

-- A bounded comparison looks at no more than `n` bytes.
strncmp_eq-take : (a b : Text) (n : ℕ) → strncmp_eq a b n ≡ strcmp_eq (take n a) (take n b)
unfolding strcmp_eq strncmp_eq
strncmp_eq-take a b zero = refl
strncmp_eq-take [] [] (suc n) = refl
strncmp_eq-take [] (y ∷ ys) (suc n) = refl
strncmp_eq-take (x ∷ xs) [] (suc n) = refl
strncmp_eq-take (x ∷ xs) (y ∷ ys) (suc n) = ap (◌&&◌ (x == y)) (strncmp_eq-take xs ys n)

-- `snprintf` keeps a text that fits its buffer with its end.
pub snprintf_whole : (size : ℕ) (t : Text) → length t < size → snprintf size t ≡ t
unfolding snprintf
snprintf_whole size t h = take-eq_of_le _ t (omega arith)
