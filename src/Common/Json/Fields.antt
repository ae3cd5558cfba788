-- ===== src/Common/Json/Fields.antt =====
-- What the JSON field readers of Motes/lib/common/common.c find, said of the parser's token list.
pub mod Stale
use dam_monitoring.Prelude.{
  ℕ, zero, suc, ◌≤◌, ◌<◌, ◌≡◌, ◌≢◌, refl, Bool, true, false, List, [], ◌∷◌, Option, none, some, ◌⊎◌,
  sym, ap, ◌∙◌, inl, inr, Bool-cases, arith, if◌then◌else◌, length,
}
use dam_monitoring.Prelude.Int.{ℤ}
use dam_monitoring.Clib.Text.{Text, codes, strncmp_eq}
use dam_monitoring.Clib.Atoi.{atoi}
use dam_monitoring.Common.Json.{
  JsonType, error, pair_name, number, true_value, false_value, other, JsonParser, json_buffer,
  FieldResult, missing, of_bool, converted, int_loop, get_json_int_field, bool_loop,
  get_json_bool_field,
}

abbrev pub Token : Type 0
Token = JsonType × Text

-- The tokens that the parser gives from a state on, up to its error token, each with its text.
pub data Tokens (p : JsonParser) : p.State → List Token → Type 0 where
  end : {s : p.State} → (p.next s).0 ≡ error → Tokens p s []
  token :
      {s : p.State} {l : List Token}
      → (p.next s).0 ≢ error
      → Tokens p (p.next s).1 l
      → Tokens p s (((p.next s).0, p.copy_value (p.next s).1 json_buffer) ∷ l)

is_error : (t : JsonType) → (t ≡ error) ⊎ (t ≢ error)
is_error error = inl refl
is_error _ = inr (λ e. cc)

module _ (p : JsonParser) where
  Tokens-below : (fuel : ℕ) (s : p.State) → p.remaining s < fuel → (l : List Token) × Tokens p s l
  Tokens-below zero s h = absurd (omega arith)
  Tokens-below (suc fuel) s h = elim (is_error (p.next s).0) [
    | inl e ↦ ([], Tokens.end e)
    | inr n ↦
        let (l, ts) = Tokens-below fuel (p.next s).1 (omega (arith, p.next_advances s n)) in
        (_, Tokens.token n ts)
  ]

  length-Tokens : {s : p.State} {l : List Token} → Tokens p s l → length l ≤ p.remaining s
  length-Tokens (Tokens.end e) = omega arith
  length-Tokens {s} (Tokens.token n ts) = omega (arith, length-Tokens ts, p.next_advances s n)

-- The scalars of a token list, each under the last name before it (`key` before the first name).
pub named : Text → List Token → List (Text × JsonType × Text)
named key [] = []
named key ((pair_name, name) ∷ l) = named name l
named key ((t, v) ∷ l) = (key, t, v) ∷ named key l

-- The first number under a key, and the first truth value.
pub first_number : Text → List (Text × JsonType × Text) → Option Text
first_number key [] = none
first_number key ((k, number, v) ∷ l) =
    if strncmp_eq k key json_buffer then some v else first_number key l
first_number key ((k, t, v) ∷ l) = first_number key l

first_bool : Text → List (Text × JsonType × Text) → Option (Bool × Text)
first_bool key [] = none
first_bool key ((k, true_value, v) ∷ l) =
    if strncmp_eq k key json_buffer then some (true, v) else first_bool key l
first_bool key ((k, false_value, v) ∷ l) =
    if strncmp_eq k key json_buffer then some (false, v) else first_bool key l
first_bool key ((k, t, v) ∷ l) = first_bool key l

unfoldable pub int_outcome : ℤ → Option Text → FieldResult × ℤ
int_outcome value none = (missing, value)
int_outcome value (some v) = (converted v (atoi v), atoi v)

unfoldable pub bool_outcome : Bool → Option (Bool × Text) → FieldResult × Bool
bool_outcome value none = (missing, value)
bool_outcome value (some (true, v)) = (of_bool (strncmp_eq v (codes "true") json_buffer), true)
bool_outcome value (some (false, v)) = (of_bool (strncmp_eq v (codes "false") json_buffer), false)

module _ (p : JsonParser) (key : Text) where
  abbrev IntDone : ℕ → p.State → Text → ℤ → List Token → Type 0
  IntDone fuel s k value l =
      int_loop p fuel s k key value ≡ some (int_outcome value (first_number key (named k l)))

  int_token :
      (fuel : ℕ) (s : p.State) (k : Text) (value : ℤ) (l : List Token) (t : JsonType)
      → (p.next s).0 ≡ t
      → t ≢ error
      → ((k' : Text) → IntDone fuel (p.next s).1 k' value l)
      → IntDone (suc fuel) s k value ((t, p.copy_value (p.next s).1 json_buffer) ∷ l)
  unfolding int_loop named first_number int_outcome
  int_token fuel s k value l error e n ih = absurd (n refl)
  int_token fuel s k value l pair_name e n ih = rw (e, int_loop) (ih _)
  int_token fuel s k value l number e n ih =
      rw (e, int_loop)
        (elim (Bool-cases (strncmp_eq k key json_buffer)) [
          | inl hit ↦ rw hit
          | inr miss ↦ rw miss (ih k)
        ])
  int_token fuel s k value l true_value e n ih = rw (e, int_loop) (ih k)
  int_token fuel s k value l false_value e n ih = rw (e, int_loop) (ih k)
  int_token fuel s k value l other e n ih = rw (e, int_loop) (ih k)

  int_loop_done :
      (fuel : ℕ) {s : p.State} {l : List Token} (k : Text) (value : ℤ)
      → Tokens p s l
      → length l < fuel
      → IntDone fuel s k value l
  unfolding int_loop named first_number int_outcome
  int_loop_done zero k value ts h = absurd (omega arith)
  int_loop_done (suc fuel) k value (Tokens.end e) h = rw (e, int_loop)
  int_loop_done (suc fuel) {s} k value (Tokens.token {l = l} n ts) h =
      int_token fuel s k value l (p.next s).0 refl n
        (λ k'. int_loop_done fuel k' value ts (omega arith))

  abbrev BoolDone : ℕ → p.State → Text → Bool → List Token → Type 0
  BoolDone fuel s k value l =
      bool_loop p fuel s k key value ≡ some (bool_outcome value (first_bool key (named k l)))

  bool_token :
      (fuel : ℕ) (s : p.State) (k : Text) (value : Bool) (l : List Token) (t : JsonType)
      → (p.next s).0 ≡ t
      → t ≢ error
      → ((k' : Text) → BoolDone fuel (p.next s).1 k' value l)
      → BoolDone (suc fuel) s k value ((t, p.copy_value (p.next s).1 json_buffer) ∷ l)
  unfolding bool_loop named first_bool bool_outcome
  bool_token fuel s k value l error e n ih = absurd (n refl)
  bool_token fuel s k value l pair_name e n ih = rw (e, bool_loop) (ih _)
  bool_token fuel s k value l true_value e n ih =
      rw (e, bool_loop)
        (elim (Bool-cases (strncmp_eq k key json_buffer)) [
          | inl hit ↦ rw hit
          | inr miss ↦ rw miss (ih k)
        ])
  bool_token fuel s k value l false_value e n ih =
      rw (e, bool_loop)
        (elim (Bool-cases (strncmp_eq k key json_buffer)) [
          | inl hit ↦ rw hit
          | inr miss ↦ rw miss (ih k)
        ])
  bool_token fuel s k value l number e n ih = rw (e, bool_loop) (ih k)
  bool_token fuel s k value l other e n ih = rw (e, bool_loop) (ih k)

  bool_loop_done :
      (fuel : ℕ) {s : p.State} {l : List Token} (k : Text) (value : Bool)
      → Tokens p s l
      → length l < fuel
      → BoolDone fuel s k value l
  unfolding bool_loop named first_bool bool_outcome
  bool_loop_done zero k value ts h = absurd (omega arith)
  bool_loop_done (suc fuel) k value (Tokens.end e) h = rw (e, bool_loop)
  bool_loop_done (suc fuel) {s} k value (Tokens.token {l = l} n ts) h =
      bool_token fuel s k value l (p.next s).0 refl n
        (λ k'. bool_loop_done fuel k' value ts (omega arith))

module _ (p : JsonParser) (garbage json key : Text) where
  json-Tokens : (l : List Token) × Tokens p (p.setup json) l
  json-Tokens = Tokens-below p (suc (p.remaining (p.setup json))) (p.setup json) (omega arith)

  -- The text of the first number under the key, if the text has one.
  pub number_field : Option Text
  number_field = first_number key (named garbage json-Tokens.0)

  -- What `get_json_int_field` gives depends on what `*value` held only where the field is missing.
  pub get_json_int_field-number_field :
      (value : ℤ) → get_json_int_field p garbage json key value ≡ int_outcome value number_field
  unfolding get_json_int_field number_field
  get_json_int_field-number_field value =
      let ts = json-Tokens.1 in
      let e =
        int_loop_done p key (suc (p.remaining (p.setup json))) garbage value ts
          (omega (arith, length-Tokens p ts)) in
      rw (e, get_json_int_field)

  -- The first truth value under the key, and its text.
  pub bool_field : Option (Bool × Text)
  bool_field = first_bool key (named garbage json-Tokens.0)

  pub get_json_bool_field-bool_field :
      (value : Bool) → get_json_bool_field p garbage json key value ≡ bool_outcome value bool_field
  unfolding get_json_bool_field bool_field
  get_json_bool_field-bool_field value =
      let ts = json-Tokens.1 in
      let e =
        bool_loop_done p key (suc (p.remaining (p.setup json))) garbage value ts
          (omega (arith, length-Tokens p ts)) in
      rw (e, get_json_bool_field)

-- For every parser and text: the parser's tokens end, the loop of `get_json_int_field` stops within
-- its fuel, and its result is that of the first number token whose last name before it agrees with
-- the key on the first 20 bytes; `*value` keeps its old value where there is no such token.
pub get_json_int_field_lem :
    (p : JsonParser) (garbage json key : Text) (value : ℤ)
    → (l : List Token) × Tokens p (p.setup json) l
      × (int_loop p (suc (p.remaining (p.setup json))) (p.setup json) garbage key value
          ≡ some (get_json_int_field p garbage json key value))
      × (get_json_int_field p garbage json key value
          ≡ int_outcome value (first_number key (named garbage l)))
unfolding get_json_int_field
get_json_int_field_lem p garbage json key value =
    let (l, ts) = Tokens-below p (suc (p.remaining (p.setup json))) (p.setup json) (omega arith) in
    let e =
      int_loop_done p key (suc (p.remaining (p.setup json))) garbage value ts
        (omega (arith, length-Tokens p ts)) in
    let g : get_json_int_field p garbage json key value
        ≡ int_outcome value (first_number key (named garbage l)) =
      rw (e, get_json_int_field) in
    (l, ts, e ∙ ap some (sym g), g)

-- The same for `get_json_bool_field` and the first token that is a truth value.
get_json_bool_field_lem :
    (p : JsonParser) (garbage json key : Text) (value : Bool)
    → (l : List Token) × Tokens p (p.setup json) l
      × (bool_loop p (suc (p.remaining (p.setup json))) (p.setup json) garbage key value
          ≡ some (get_json_bool_field p garbage json key value))
      × (get_json_bool_field p garbage json key value
          ≡ bool_outcome value (first_bool key (named garbage l)))
unfolding get_json_bool_field
get_json_bool_field_lem p garbage json key value =
    let (l, ts) = Tokens-below p (suc (p.remaining (p.setup json))) (p.setup json) (omega arith) in
    let e =
      bool_loop_done p key (suc (p.remaining (p.setup json))) garbage value ts
        (omega (arith, length-Tokens p ts)) in
    let g : get_json_bool_field p garbage json key value
        ≡ bool_outcome value (first_bool key (named garbage l)) =
      rw (e, get_json_bool_field) in
    (l, ts, e ∙ ap some (sym g), g)
