-- ===== src/Common/Json.antt =====
-- `get_json_int_field` and `get_json_bool_field` of Motes/lib/common/common.c.
-- Contiki's JSON parser is a parameter: what the code reads of it, and that it moves forward.
pub mod Fields
use dam_monitoring.Prelude.{
  ℕ, zero, suc, ◌<◌, ◌≢◌, Bool, true, false, not, ◌&&◌, Option, none, some, if◌then◌else◌,
}
use dam_monitoring.Prelude.Int.{ℤ, pos, eqb_ℤ}
use dam_monitoring.Clib.Text.{Text, codes, strcmp_eq, strncmp_eq}
use dam_monitoring.Clib.Atoi.{atoi}

-- The token types that the code tells apart.
pub data JsonType : Type 0 where
  error pair_name number true_value false_value other : JsonType

-- `jsonparse_setup`, `jsonparse_next` and `jsonparse_copy_value` of Contiki. `remaining` is what is
-- left of the text: each token but the error takes some of it.
pub record JsonParser : Type 1 where
  pub State : Type 0
  pub setup : Text → State
  pub next : State → JsonType × State
  pub copy_value : State → ℕ → Text
  pub remaining : State → ℕ
  pub next_advances : (s : State) → (next s).0 ≢ error → remaining (next s).1 < remaining s

abbrev pub json_buffer : ℕ
json_buffer = 20

-- The return values 1, 0 and -1.
pub data FieldResult : Type 0 where
  good bad_value missing : FieldResult

-- `res == 1` and `res == 0`.
abbrev pub is_good : FieldResult → Bool
is_good good = true
is_good _ = false

abbrev pub is_bad : FieldResult → Bool
is_bad bad_value = true
is_bad _ = false

abbrev of_bool : Bool → FieldResult
of_bool true = good
of_bool false = bad_value

-- `!(strcmp(value_buf, "0") != 0 && *value == 0)`.
unfoldable pub converted : Text → ℤ → FieldResult
converted value_buf value =
    of_bool (not (not (strcmp_eq value_buf (codes "0")) && eqb_ℤ value (pos 0)))

module _ (p : JsonParser) where
  open p use {State, setup, next, copy_value, remaining}

  -- The loop of `get_json_int_field`. `key_buf` is the local buffer, `value` is `*value`.
  pub int_loop : ℕ → State → Text → Text → ℤ → Option (FieldResult × ℤ)
  unfolding converted
  int_loop zero s key_buf key value = none
  int_loop (suc fuel) s key_buf key value =
      let s' = (next s).1 in
      let again = int_loop fuel s' key_buf key value in
      let renamed = int_loop fuel s' (copy_value s' json_buffer) key value in
      elim (next s).0 [
        | error ↦ some (missing, value)
        | pair_name ↦ renamed
        | number ↦
            if strncmp_eq key_buf key json_buffer
            then (let new = atoi (copy_value s' json_buffer) in
                some (converted (copy_value s' json_buffer) new, new))
            else again
        | _ ↦ again
      ]

  -- `garbage` is what the uninitialised `key_buf` holds. The fuel is enough: see the children.
  unfoldable pub get_json_int_field : Text → Text → Text → ℤ → FieldResult × ℤ
  unfolding int_loop
  get_json_int_field garbage json key value =
      elim (int_loop (suc (remaining (setup json))) (setup json) garbage key value) [
        | some r ↦ r
        | none ↦ (missing, value)
      ]

  pub bool_loop : ℕ → State → Text → Text → Bool → Option (FieldResult × Bool)
  bool_loop zero s key_buf key value = none
  bool_loop (suc fuel) s key_buf key value =
      let s' = (next s).1 in
      let again = bool_loop fuel s' key_buf key value in
      let renamed = bool_loop fuel s' (copy_value s' json_buffer) key value in
      elim (next s).0 [
        | error ↦ some (missing, value)
        | pair_name ↦ renamed
        | true_value ↦
            if strncmp_eq key_buf key json_buffer
            then some
                (of_bool (strncmp_eq (copy_value s' json_buffer) (codes "true") json_buffer), true)
            else again
        | false_value ↦
            if strncmp_eq key_buf key json_buffer
            then some (
              of_bool (strncmp_eq (copy_value s' json_buffer) (codes "false") json_buffer),
              false,
            )
            else again
        | _ ↦ again
      ]

  unfoldable pub get_json_bool_field : Text → Text → Text → Bool → FieldResult × Bool
  unfolding bool_loop
  get_json_bool_field garbage json key value =
      elim (bool_loop (suc (remaining (setup json))) (setup json) garbage key value) [
        | some r ↦ r
        | none ↦ (missing, value)
      ]
