-- ===== src/Gate/Wanted.antt =====
-- The level that a PUT to a gate (Motes/lib/resources/res-gate.c) asks for, said of the request alone.
use dam_monitoring.Prelude.{
  ℕ, ◌≡◌, ap, ◌∙◌, not, ◌&&◌, ◌||◌, Option, none, some, arith, if◌then◌else◌, ltb, ◌==◌,
}
use dam_monitoring.Prelude.Int.{ℤ, pos, negsuc, eqb_ℤ}
use dam_monitoring.Clib.Text.{Text, codes, strcmp_eq}
use dam_monitoring.Clib.Atoi.{atoi}
use dam_monitoring.Common.Json.{
  JsonParser, FieldResult, good, bad_value, missing, is_good, converted, get_json_int_field,
}
use dam_monitoring.Common.Json.Fields.{number_field, get_json_int_field-number_field}
use dam_monitoring.SensorSim.Asked.{level, asked_by, level-int_outcome}
use dam_monitoring.Coap.{ContentFormat, text_plain, application_json, other_format, Request}
use dam_monitoring.Gate.{
  Param, text_param, json_checked, json_param, opening_level_par, out_of_range,
}

-- A level from 0 to 100 in decimal: in text form behind the variable's name, in JSON form as the first
-- number under the key. A text counts as a number where `atoi` gives one, and 0 as "0" only.
unfoldable pub wanted_as : JsonParser → Text → Request → Option ContentFormat → Option ℕ
wanted_as p garbage r none = none
wanted_as p garbage r (some text_plain) =
    let (len, t) = r.post_variable opening_level_par in
    if ltb 0 len then level (converted t (atoi t)) (atoi t) else none
wanted_as p garbage r (some application_json) =
    let (len, t) = r.payload in
    if ltb 0 len then asked_by (number_field p garbage t opening_level_par) else none
wanted_as p garbage r (some other_format) = none

abbrev pub wanted : JsonParser → Text → Request → Option ℕ
wanted p garbage r = wanted_as p garbage r r.content_format

abbrev as_level : ℤ → Option ℕ
as_level (pos k) = some k
as_level (negsuc k) = none

-- The level of a parameter that is taken.
abbrev pub param_level : Param → Option ℕ
param_level q =
    if q.param_len == 0 then none else (if is_good q.param_ok then as_level q.new_level else none)

checked_text :
    (len : ℕ) (t : Text) (v : ℤ)
    → param_level (
        if ltb 0 len
        then record {
          param_len = len;
          param_ok =
              if not (strcmp_eq t (codes "0")) && eqb_ℤ v (pos 0) || out_of_range v
              then bad_value
              else good;
          new_level = v;
        }
        else record { param_len = len; param_ok = bad_value; new_level = pos 0 })
      ≡ (if ltb 0 len then level (converted t v) v else none)
unfolding converted
checked_text len t (pos k) = ground arith
checked_text len t (negsuc k) = ground arith

pub param_level-text_param :
    (p : JsonParser) (garbage : Text) (r : Request)
    → param_level (text_param r) ≡ wanted_as p garbage r (some text_plain)
unfolding text_param wanted_as
param_level-text_param p garbage r =
    let (len, t) = r.post_variable opening_level_par in checked_text len t (atoi t)

checked_json :
    (len : ℕ) (res : FieldResult) (v : ℤ)
    → param_level (
        if ltb 0 len
        then json_checked len res v
        else record { param_len = len; param_ok = bad_value; new_level = pos 0 })
      ≡ (if ltb 0 len then level res v else none)
unfolding json_checked
checked_json len good (pos k) = ground arith
checked_json len good (negsuc k) = ground arith
checked_json len bad_value v = ground arith
checked_json len missing v = ground arith

pub param_level-json_param :
    (p : JsonParser) (garbage : Text) (r : Request)
    → param_level (json_param p garbage r) ≡ wanted_as p garbage r (some application_json)
unfolding json_param wanted_as
param_level-json_param p garbage r =
    let (len, t) = r.payload in
    let (res, v) = get_json_int_field p garbage t opening_level_par (pos 0) in
    checked_json len res v
    ∙ ap (λ (o : Option ℕ). if ltb 0 len then o else none)
        (ap (λ (x : FieldResult × ℤ). level x.0 x.1)
            (get_json_int_field-number_field p garbage t opening_level_par (pos 0))
          ∙ level-int_outcome (pos 0) (number_field p garbage t opening_level_par))
