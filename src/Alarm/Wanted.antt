-- ===== src/Alarm/Wanted.antt =====
-- The state that a PUT to the alarm (Motes/lib/resources/res-alarm.c) asks for, said of the request
-- alone, and that the alarm then has it.
use dam_monitoring.Prelude.{
  ℕ, ◌≡◌, refl, ap, ◌∙◌, Bool, true, false, Option, none, some, ltb, ◌==◌, if◌then◌else◌, length,
  arith,
}
use dam_monitoring.Clib.Text.{Text, codes, strncmp_eq}
use dam_monitoring.Common.Json.{
  JsonParser, FieldResult, good, bad_value, missing, is_good, json_buffer, get_json_bool_field,
}
use dam_monitoring.Common.Json.Fields.{bool_field, bool_outcome, get_json_bool_field-bool_field}
use dam_monitoring.Coap.{ContentFormat, text_plain, application_json, other_format, Request}
use dam_monitoring.Alarm.{
  Alarm, state_par, Param, text_param, json_checked, json_param, switch, use_param, by_format,
  res_put_handler,
}

abbrev asked_by : Option (Bool × Text) → Option Bool
asked_by none = none
asked_by (some (true, v)) = if strncmp_eq v (codes "true") json_buffer then some true else none
asked_by (some (false, v)) = if strncmp_eq v (codes "false") json_buffer then some false else none

-- In text form a text that agrees with `true` or `false` over its own length, in JSON form the first
-- truth value under the key.
unfoldable pub wanted_as : JsonParser → Text → Request → Option ContentFormat → Option Bool
wanted_as p garbage r none = none
wanted_as p garbage r (some text_plain) =
    let (len, t) = r.post_variable state_par in
    if ltb 0 len
    then (if strncmp_eq t (codes "true") (length t)
        then some true
        else (if strncmp_eq t (codes "false") (length t) then some false else none))
    else none
wanted_as p garbage r (some application_json) =
    let (len, t) = r.payload in
    if ltb 0 len then asked_by (bool_field p garbage t state_par) else none
wanted_as p garbage r (some other_format) = none

abbrev pub wanted : JsonParser → Text → Request → Option Bool
wanted p garbage r = wanted_as p garbage r r.content_format

-- The state that is asked for, or the state as it was.
abbrev pub set_by : Option Bool → Bool → Bool
set_by none b = b
set_by (some b') b = b'

-- The state of a parameter that is taken.
abbrev pub param_state : Param → Option Bool
param_state q =
    if q.param_len == 0 then none else (if is_good q.param_ok then some q.new_state else none)

use_param_state : (q : Param) (a : Alarm) → (use_param q a).1.state ≡ set_by (param_state q) a.state
unfolding use_param switch
use_param_state q a = ground arith

pub param_state-text_param :
    (p : JsonParser) (garbage : Text) (r : Request)
    → param_state (text_param r) ≡ wanted_as p garbage r (some text_plain)
unfolding text_param wanted_as
param_state-text_param p garbage r = ground arith

taken : FieldResult → Bool → Option Bool
taken good b = some b
taken _ b = none

taken-bool_outcome :
    (value : Bool) (o : Option (Bool × Text))
    → taken (bool_outcome value o).0 (bool_outcome value o).1 ≡ asked_by o
unfolding bool_outcome taken
taken-bool_outcome value none = refl
taken-bool_outcome value (some (true, v)) = ground arith
taken-bool_outcome value (some (false, v)) = ground arith

checked_json :
    (len : ℕ) (res : FieldResult) (b : Bool)
    → param_state (
        if ltb 0 len
        then json_checked len res b
        else record { param_len = len; param_ok = bad_value; new_state = false })
      ≡ (if ltb 0 len then taken res b else none)
unfolding json_checked taken
checked_json len good b = ground arith
checked_json len bad_value b = ground arith
checked_json len missing b = ground arith

pub param_state-json_param :
    (p : JsonParser) (garbage : Text) (r : Request)
    → param_state (json_param p garbage r) ≡ wanted_as p garbage r (some application_json)
unfolding json_param wanted_as
param_state-json_param p garbage r =
    let (len, t) = r.payload in
    let (res, b) = get_json_bool_field p garbage t state_par false in
    checked_json len res b
    ∙ ap (λ (o : Option Bool). if ltb 0 len then o else none)
        (ap (λ (x : FieldResult × Bool). taken x.0 x.1)
            (get_json_bool_field-bool_field p garbage t state_par false)
          ∙ taken-bool_outcome false (bool_field p garbage t state_par))

by_format_state :
    (p : JsonParser) (garbage : Text) (r : Request) (a : Alarm) (f : Option ContentFormat)
    → (by_format p garbage r a f).1.state ≡ set_by (wanted_as p garbage r f) a.state
unfolding by_format wanted_as
by_format_state p garbage r a none = refl
by_format_state p garbage r a (some text_plain) =
    use_param_state (text_param r) a
    ∙ ap (λ o. set_by o a.state) (param_state-text_param p garbage r)
by_format_state p garbage r a (some application_json) =
    use_param_state (json_param p garbage r) a
    ∙ ap (λ o. set_by o a.state) (param_state-json_param p garbage r)
by_format_state p garbage r a (some other_format) = refl

-- A PUT to the alarm sets the state that it asks for, or leaves it.
pub put_state :
    (p : JsonParser) (garbage : Text) (r : Request) (a : Alarm)
    → (res_put_handler p garbage r a).1.state ≡ set_by (wanted p garbage r) a.state
unfolding res_put_handler
put_state p garbage r a = by_format_state p garbage r a r.content_format
