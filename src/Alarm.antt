-- ===== src/Alarm.antt =====
-- Motes/lib/resources/res-alarm.c: the alarm as a CoAP resource.
pub mod Requests
pub mod Wanted
pub mod Puts
use dam_monitoring.Prelude.{
  ℕ, Bool, true, false, not, ◌||◌, ◌++◌, Option, none, some, ltb, ◌==◌, if◌then◌else◌, length,
}
use dam_monitoring.Clib.Text.{Text, codes, snprintf, strncmp_eq}
use dam_monitoring.Common.Json.{
  JsonParser, FieldResult, good, bad_value, missing, is_good, get_json_bool_field,
}
use dam_monitoring.Common.Urn.{LinkAddr, urn}
use dam_monitoring.Coap.{
  ContentFormat, text_plain, application_json, other_format, content_2_05, changed_2_04,
  bad_request_4_00, Request, Response,
}

abbrev pub buffer_len : ℕ
buffer_len = 256

-- `struct alarm_t`: `timer` says whether the timer runs, `lit` whether the red led is on.
pub record Alarm : Type 0 where
  pub state : Bool
  pub timer : Bool
  pub lit : Bool

unfoldable pub init_alarm : Alarm
init_alarm = record { state = false; timer = false; lit = false }

-- The callback of the timer.
unfoldable pub blink : Alarm → Alarm
blink a = record a { lit = not a.lit; timer = true }

abbrev pub state_report : LinkAddr → Bool → Text
state_report addr b =
    codes "{\"n\":\""
    ++ (urn addr
        ++ (codes "state\", \"vb\": "
            ++ ((if b then codes "true" else codes "false") ++ codes "}")))

unfoldable pub res_get_handler : LinkAddr → Alarm → Response
unfolding snprintf
res_get_handler addr a = record {
  code = content_2_05;
  json = true;
  body = snprintf buffer_len (state_report addr a.state);
}

abbrev pub bad_request : Text → Response
bad_request body = record { code = bad_request_4_00; json = true; body = body }

abbrev pub state_par : Text
state_par = codes "state"

-- The locals `param_len`, `param_ok` and `new_state`. Where `param_len` is 0, or `param_ok` is not 1,
-- `new_state` is not read.
pub record Param : Type 0 where
  pub param_len : ℕ
  pub param_ok : FieldResult
  pub new_state : Bool

unfoldable pub text_param : Request → Param
text_param r =
    let (len, t) = r.post_variable state_par in
    if ltb 0 len
    then record {
      param_len = len;
      param_ok =
          if strncmp_eq t (codes "true") (length t) || strncmp_eq t (codes "false") (length t)
          then good
          else bad_value;
      new_state = strncmp_eq t (codes "true") (length t);
    }
    else record { param_len = len; param_ok = bad_value; new_state = false }

json_checked : ℕ → FieldResult → Bool → Param
json_checked len missing b = record { param_len = 0; param_ok = missing; new_state = b }
json_checked len res b = record { param_len = len; param_ok = res; new_state = b }

unfoldable pub json_param : JsonParser → Text → Request → Param
unfolding json_checked
json_param p garbage r =
    let (len, t) = r.payload in
    let (res, b) = get_json_bool_field p garbage t state_par false in
    if ltb 0 len
    then json_checked len res b
    else record { param_len = len; param_ok = bad_value; new_state = false }

-- What a new state changes.
switch : Bool → Alarm → Alarm
switch true a = if a.state then a else record a { state = true; timer = true }
switch false a = if a.state then record a { state = false; timer = false; lit = false } else a

abbrev pub switch_message : Bool → Text
switch_message b =
    codes "{\"message\": \"Alarm " ++ ((if b then codes "on" else codes "off") ++ codes "\"}")

-- The rest of the handler, once the parameter is read.
unfoldable pub use_param : Param → Alarm → Response × Alarm
unfolding switch snprintf
use_param q a =
    if q.param_len == 0
    then (bad_request (codes "{\"message\": \"Missing required state parameter\"}"), a)
    else (if not (is_good q.param_ok)
        then (bad_request (codes "{\"message\": \"State must be boolean (true/false)\"}"), a)
        else (let a' = switch q.new_state a in
            (
              record {
                code = changed_2_04;
                json = true;
                body = snprintf buffer_len (switch_message a'.state);
              },
              a',
            )))

by_format : JsonParser → Text → Request → Alarm → Option ContentFormat → Response × Alarm
by_format p garbage r a none =
    (bad_request (codes "{\"message\": \"Missing required option 'content-type'\"}"), a)
by_format p garbage r a (some text_plain) = use_param (text_param r) a
by_format p garbage r a (some application_json) = use_param (json_param p garbage r) a
by_format p garbage r a (some other_format) =
    (bad_request (codes "{\"message\": \"Unsupported content type\"}"), a)

-- `garbage` is what the uninitialised buffer of `get_json_bool_field` holds.
unfoldable pub res_put_handler : JsonParser → Text → Request → Alarm → Response × Alarm
unfolding by_format
res_put_handler p garbage r a = by_format p garbage r a r.content_format
