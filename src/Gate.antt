-- ===== src/Gate.antt =====
-- Motes/lib/resources/res-gate.c: the two gates as CoAP resources.
pub mod Levels
pub mod Replies
pub mod Blinking
pub mod Wanted
pub mod Puts
use dam_monitoring.Prelude.{
  ℕ, zero, suc, ◌-◌, Bool, true, false, not, ◌&&◌, ◌||◌, [], ◌∷◌, ◌++◌, Option, none, some, ◌>>=◌,
  ltb, ◌==◌, if◌then◌else◌,
}
use dam_monitoring.Prelude.Int.{ℤ, pos, ltb_ℤ, eqb_ℤ, ◌-ℤ◌}
use dam_monitoring.Clib.Text.{Text, codes, snprintf, strcmp_eq}
use dam_monitoring.Clib.Atoi.{atoi}
use dam_monitoring.Clib.Format.{format_d}
use dam_monitoring.Common.Json.{
  JsonParser, FieldResult, good, bad_value, missing, is_good, get_json_int_field,
}
use dam_monitoring.Common.Urn.{LinkAddr, urn}
use dam_monitoring.Coap.{
  ContentFormat, text_plain, application_json, other_format, Code, content_2_05, changed_2_04,
  valid_2_03, bad_request_4_00, Request, Response,
}

abbrev pub buffer_len : ℕ
buffer_len = 256

abbrev pub blinks_max : ℕ
blinks_max = 5

-- `struct gate_t`: `timer` says whether the timer runs, `lit` whether the gate's led is on.
pub record Gate : Type 0 where
  pub opening_level : ℤ
  pub timer : Bool
  pub blinks : ℕ
  pub lit : Bool

-- `gates[0]` and `gates[1]`.
pub record Gates : Type 0 where
  pub gate_1 : Gate
  pub gate_2 : Gate

abbrev init_gate : Gate
init_gate = record { opening_level = pos 0; timer = false; blinks = blinks_max; lit = false }

unfoldable pub init_gates : Gates
init_gates = record { gate_1 = init_gate; gate_2 = init_gate }

-- The callback of the timer, which has run out.
unfoldable pub blink : Gate → Gate
blink g =
    if ltb 0 g.blinks
    then record g { lit = not g.lit; blinks = g.blinks - 1; timer = true }
    else record g { lit = false; blinks = blinks_max; timer = false }

-- The last byte of the path; an empty path is read out of bounds.
last_byte : Text → Option ℕ
last_byte [] = none
last_byte (c ∷ []) = some c
last_byte (c ∷ d ∷ cs) = last_byte (d ∷ cs)

unfoldable pub res_index : Request → Option ℤ
unfolding last_byte
res_index r = last_byte r.uri_path >>= λ c. some (pos c -ℤ pos b'0' -ℤ pos 1)

-- `gates[i]`, read and written; another index is out of bounds.
unfoldable pub gate_at : ℤ → Gates → Option Gate
gate_at (pos zero) gs = some gs.gate_1
gate_at (pos (suc zero)) gs = some gs.gate_2
gate_at _ gs = none

unfoldable pub set_gate : ℤ → Gate → Gates → Gates
set_gate (pos zero) g gs = record gs { gate_1 = g }
set_gate _ g gs = record gs { gate_2 = g }

abbrev pub level_report : LinkAddr → ℤ → Text
level_report addr v =
    codes "{\"n\":\""
    ++ (urn addr
        ++ (codes "opening_level\", \"v\": " ++ (format_d v ++ codes ", \"u\":\"percent\"}")))

unfoldable pub res_get_handler : LinkAddr → Request → Gates → Option Response
unfolding snprintf
res_get_handler addr r gs = res_index r >>= λ i. gate_at i gs >>= λ g. some (record {
  code = content_2_05;
  json = true;
  body = snprintf buffer_len (level_report addr g.opening_level);
})

abbrev pub bad_request : Text → Response
bad_request body = record { code = bad_request_4_00; json = true; body = body }

abbrev pub opening_level_par : Text
opening_level_par = codes "opening_level"

-- The locals `param_len`, `param_ok` and `new_level`. Where `param_len` is 0, or `param_ok` is not 1,
-- `new_level` is not read.
pub record Param : Type 0 where
  pub param_len : ℕ
  pub param_ok : FieldResult
  pub new_level : ℤ

abbrev out_of_range : ℤ → Bool
out_of_range v = ltb_ℤ v (pos 0) || ltb_ℤ (pos 100) v

unfoldable pub text_param : Request → Param
text_param r =
    let (len, t) = r.post_variable opening_level_par in
    if ltb 0 len
    then record {
      param_len = len;
      param_ok =
          if not (strcmp_eq t (codes "0")) && eqb_ℤ (atoi t) (pos 0) || out_of_range (atoi t)
          then bad_value
          else good;
      new_level = atoi t;
    }
    else record { param_len = len; param_ok = bad_value; new_level = pos 0 }

json_checked : ℕ → FieldResult → ℤ → Param
json_checked len missing v = record { param_len = 0; param_ok = missing; new_level = v }
json_checked len res v = record {
  param_len = len;
  param_ok = if not (is_good res) || out_of_range v then bad_value else res;
  new_level = v;
}

unfoldable pub json_param : JsonParser → Text → Request → Param
unfolding json_checked
json_param p garbage r =
    let (len, t) = r.payload in
    let (res, v) = get_json_int_field p garbage t opening_level_par (pos 0) in
    if ltb 0 len
    then json_checked len res v
    else record { param_len = len; param_ok = bad_value; new_level = pos 0 }

-- The gate after a level is set, and the response's code.
pub move_gate : ℤ → Gate → Gate × Code
move_gate new_level g =
    if eqb_ℤ g.opening_level new_level
    then (record g { opening_level = new_level }, valid_2_03)
    else (
      record g { lit = false; blinks = blinks_max; timer = true; opening_level = new_level },
      changed_2_04,
    )

abbrev pub level_message : ℤ → Text
level_message v = codes "{\"message\": \"Opening level set to " ++ (format_d v ++ codes "%\"}")

-- The rest of the handler, once the parameter is read.
unfoldable pub use_param : ℤ → Param → Gates → Option (Response × Gates)
unfolding move_gate set_gate snprintf
use_param i q gs =
    if q.param_len == 0
    then some
        (bad_request (codes "{\"message\": \"Missing required opening level parameter\"}"), gs)
    else (if not (is_good q.param_ok)
        then some (
          bad_request (codes "{\"message\": \"Opening level must be integer between 0 and 100\"}"),
          gs,
        )
        else (gate_at i gs >>= λ g.
            let (g', code) = move_gate q.new_level g in
            some (
              record {
                code = code;
                json = true;
                body = snprintf buffer_len (level_message g'.opening_level);
              },
              set_gate i g' gs,
            )))

-- The handler's branches on the format of the request.
by_format :
    JsonParser → Text → Request → ℤ → Gates → Option ContentFormat → Option (Response × Gates)
by_format p garbage r i gs none =
    some (bad_request (codes "{\"message\": \"Missing required option 'content-type'\"}"), gs)
by_format p garbage r i gs (some text_plain) = use_param i (text_param r) gs
by_format p garbage r i gs (some application_json) = use_param i (json_param p garbage r) gs
by_format p garbage r i gs (some other_format) =
    some (bad_request (codes "{\"message\": \"Unsupported content type\"}"), gs)

-- `none` is an access out of bounds. `garbage` is what the buffer of `get_json_int_field` holds.
unfoldable pub res_put_handler : JsonParser → Text → Request → Gates → Option (Response × Gates)
unfolding by_format
res_put_handler p garbage r gs = res_index r >>= λ i. by_format p garbage r i gs r.content_format
