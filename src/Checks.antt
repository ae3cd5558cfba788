-- ===== src/Checks.antt =====
-- The data on which the properties are tried: a parser of fixed tokens, an address, requests.
pub mod Clients
pub mod Controllers
pub mod Dams
pub mod Devices
pub mod Faults
pub mod Motes
pub mod Recovering
pub mod Requests
pub mod Stalls
pub mod Streams
pub mod Talks
use dam_monitoring.Prelude.{
  ℕ, ◌-◌, ◌≤◌, ◌<◌, ◌≢◌, refl, true, false, List, [], ◌∷◌, some, length, arith,
}
use dam_monitoring.Prelude.Int.{ℤ, pos, negsuc, ◌≤ℤ◌}
use dam_monitoring.Clib.Text.{Text, codes}
use dam_monitoring.Common.Json.{JsonType, error, pair_name, number, true_value, other, JsonParser}
use dam_monitoring.Common.Json.Fields.{Token}
use dam_monitoring.Common.Urn.{LinkAddr}
use dam_monitoring.Coap.{text_plain, Request}
use dam_monitoring.Mqtt.{Net}

abbrev pub next_token : List Token × Text → JsonType × (List Token × Text)
next_token ([], v) = (error, ([], v))
next_token ((t, w) ∷ l, v) = (t, (l, w))

pub next_token_advances :
    (s : List Token × Text) → (next_token s).0 ≢ error → length (next_token s).1.0 < length s.0
next_token_advances ([], v) h = absurd (h refl)
next_token_advances ((t, w) ∷ l, v) h = omega arith

-- A parser that finds the same tokens in every text.
abbrev pub parser : List Token → JsonParser
parser l = record {
  State = List Token × Text;
  setup = λ t. (l, []);
  next = next_token;
  copy_value = λ s n. s.1;
  remaining = λ s. length s.0;
  next_advances = next_token_advances;
}

abbrev pub half_open : JsonParser
half_open = parser ((other, []) ∷ (pair_name, codes "gate-inflow") ∷ (number, codes "50") ∷ [])

-- A message that asks for 41 hundredths.
abbrev pub little_more : JsonParser
little_more = parser ((other, []) ∷ (pair_name, codes "gate-inflow") ∷ (number, codes "41") ∷ [])

-- Random numbers.
abbrev pub seven : List ℕ
seven = 0 ∷ 0 ∷ 0 ∷ 0 ∷ 0 ∷ 0 ∷ 0 ∷ []

abbrev pub switched_on : JsonParser
switched_on = parser ((other, []) ∷ (pair_name, codes "state") ∷ (true_value, codes "true") ∷ [])

abbrev pub addr : LinkAddr
addr = record { u0 = 0; u1 = 18; u2 = 75; u3 = 0; u4 = 6; u5 = 13; u6 = 178; u7 = 255 }

abbrev pub ready : Net
ready = record { global_address = true; default_route = true; queue_room = true }

abbrev pub full : Net
full = record ready { queue_room = false }

-- A `clock_time_t` of 32 bits, for numbers of an `int`.
abbrev pub to_clock_time : ℤ → ℤ
to_clock_time (pos n) = pos n
to_clock_time (negsuc n) = pos (4294967295 - n)

pub to_clock_time_nonneg : (r : ℤ) → pos 0 ≤ℤ to_clock_time r
to_clock_time_nonneg (pos n) = omega arith
to_clock_time_nonneg (negsuc n) = omega arith

-- A PUT in text form whose variables all have the given text.
abbrev pub put_text : Text → Request
put_text t = record {
  uri_path = codes "gate/1";
  content_format = some text_plain;
  post_variable = λ key. (length t, t);
  payload = (0, []);
}
