-- ===== src/Common/Json/Fields/Stale.antt =====
-- The uninitialised buffer of the JSON field readers of Motes/lib/common/common.c: where what it holds
-- does not agree with the key, it does not matter.
use dam_monitoring.Prelude.{◌≡◌, refl, false, List, [], ◌∷◌}
use dam_monitoring.Clib.Text.{Text, strncmp_eq}
use dam_monitoring.Common.Json.{pair_name, number, JsonParser, json_buffer}
use dam_monitoring.Common.Json.Fields.{Token, named, first_number, number_field, json-Tokens}

first_number-named :
    (key a b : Text) (l : List Token)
    → strncmp_eq a key json_buffer ≡ false
    → strncmp_eq b key json_buffer ≡ false
    → first_number key (named a l) ≡ first_number key (named b l)
unfolding named first_number
first_number-named key a b [] ha hb = refl
first_number-named key a b ((pair_name, name) ∷ l) ha hb = refl
first_number-named key a b ((number, v) ∷ l) ha hb =
    rw (ha, hb) (first_number-named key a b l ha hb)
first_number-named key a b ((_, v) ∷ l) ha hb = first_number-named key a b l ha hb

-- A field does not depend on what the buffer held, if that does not agree with the key.
pub number_field_clean :
    (p : JsonParser) (a b json key : Text)
    → strncmp_eq a key json_buffer ≡ false
    → strncmp_eq b key json_buffer ≡ false
    → number_field p a json key ≡ number_field p b json key
unfolding number_field json-Tokens
number_field_clean p a b json key ha hb = first_number-named key a b _ ha hb
