-- ===== src/Coap.antt =====
-- What the CoAP resources of Motes/lib/resources use of Contiki's engine: the parts of a request that
-- its accessors give, and the response that the handlers fill in.
use dam_monitoring.Prelude.{ℕ, Bool, Option}
use dam_monitoring.Clib.Text.{Text}

pub data ContentFormat : Type 0 where
  text_plain application_json other_format : ContentFormat

pub data Code : Type 0 where
  content_2_05 changed_2_04 valid_2_03 bad_request_4_00 : Code

-- `content_format` is `none` where `coap_get_header_content_format` returns 0. `post_variable key`
-- and `payload` are what `coap_get_post_variable` and `coap_get_payload` give: a length, and the
-- text that begins at the pointer (it ends with the payload, not with the length).
pub record Request : Type 0 where
  pub uri_path : Text
  pub content_format : Option ContentFormat
  pub post_variable : Text → ℕ × Text
  pub payload : ℕ × Text

-- `json` says that the header's format is set to `APPLICATION_JSON`.
pub record Response : Type 0 where
  pub code : Code
  pub json : Bool
  pub body : Text
