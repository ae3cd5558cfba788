-- ===== src/Alarm/Puts.antt =====
-- A PUT to the alarm (Motes/lib/resources/res-alarm.c) against the state that the request asks for, and
-- the GET after it.
use dam_monitoring.Prelude.{◌≡◌, Bool, false, Option, none, some, if◌then◌else◌, not}
use dam_monitoring.Clib.Text.{Text, snprintf}
use dam_monitoring.Coap.{changed_2_04, bad_request_4_00, Response}
use dam_monitoring.Alarm.{Alarm, switch_message, buffer_len}

-- What a PUT that asks for `o` does: it sets the state, names it, and starts or stops the timer
-- where the state is another, or it is refused with no change.
pub data IsPut (a : Alarm) (o : Option Bool) (r : Response) (a' : Alarm) : Type 0 where
  changed :
      (b : Bool)
      → o ≡ some b
      → r.code ≡ changed_2_04
      → r.body ≡ snprintf buffer_len (switch_message b)
      → a' ≡ (
          if (if a.state then b else not b)
          then a
          else record a { state = b; timer = b; lit = if b then a.lit else false })
      → IsPut a o r a'
  refused : o ≡ none → r.code ≡ bad_request_4_00 → a' ≡ a → IsPut a o r a'

abbrev Puts : Alarm → Option Bool → Response × Alarm → Type 0
Puts a o m = IsPut a o m.0 m.1
