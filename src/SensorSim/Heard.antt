-- ===== src/SensorSim/Heard.antt =====
-- What a sequence of messages on the topic `simulation` sets, whichever device hears it.
use dam_monitoring.Prelude.{ℕ, ◌≡◌, refl, ap, false, List, [], ◌∷◌, Option, ◌++◌}
use dam_monitoring.Prelude.Int.{ℤ}
use dam_monitoring.Clib.Text.{Text, codes, strncmp_eq}
use dam_monitoring.Common.Json.{JsonParser, json_buffer}
use dam_monitoring.Common.Json.Fields.Stale.{number_field_clean}
use dam_monitoring.SensorSim.{Channel, gate}
use dam_monitoring.SensorSim.Asked.{asked, asked_by, set_by}

-- A buffer that does not hold the name of a channel's field.
abbrev pub IsClean : Channel → Text → Type 0
IsClean c garbage = strncmp_eq garbage (codes "gate-" ++ gate c) json_buffer ≡ false

-- What a message asks of a gate, with nothing in the buffer.
abbrev pub asked_of : JsonParser → Channel → Text → Option ℕ
asked_of p c chunk = asked p (λ d. []) chunk c

empty-IsClean : (c : Channel) → IsClean c []
unfolding strncmp_eq
empty-IsClean c = refl

pub asked-IsClean :
    (p : JsonParser) (c : Channel) (garbage : Channel → Text) (chunk : Text)
    → IsClean c (garbage c)
    → asked p garbage chunk c ≡ asked_of p c chunk
asked-IsClean p c garbage chunk h =
    ap asked_by
      (number_field_clean p (garbage c) [] chunk (codes "gate-" ++ gate c) h (empty-IsClean c))

-- The setting of a channel after messages, the first of the list first.
pub settle : JsonParser → Channel → List Text → ℤ → ℤ
settle p c [] v = v
settle p c (chunk ∷ l) v = settle p c l (set_by c (asked_of p c chunk) v)

pub settle-append :
    (p : JsonParser) (c : Channel) (l m : List Text) (v : ℤ)
    → settle p c (l ++ m) v ≡ settle p c m (settle p c l v)
unfolding settle
settle-append p c [] m v = refl
settle-append p c (chunk ∷ l) m v = settle-append p c l m _

pub settle_one :
    (p : JsonParser) (c : Channel) (chunk : Text) (v : ℤ)
    → settle p c (chunk ∷ []) v ≡ set_by c (asked_of p c chunk) v
unfolding settle
settle_one p c chunk v = refl

pub settle_none : (p : JsonParser) (c : Channel) (v : ℤ) → settle p c [] v ≡ v
unfolding settle
settle_none p c v = refl
