-- ===== src/GateController/Register.antt =====
-- The two gates of Motes/lib/resources/res-gate.c, behind the paths that Motes/demo/mote-1/mote-1.c
-- activates, as two registers of their levels: what each input does to them, and what a read gives.
use mathlib.Core.Path.{ap₂}
use dam_monitoring.Prelude.{
  ℕ, ◌≡◌, refl, sym, ap, ◌∙◌, eq_of_some, true, Option, none, some, ◌>>=◌, arith, if◌then◌else◌,
}
use dam_monitoring.Prelude.Int.{ℤ, pos}
use dam_monitoring.Clib.Text.{Text, snprintf, snprintf_whole}
use dam_monitoring.Common.Json.{JsonParser}
use dam_monitoring.Common.Urn.{LinkAddr}
use dam_monitoring.Coap.{Request, Response, content_2_05}
use dam_monitoring.Gate.{
  Gate, Gates, blink, gate_at, res_index, res_put_handler, res_get_handler, level_report,
  buffer_len,
}
use dam_monitoring.Gate.Wanted.{wanted}
use dam_monitoring.Gate.Puts.{at_level, IsPut, taken, refused, res_put_handler-IsPut}
use dam_monitoring.Gate.Replies.{length-level_report}
use dam_monitoring.GateController.{gate_path}
use dam_monitoring.GateController.Routes.{index_1, index_2, gate_1_found, gate_2_found}

-- The gate of a path.
pub data Slot : Type 0 where
  first second : Slot

abbrev pub number : Slot → ℕ
number first = 1
number second = 2

abbrev pub gate_of : Slot → Gates → Gate
gate_of first gs = gs.gate_1
gate_of second gs = gs.gate_2

-- A request as it comes to a gate's resource: by the path that was activated for it.
abbrev pub at_path : Slot → Request → Request
at_path s req = record req { uri_path = gate_path (number s) }

-- What happens to the gates: a PUT, and the expiry of a gate's timer if that runs.
pub data Input : Type 0 where
  put : Slot → Text → Request → Input
  expire : Slot → Input

-- The abstract state: the level of each gate.
pub record Levels : Type 0 where
  level_1 : ℤ
  level_2 : ℤ

abbrev pub level_of : Slot → Levels → ℤ
level_of first l = l.level_1
level_of second l = l.level_2

abbrev pub write : Slot → Option ℕ → Levels → Levels
write s none l = l
write first (some k) l = record l { level_1 = pos k }
write second (some k) l = record l { level_2 = pos k }

abbrev pub view : Gates → Levels
view gs = record { level_1 = gs.gate_1.opening_level; level_2 = gs.gate_2.opening_level }

abbrev blink_if_on : Gate → Gate
blink_if_on g = if g.timer then blink g else g

abbrev index : Slot → ℤ
index first = pos 0
index second = pos 1

blink_level : (g : Gate) → (blink_if_on g).opening_level ≡ g.opening_level
unfolding blink
blink_level g = ground arith

slot_index : (s : Slot) (req : Request) → res_index (at_path s req) ≡ some (index s)
slot_index first req = index_1 (at_path first req) refl
slot_index second req = index_2 (at_path second req) refl

slot_found : (s : Slot) (gs : Gates) → gate_at (index s) gs ≡ some (gate_of s gs)
slot_found first gs = gate_1_found gs
slot_found second gs = gate_2_found gs

-- The gate that a PUT leaves at its own slot, and the one that it leaves at another.
put_level :
    (s : Slot) (gs gs' : Gates) (k : ℕ)
    → gate_at (index s) gs' ≡ some (at_level k (gate_of s gs))
    → (at_level k (gate_of s gs)).opening_level ≡ pos k
    → (gate_of s gs').opening_level ≡ pos k
put_level s gs gs' k set level =
    ap (λ g. g.opening_level) (eq_of_some (sym (slot_found s gs') ∙ set)) ∙ level

kept_level :
    (s : Slot) (gs gs' : Gates)
    → gate_at (index s) gs' ≡ gate_at (index s) gs
    → (gate_of s gs').opening_level ≡ (gate_of s gs).opening_level
kept_level s gs gs' stays =
    ap (λ g. g.opening_level) (eq_of_some (sym (slot_found s gs') ∙ stays ∙ slot_found s gs))

view_put :
    (s : Slot) (gs gs' : Gates) (asked : Option ℕ) (r : Response)
    → IsPut (index s) gs (gate_of s gs) asked r gs'
    → view gs' ≡ write s asked (view gs)
view_put first gs gs' asked r (taken k asks capped code body level set others) = rw asks (
    ap₂ (λ v w. record { level_1 = v; level_2 = w }) (put_level first gs gs' k set level)
      (kept_level second gs gs' (others (pos 1) (ground arith))))
view_put second gs gs' asked r (taken k asks capped code body level set others) = rw asks (
    ap₂ (λ v w. record { level_1 = v; level_2 = w })
      (kept_level first gs gs' (others (pos 0) (ground arith)))
      (put_level second gs gs' k set level))
view_put first gs gs' asked r (refused asks code same) = rw (same, asks)
view_put second gs gs' asked r (refused asks code same) = rw (same, asks)

get_level_of :
    (i : ℤ) (addr : LinkAddr) (req : Request) (gs : Gates) (g : Gate)
    → res_index req ≡ some i
    → gate_at i gs ≡ some g
    → (answer : Response) × (res_get_handler addr req gs ≡ some answer)
      × (answer.code ≡ content_2_05)
      × (answer.body ≡ level_report addr g.opening_level)
unfolding res_get_handler
get_level_of i addr req gs g at found = (
  record {
    code = content_2_05;
    json = true;
    body = snprintf buffer_len (level_report addr g.opening_level);
  },
  rw (at, found),
  refl,
  snprintf_whole buffer_len (level_report addr g.opening_level)
      (length-level_report addr g.opening_level),
)

gate_level : (s : Slot) (gs : Gates) → (gate_of s gs).opening_level ≡ level_of s (view gs)
gate_level first gs = refl
gate_level second gs = refl

-- A GET to either path answers 2.05 with the level of its gate.
pub get_view :
    (s : Slot) (addr : LinkAddr) (req : Request) (gs : Gates)
    → (answer : Response) × (res_get_handler addr (at_path s req) gs ≡ some answer)
      × (answer.code ≡ content_2_05)
      × (answer.body ≡ level_report addr (level_of s (view gs)))
get_view s addr req gs =
    let (answer, got, code, body) =
      get_level_of (index s) addr (at_path s req) gs (gate_of s gs) (slot_index s req)
        (slot_found s gs) in
    (answer, got, code, body ∙ ap (level_report addr) (gate_level s gs))

module _ (p : JsonParser) where
  unfoldable pub step : Input → Gates → Option Gates
  step (put s garbage req) gs = res_put_handler p garbage (at_path s req) gs >>= λ x. some x.1
  step (expire first) gs = some (record gs { gate_1 = blink_if_on gs.gate_1 })
  step (expire second) gs = some (record gs { gate_2 = blink_if_on gs.gate_2 })

  -- The specification: a PUT writes the level that its request asks for, if it asks for one.
  unfoldable pub spec : Input → Levels → Levels
  spec (put s garbage req) l = write s (wanted p garbage (at_path s req)) l
  spec (expire s) l = l

  -- Every input is taken, and takes the levels where the specification does.
  pub step-view :
      (i : Input) (gs : Gates)
      → (gs' : Gates) × (step i gs ≡ some gs') × (view gs' ≡ spec i (view gs))
  unfolding step spec
  step-view (put s garbage req) gs =
      let (r, gs', runs, result) =
        res_put_handler-IsPut p garbage (at_path s req) (index s) gs (gate_of s gs)
          (slot_index s req) (slot_found s gs) in
      (gs', rw runs, view_put s gs gs' (wanted p garbage (at_path s req)) r result)
  step-view (expire first) gs = (
    _,
    refl,
    ap (λ v. record { level_1 = v; level_2 = gs.gate_2.opening_level }) (blink_level gs.gate_1),
  )
  step-view (expire second) gs = (
    _,
    refl,
    ap (λ v. record { level_1 = gs.gate_1.opening_level; level_2 = v }) (blink_level gs.gate_2),
  )
