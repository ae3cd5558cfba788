-- ===== src/Gate/Puts.antt =====
-- A PUT to a gate (Motes/lib/resources/res-gate.c) against the level that the request asks for.
use dam_monitoring.Prelude.{
  ℕ, zero, suc, ◌≢◌, sym, ap, ◌∙◌, ◌≤◌, ◌≡◌, inl, inr, refl, true, false, Option, none, some, arith,
  if◌then◌else◌, ◌==◌, Bool-cases,
}
use dam_monitoring.Prelude.Int.{ℤ, pos, negsuc, eqb_ℤ}
use dam_monitoring.Clib.Text.{Text, codes, snprintf}
use dam_monitoring.Common.Json.{JsonParser, is_good}
use dam_monitoring.Coap.{
  ContentFormat, text_plain, application_json, other_format, changed_2_04, valid_2_03,
  bad_request_4_00, Request, Response,
}
use dam_monitoring.Gate.{
  Gate, Gates, gate_at, set_gate, Param, text_param, json_param, use_param, by_format,
  res_put_handler, res_index, move_gate, level_message, buffer_len, bad_request,
}
use dam_monitoring.Gate.Replies.{gate_at-set_gate, move_gate_level}
use dam_monitoring.Gate.Levels.{eqb_ℤ-cases, IsChecked, text_param-IsChecked, json_param-IsChecked}
use dam_monitoring.Gate.Wanted.{
  wanted_as, wanted, param_level, param_level-text_param, param_level-json_param,
}

-- The gate after a PUT of a level: a gate that has the level already is left as it is; another gets the
-- level, with its led off, its timer set and all its blinks to come.
abbrev pub at_level : ℕ → Gate → Gate
at_level k g =
    if eqb_ℤ g.opening_level (pos k)
    then g
    else record { opening_level = pos k; timer = true; blinks = 5; lit = false }

-- What a PUT that asks for `o` does at a gate: it sets the level and is answered with 2.03 or 2.04, as
-- the gate had the level or not, and with the level, and the other gate stays; or it is refused with no
-- change.
pub data IsPut (i : ℤ) (gs : Gates) (g : Gate) (o : Option ℕ) (r : Response) (gs' : Gates)
    : Type 0 where
  taken :
      (k : ℕ)
      → o ≡ some k
      → k ≤ 100
      → r.code ≡ (if eqb_ℤ g.opening_level (pos k) then valid_2_03 else changed_2_04)
      → r.body ≡ snprintf 256 (level_message (pos k))
      → (at_level k g).opening_level ≡ pos k
      → gate_at i gs' ≡ some (at_level k g)
      → ((j : ℤ) → j ≢ i → gate_at j gs' ≡ gate_at j gs)
      → IsPut i gs g o r gs'
  refused : o ≡ none → r.code ≡ bad_request_4_00 → gs' ≡ gs → IsPut i gs g o r gs'

abbrev Puts : ℤ → Gates → Gate → Option ℕ → Option (Response × Gates) → Type 0
Puts i gs g o m = (r : Response) × (gs' : Gates) × (m ≡ some (r, gs')) × IsPut i gs g o r gs'

move_gate_code :
    (g : Gate) (v : ℤ)
    → (move_gate v g).1 ≡ (if eqb_ℤ g.opening_level v then valid_2_03 else changed_2_04)
unfolding move_gate
move_gate_code g v = ground arith

at_level_level : (k : ℕ) (g : Gate) → (at_level k g).opening_level ≡ pos k
at_level_level k g = elim (eqb_ℤ-cases g.opening_level (pos k)) [
  | inl (t, same) ↦ rw t same
  | inr (t, other) ↦ rw t refl
]

move_gate-at_level : (k : ℕ) (g : Gate) → (move_gate (pos k) g).0 ≡ at_level k g
unfolding move_gate
move_gate-at_level k g = elim (eqb_ℤ-cases g.opening_level (pos k)) [
  | inl (t, same) ↦ rw t (ap (λ v. record g { opening_level = v }) (sym same))
  | inr (t, other) ↦ rw t refl
]

set_gate_others :
    (i : ℤ) (g g' : Gate) (gs : Gates)
    → gate_at i gs ≡ some g
    → (j : ℤ) → j ≢ i
    → gate_at j (set_gate i g' gs) ≡ gate_at j gs
unfolding gate_at set_gate
set_gate_others (pos zero) g g' gs found (pos zero) other = absurd (other refl)
set_gate_others (pos zero) g g' gs found (pos (suc zero)) other = refl
set_gate_others (pos zero) g g' gs found (pos (suc (suc j))) other = refl
set_gate_others (pos zero) g g' gs found (negsuc j) other = refl
set_gate_others (pos (suc zero)) g g' gs found (pos zero) other = refl
set_gate_others (pos (suc zero)) g g' gs found (pos (suc zero)) other = absurd (other refl)
set_gate_others (pos (suc zero)) g g' gs found (pos (suc (suc j))) other = refl
set_gate_others (pos (suc zero)) g g' gs found (negsuc j) other = refl
set_gate_others (pos (suc (suc n))) g g' gs found j other = absurd (cc)
set_gate_others (negsuc n) g g' gs found j other = absurd (cc)

module _ (i : ℤ) (q : Param) (gs : Gates) (g : Gate) (found : gate_at i gs ≡ some g) where
  use_param_empty : q.param_len == 0 ≡ true → Puts i gs g (param_level q) (use_param i q gs)
  unfolding use_param
  use_param_empty e = (
    bad_request (codes "{\"message\": \"Missing required opening level parameter\"}"),
    gs,
    simp e,
    refused (simp e) refl refl,
  )

  use_param_bad :
      q.param_len == 0 ≡ false
      → is_good q.param_ok ≡ false
      → Puts i gs g (param_level q) (use_param i q gs)
  unfolding use_param
  use_param_bad e f = (
    bad_request (codes "{\"message\": \"Opening level must be integer between 0 and 100\"}"),
    gs,
    simp (e, f),
    refused (simp (e, f)) refl refl,
  )

  use_param_good :
      (k : ℕ)
      → q.param_len == 0 ≡ false
      → is_good q.param_ok ≡ true
      → q.new_level ≡ pos k
      → k ≤ 100
      → Puts i gs g (param_level q) (use_param i q gs)
  unfolding use_param
  use_param_good k e f exact capped =
      let (g', code) = move_gate (pos k) g in
      (
        record {
          code = code;
          json = true;
          body = snprintf buffer_len (level_message g'.opening_level);
        },
        set_gate i g' gs,
        simp (e, f, found, exact),
        taken k (simp (e, f, exact)) capped (move_gate_code g (pos k))
            (ap (λ v. snprintf buffer_len (level_message v)) (move_gate_level g (pos k)))
            (at_level_level k g)
            (gate_at-set_gate i gs g g' found ∙ ap some (move_gate-at_level k g))
            (set_gate_others i g g' gs found),
      )

  use_param-Puts : IsChecked q → Puts i gs g (param_level q) (use_param i q gs)
  use_param-Puts checked = elim (Bool-cases (q.param_len == 0)) [
    | inl e ↦ use_param_empty e
    | inr e ↦ elim (Bool-cases (is_good q.param_ok)) [
      | inl f ↦ let (k, exact, capped) = checked f in use_param_good k e f exact capped
      | inr f ↦ use_param_bad e f
    ]
  ]

by_format-Puts :
    (p : JsonParser) (garbage : Text) (req : Request) (i : ℤ) (gs : Gates) (g : Gate)
    (f : Option ContentFormat)
    → gate_at i gs ≡ some g
    → Puts i gs g (wanted_as p garbage req f) (by_format p garbage req i gs f)
unfolding by_format wanted_as
by_format-Puts p garbage req i gs g none found = (_, gs, refl, refused refl refl refl)
by_format-Puts p garbage req i gs g (some text_plain) found =
    rw⁻¹ (param_level-text_param p garbage req)
      (use_param-Puts i (text_param req) gs g found (text_param-IsChecked req))
by_format-Puts p garbage req i gs g (some application_json) found =
    rw⁻¹ (param_level-json_param p garbage req)
      (use_param-Puts i (json_param p garbage req) gs g found (json_param-IsChecked p garbage req))
by_format-Puts p garbage req i gs g (some other_format) found =
    (_, gs, refl, refused refl refl refl)

-- A PUT whose path names one of the two gates is answered, in text form and in JSON form alike, by the
-- level that the request asks for. Where it asks for one, from 0 to 100, the gate has that level after
-- it and the answer names it, with 2.03 if the gate had it, which is then left as it was, and 2.04 if
-- not: its led is then off, its timer is set and five blinks are to come; the other gate stays. Where it
-- asks for none, the answer is 4.00 and nothing changes.
pub res_put_handler-IsPut :
    (p : JsonParser) (garbage : Text) (req : Request) (i : ℤ) (gs : Gates) (g : Gate)
    → res_index req ≡ some i
    → gate_at i gs ≡ some g
    → (r : Response) × (gs' : Gates) × (res_put_handler p garbage req gs ≡ some (r, gs'))
      × IsPut i gs g (wanted p garbage req) r gs'
unfolding res_put_handler
res_put_handler-IsPut p garbage req i gs g at found =
    rw at (by_format-Puts p garbage req i gs g req.content_format found)
