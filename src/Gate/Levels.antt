-- ===== src/Gate/Levels.antt =====
-- Requests to the gates (Motes/lib/resources/res-gate.c): what a PUT does to the gates, what it
-- accepts, and what a GET then answers.
use dam_monitoring.Prelude.{
  ℕ, ◌≤◌, ◌≡◌, ◌≢◌, ◌⊎◌, inl, inr, refl, sym, ap, ◌∙◌, true, false, Option, none, some, >>=-eq-some,
  eq_of_some, Bool-cases, arith, if◌then◌else◌, ltb, ◌==◌,
}
use dam_monitoring.Prelude.Int.{ℤ, pos, negsuc, eqb_ℤ}
use dam_monitoring.Clib.Text.{Text, snprintf}
use dam_monitoring.Common.Json.{
  JsonParser, FieldResult, good, bad_value, missing, is_good, get_json_int_field,
}
use dam_monitoring.Coap.{
  ContentFormat, text_plain, application_json, other_format, Code, changed_2_04, valid_2_03,
  bad_request_4_00, Request, Response,
}
use dam_monitoring.Gate.{
  Gate, Gates, gate_at, set_gate, Param, text_param, json_param, use_param, by_format,
  res_put_handler, res_index, blinks_max, move_gate, out_of_range, opening_level_par, level_message,
  json_checked, buffer_len,
}

-- What a PUT may do at index `i`: refuse and change nothing; find the gate at the level already; or
-- move it, with its led off and its blinking begun anew.
pub data Outcome (i : ℤ) (gs : Gates) (r : Response) (gs' : Gates) : Type 0 where
  refused : r.code ≡ bad_request_4_00 → gs' ≡ gs → Outcome i gs r gs'
  kept :
      (g : Gate) (n : ℕ)
      → gate_at i gs ≡ some g
      → n ≤ 100
      → g.opening_level ≡ pos n
      → r.code ≡ valid_2_03
      → gs' ≡ set_gate i (record g { opening_level = pos n }) gs
      → Outcome i gs r gs'
  moved :
      (g : Gate) (n : ℕ)
      → gate_at i gs ≡ some g
      → n ≤ 100
      → g.opening_level ≢ pos n
      → r.code ≡ changed_2_04
      → gs'
        ≡ set_gate i
            (record g { opening_level = pos n; lit = false; blinks = blinks_max; timer = true })
            gs
      → Outcome i gs r gs'

-- A parameter that is taken is a level.
abbrev pub IsChecked : Param → Type 0
IsChecked q = is_good q.param_ok ≡ true → (n : ℕ) × (q.new_level ≡ pos n) × (n ≤ 100)

level_of : (v : ℤ) → out_of_range v ≡ false → (n : ℕ) × (v ≡ pos n) × (n ≤ 100)
level_of (pos n) h = (n, refl, ground arith)
level_of (negsuc n) h = absurd (ground arith)

pub text_param-IsChecked : (r : Request) → IsChecked (text_param r)
unfolding text_param
text_param-IsChecked r h = level_of _ (ground arith)

json_checked-IsChecked : (len : ℕ) (res : FieldResult) (v : ℤ) → IsChecked (json_checked len res v)
unfolding json_checked
json_checked-IsChecked len good v h = level_of v (ground arith)
json_checked-IsChecked len bad_value v h = absurd (ground arith)
json_checked-IsChecked len missing v h = absurd (cc)

pub json_param-IsChecked :
    (p : JsonParser) (garbage : Text) (r : Request) → IsChecked (json_param p garbage r)
unfolding json_param
json_param-IsChecked p garbage r =
    let (res, v) = get_json_int_field p garbage r.payload.1 opening_level_par (pos 0) in
    elim (ltb 0 r.payload.0)
      as (λ t. IsChecked (
        if t
        then json_checked r.payload.0 res v
        else record { param_len = r.payload.0; param_ok = bad_value; new_level = pos 0 })) [
          | true ↦ json_checked-IsChecked r.payload.0 res v
          | false ↦ λ h. absurd (cc)
        ]

pub eqb_ℤ-cases : (a b : ℤ) → ((eqb_ℤ a b ≡ true) × (a ≡ b)) ⊎ ((eqb_ℤ a b ≡ false) × (a ≢ b))
eqb_ℤ-cases (pos a) (pos b) = ground arith
eqb_ℤ-cases (pos a) (negsuc b) = inr (ground arith, λ e. cc)
eqb_ℤ-cases (negsuc a) (pos b) = inr (ground arith, λ e. cc)
eqb_ℤ-cases (negsuc a) (negsuc b) = ground arith

abbrev code_of : Response × Gates → Code
code_of (r, gs) = r.code

abbrev gates_of : Response × Gates → Gates
gates_of (r, gs) = gs

module _ (i : ℤ) (q : Param) (gs gs' : Gates) (r : Response) (checked : IsChecked q) where
  answer : Gate × Code → Response × Gates
  answer (g', code) = (
    record {
      code = code;
      json = true;
      body = snprintf buffer_len (level_message g'.opening_level);
    },
    set_gate i g' gs,
  )

  moves :
      (g : Gate)
      → gate_at i gs ≡ some g
      → is_good q.param_ok ≡ true
      → answer (move_gate q.new_level g) ≡ (r, gs')
      → Outcome i gs r gs'
  unfolding move_gate answer
  moves g found ok e =
      let (n, exact, capped) = checked ok in
      elim (eqb_ℤ-cases g.opening_level q.new_level) [
        | inl (t, same) ↦
            let h = rw t at e in
            kept g n found capped (same ∙ exact) (sym (ap code_of h))
              (sym (ap gates_of h) ∙ ap (λ v. set_gate i (record g { opening_level = v }) gs) exact)
        | inr (t, other) ↦
            let h = rw t at e in
            moved g n found capped (λ s. other (s ∙ sym exact)) (sym (ap code_of h))
              (sym (ap gates_of h)
                ∙ ap
                    (λ v.
                      set_gate i
                        (record g {
                          opening_level = v;
                          lit = false;
                          blinks = blinks_max;
                          timer = true;
                        })
                        gs)
                    exact)
      ]

  use_param-Outcome : use_param i q gs ≡ some (r, gs') → Outcome i gs r gs'
  unfolding use_param answer
  use_param-Outcome e = elim (Bool-cases (q.param_len == 0)) [
    | inl t ↦ let h = eq_of_some (rw t at e) in refused (sym (ap code_of h)) (sym (ap gates_of h))
    | inr t ↦ elim (Bool-cases (is_good q.param_ok)) [
      | inl ok ↦
          let (g, found, result) = >>=-eq-some (gate_at i gs) _ (rw (t, ok) at e) in
          moves g found ok (eq_of_some result)
      | inr bad ↦
          let h = eq_of_some (rw (t, bad) at e) in
          refused (sym (ap code_of h)) (sym (ap gates_of h))
    ]
  ]

by_format-Outcome :
    (p : JsonParser) (garbage : Text) (req : Request) (i : ℤ) (gs gs' : Gates) (r : Response)
    (f : Option ContentFormat)
    → by_format p garbage req i gs f ≡ some (r, gs')
    → Outcome i gs r gs'
unfolding by_format
by_format-Outcome p garbage req i gs gs' r none h =
    let x = eq_of_some h in refused (sym (ap code_of x)) (sym (ap gates_of x))
by_format-Outcome p garbage req i gs gs' r (some text_plain) h =
    use_param-Outcome i (text_param req) gs gs' r (text_param-IsChecked req) h
by_format-Outcome p garbage req i gs gs' r (some application_json) h =
    use_param-Outcome i (json_param p garbage req) gs gs' r (json_param-IsChecked p garbage req) h
by_format-Outcome p garbage req i gs gs' r (some other_format) h =
    let x = eq_of_some h in refused (sym (ap code_of x)) (sym (ap gates_of x))

-- Every PUT that the code defines, whatever its format and payload, ends in one of three ways at the
-- gate that the path names: it is refused with 4.00 and no gate changes; the gate has the level
-- already, which is answered with 2.03; or the gate is set to a level from 0 to 100 and starts
-- blinking, which is answered with 2.04.
pub res_put_handler-Outcome :
    (p : JsonParser) (garbage : Text) (req : Request) (i : ℤ) (gs gs' : Gates) (r : Response)
    → res_index req ≡ some i
    → res_put_handler p garbage req gs ≡ some (r, gs')
    → Outcome i gs r gs'
unfolding res_put_handler
res_put_handler-Outcome p garbage req i gs gs' r at e =
    by_format-Outcome p garbage req i gs gs' r req.content_format (rw (at, res_put_handler) at e)
