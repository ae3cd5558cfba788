-- ===== src/Alarm/Requests.antt =====
-- Requests to the alarm (Motes/lib/resources/res-alarm.c): what a PUT does, which texts it takes, and
-- how the alarm's timer and led follow its state.
use dam_monitoring.Prelude.{
  ℕ, ◌<◌, ◌≡◌, refl, ap, ◌∙◌, Bool, true, false, ◌||◌, List, [], ◌∷◌, ◌++◌, Option, none, some,
  Bool-cases, inl, inr, ◌⊎◌, lt→ltb, if◌then◌else◌, length, arith,
}
use dam_monitoring.Clib.Text.{Text, codes, strncmp_eq}
use dam_monitoring.Common.Json.{JsonParser, FieldResult, good, bad_value}
use dam_monitoring.Coap.{
  ContentFormat, text_plain, application_json, other_format, changed_2_04, bad_request_4_00,
  Request, Response,
}
use dam_monitoring.Alarm.{
  Alarm, init_alarm, blink, state_par, Param, text_param, json_param, use_param, by_format,
  res_put_handler,
}

-- The led blinks exactly while the alarm is on, and is dark while it is off.
pub record IsConsistent (a : Alarm) : Type 0 where
  pub follows : a.timer ≡ a.state
  pub dark : a.state ≡ false → a.lit ≡ false

-- A PUT to a consistent alarm: refused, with no change, or taken as a state that the alarm then has.
pub record PutResult (a : Alarm) (r : Response × Alarm) : Type 0 where
  pub answer : (r.0.code ≡ changed_2_04) ⊎ ((r.0.code ≡ bad_request_4_00) × (r.1 ≡ a))
  consistent : IsConsistent a → IsConsistent r.1

use_param-PutResult : (q : Param) (a : Alarm) → PutResult a (use_param q a)
unfolding use_param
use_param-PutResult q a = record { answer = ground arith; consistent = λ v. ground arith }

by_format-PutResult :
    (p : JsonParser) (garbage : Text) (r : Request) (a : Alarm) (f : Option ContentFormat)
    → PutResult a (by_format p garbage r a f)
unfolding by_format
by_format-PutResult p garbage r a none = record { answer = inr (refl, refl); consistent = λ v. v }
by_format-PutResult p garbage r a (some text_plain) = use_param-PutResult (text_param r) a
by_format-PutResult p garbage r a (some application_json) =
    use_param-PutResult (json_param p garbage r) a
by_format-PutResult p garbage r a (some other_format) = record {
  answer = inr (refl, refl);
  consistent = λ v. v;
}

-- What happens to the alarm: a PUT, or the expiry of its timer if that runs.
pub data Input : Type 0 where
  put : Text → Request → Input
  expire : Input

module _ (p : JsonParser) where
  pub step : Input → Alarm → Alarm
  step (put garbage r) a = (res_put_handler p garbage r a).1
  step expire a = if a.timer then blink a else a

  pub run : List Input → Alarm → Alarm
  run [] a = a
  run (i ∷ is) a = run is (step i a)

  step-IsConsistent : (i : Input) (a : Alarm) → IsConsistent a → IsConsistent (step i a)
  unfolding step res_put_handler blink
  step-IsConsistent (put garbage r) a v =
      (by_format-PutResult p garbage r a r.content_format).consistent v
  step-IsConsistent expire a v = ground arith

  run-IsConsistent : (is : List Input) (a : Alarm) → IsConsistent a → IsConsistent (run is a)
  unfolding run
  run-IsConsistent [] a v = v
  run-IsConsistent (i ∷ is) a v = run-IsConsistent is (step i a) (step-IsConsistent i a v)

  -- Over every history of requests and timer expiries, the alarm's timer runs exactly while the alarm
  -- is on, and its led is off while the alarm is off.
  pub run-init_alarm : (is : List Input) → IsConsistent (run is init_alarm)
  unfolding init_alarm
  run-init_alarm is = run-IsConsistent is _ (record { follows = refl; dark = λ e. refl })

abbrev pub IsPrefix : Text → Text → Type 0
IsPrefix t lit = (rest : Text) × (lit ≡ t ++ rest)

-- A comparison over a text's own length tells whether the text is a prefix.
IsPrefix-of_strncmp : (t lit : Text) → strncmp_eq t lit (length t) ≡ true → IsPrefix t lit
unfolding strncmp_eq
IsPrefix-of_strncmp [] lit e = (lit, refl)
IsPrefix-of_strncmp (x ∷ xs) [] e = absurd (cc)
IsPrefix-of_strncmp (x ∷ xs) (y ∷ ys) e =
    let (rest, tail) = IsPrefix-of_strncmp xs ys (ground arith) in (rest, ground (arith, tail))

strncmp_of_IsPrefix : (t lit rest : Text) → lit ≡ t ++ rest → strncmp_eq t lit (length t) ≡ true
unfolding strncmp_eq
strncmp_of_IsPrefix [] lit rest e = refl
strncmp_of_IsPrefix (x ∷ xs) [] rest e = absurd (cc)
strncmp_of_IsPrefix (x ∷ xs) (y ∷ ys) rest e =
    let tail = strncmp_of_IsPrefix xs ys rest (ground arith) in ground (arith, tail)

prefix_cases :
    (t lit : Text)
    → ((strncmp_eq t lit (length t) ≡ true) × IsPrefix t lit)
      ⊎ ((strncmp_eq t lit (length t) ≡ false) × (¬ IsPrefix t lit))
prefix_cases t lit = elim (Bool-cases (strncmp_eq t lit (length t))) [
  | inl e ↦ inl (e, IsPrefix-of_strncmp t lit e)
  | inr e ↦ inr (e, λ h. absurd (cc (e, strncmp_of_IsPrefix t lit h.0 h.1)))
]

taken :
    (a : Alarm) (len : ℕ) (b : Bool)
    → 0 < len
    → let (r, a') = use_param (record { param_len = len; param_ok = good; new_state = b }) a in
      (r.code ≡ changed_2_04) × (a'.state ≡ b)
unfolding use_param
taken a len b h = (ground arith, ground arith)

not_taken :
    (a : Alarm) (len : ℕ) (b : Bool)
    → 0 < len
    → let (r, a') = use_param (record { param_len = len; param_ok = bad_value; new_state = b }) a in
      (r.code ≡ bad_request_4_00) × (a' ≡ a)
unfolding use_param
not_taken a len b h = (ground arith, ground arith)

by_format_text :
    (p : JsonParser) (garbage : Text) (req : Request) (a : Alarm) (f : Option ContentFormat)
    → f ≡ some text_plain
    → by_format p garbage req a f ≡ use_param (text_param req) a
unfolding by_format
by_format_text p garbage req a f e = rw e

module _ (p : JsonParser) (garbage : Text) (req : Request) (a : Alarm) (len : ℕ) (t : Text)
    (format : req.content_format ≡ some text_plain) (var : req.post_variable state_par ≡ (len, t))
    (given : 0 < len) where
  handles :
      (ok : FieldResult) (b : Bool)
      → text_param req ≡ record { param_len = len; param_ok = ok; new_state = b }
      → res_put_handler p garbage req a
        ≡ use_param (record { param_len = len; param_ok = ok; new_state = b }) a
  unfolding res_put_handler
  handles ok b e =
      by_format_text p garbage req a req.content_format format ∙ ap (λ q. use_param q a) e

  reads : text_param req ≡ record {
    param_len = len;
    param_ok =
        if strncmp_eq t (codes "true") (length t) || strncmp_eq t (codes "false") (length t)
        then good
        else bad_value;
    new_state = strncmp_eq t (codes "true") (length t);
  }
  unfolding text_param
  reads = rw (var, lt→ltb 0 len given)

  switched :
      (b : Bool)
      → res_put_handler p garbage req a
        ≡ use_param (record { param_len = len; param_ok = good; new_state = b }) a
      → let (r, a') = res_put_handler p garbage req a in (r.code ≡ changed_2_04) × (a'.state ≡ b)
  switched b e = rw e (taken a len b given)

  refused :
      res_put_handler p garbage req a
        ≡ use_param (record { param_len = len; param_ok = bad_value; new_state = false }) a
      → let (r, a') = res_put_handler p garbage req a in (r.code ≡ bad_request_4_00) × (a' ≡ a)
  refused e = rw e (not_taken a len false given)

  -- A PUT in text form, by what stands behind `state=` in the payload: any prefix of "true", down to
  -- the empty one, switches the alarm on; any other prefix of "false" switches it off; any other text is
  -- refused, and the alarm stays as it was.
  res_put_handler_text :
      let (r, a') = res_put_handler p garbage req a in
      (IsPrefix t (codes "true") × (r.code ≡ changed_2_04) × (a'.state ≡ true))
      ⊎ (((¬ IsPrefix t (codes "true"))
            × IsPrefix t (codes "false")
            × (r.code ≡ changed_2_04)
            × (a'.state ≡ false))
          ⊎ ((¬ IsPrefix t (codes "true"))
              × (¬ IsPrefix t (codes "false"))
              × (r.code ≡ bad_request_4_00)
              × (a' ≡ a)))
  res_put_handler_text = elim (prefix_cases t (codes "true")) [
    | inl (yes_true, is_true) ↦
        let (code, state) = switched true (handles good true (reads ∙ rw yes_true)) in
        inl (is_true, code, state)
    | inr (no_true, not_true) ↦ elim (prefix_cases t (codes "false")) [
      | inl (yes_false, is_false) ↦
          let (code, state) =
            switched false (handles good false (reads ∙ rw (no_true, yes_false))) in
          inr (inl (not_true, is_false, code, state))
      | inr (no_false, not_false) ↦
          let (code, kept) = refused (handles bad_value false (reads ∙ rw (no_true, no_false))) in
          inr (inr (not_true, not_false, code, kept))
    ]
  ]
