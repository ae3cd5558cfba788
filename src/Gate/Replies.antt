-- ===== src/Gate/Replies.antt =====
-- What the handlers of Motes/lib/resources/res-gate.c answer: every PUT to one of the two gates is
-- answered, and a level that was put is what a GET reports.
use dam_monitoring.Prelude.{
  ℕ, zero, suc, ◌≤◌, ◌<◌, ◌≡◌, ◌≢◌, lt→ltb, inl, inr, refl, ap, ◌∙◌, true, false, not, ◌&&◌, Option,
  none, some, Bool-cases, Option-cases, arith, if◌then◌else◌, ◌==◌, length, length-append,
}
use dam_monitoring.Prelude.Int.{ℤ, pos, negsuc, eqb_ℤ}
use dam_monitoring.Clib.Text.{Text, codes, snprintf, snprintf_whole, strcmp_eq}
use dam_monitoring.Clib.Atoi.{atoi}
use dam_monitoring.Clib.Format.{format_d, length-format_d, atoi-format_d}
use dam_monitoring.Common.Json.{JsonParser, good, is_good}
use dam_monitoring.Common.Urn.{LinkAddr, length-urn}
use dam_monitoring.Coap.{
  ContentFormat, text_plain, application_json, other_format, content_2_05, changed_2_04, valid_2_03,
  Request, Response,
}
use dam_monitoring.Gate.{
  Gate, Gates, gate_at, set_gate, Param, text_param, json_param, use_param, by_format,
  res_put_handler, res_get_handler, res_index, move_gate, opening_level_par, level_message,
  level_report, buffer_len,
}
use dam_monitoring.Gate.Levels.{Outcome, res_put_handler-Outcome}

use_param_defined :
    (i : ℤ) (q : Param) (gs : Gates) (g : Gate) → gate_at i gs ≡ some g → use_param i q gs ≢ none
unfolding use_param
use_param_defined i q gs g found h = elim (Bool-cases (q.param_len == 0)) [
  | inl e ↦ cc (rw e at h)
  | inr e ↦ elim (Bool-cases (is_good q.param_ok)) [
    | inl good_param ↦ cc (rw (e, good_param, found) at h)
    | inr bad_param ↦ cc (rw (e, bad_param) at h)
  ]
]

use_param_answers :
    (i : ℤ) (q : Param) (gs : Gates) (g : Gate)
    → gate_at i gs ≡ some g
    → (r : Response) × (gs' : Gates) × (use_param i q gs ≡ some (r, gs'))
use_param_answers i q gs g found = elim (Option-cases (use_param i q gs)) [
  | inl e ↦ absurd (use_param_defined i q gs g found e)
  | inr ((r, gs'), e) ↦ (r, gs', e)
]

by_format_answers :
    (p : JsonParser) (garbage : Text) (req : Request) (i : ℤ) (gs : Gates) (g : Gate)
    (f : Option ContentFormat)
    → gate_at i gs ≡ some g
    → (r : Response) × (gs' : Gates) × (by_format p garbage req i gs f ≡ some (r, gs'))
unfolding by_format
by_format_answers p garbage req i gs g none found = (_, _, refl)
by_format_answers p garbage req i gs g (some text_plain) found =
    use_param_answers i (text_param req) gs g found
by_format_answers p garbage req i gs g (some application_json) found =
    use_param_answers i (json_param p garbage req) gs g found
by_format_answers p garbage req i gs g (some other_format) found = (_, _, refl)

-- Every PUT whose path names one of the two gates, whatever its format and payload, is answered, and
-- in one of three ways: it is refused with 4.00 and no gate changes; the gate has the level already,
-- which is answered with 2.03; or the gate is set to a level from 0 to 100 and starts blinking, which
-- is answered with 2.04.
res_put_handler_answers :
    (p : JsonParser) (garbage : Text) (req : Request) (i : ℤ) (gs : Gates) (g : Gate)
    → res_index req ≡ some i
    → gate_at i gs ≡ some g
    → (r : Response) × (gs' : Gates) × (res_put_handler p garbage req gs ≡ some (r, gs'))
      × Outcome i gs r gs'
res_put_handler_answers p garbage req i gs g at found =
    let (r, gs', e) = by_format_answers p garbage req i gs g req.content_format found in
    let run : res_put_handler p garbage req gs ≡ some (r, gs') =
      unfold res_put_handler in rw (at, e) in
    (r, gs', run, res_put_handler-Outcome p garbage req i gs gs' r at run)

level_text_ok :
    (n : ℕ)
    → n ≤ 100
    → not (strcmp_eq (format_d (pos n)) (codes "0")) && eqb_ℤ (pos n) (pos 0) ≡ false
level_text_ok zero h = zero_ok
  where
    zero_ok : not (strcmp_eq (format_d (pos 0)) (codes "0")) && eqb_ℤ (pos 0) (pos 0) ≡ false
    zero_ok = unfold strcmp_eq format_d in refl
level_text_ok (suc n) h = ground arith

text_param_level :
    (req : Request) (len n : ℕ)
    → n ≤ 100
    → 0 < len
    → req.post_variable opening_level_par ≡ (len, format_d (pos n))
    → text_param req ≡ record { param_len = len; param_ok = good; new_level = pos n }
unfolding text_param
text_param_level req len n h pos_len e =
    let read : atoi (format_d (pos n)) ≡ pos n = atoi-format_d (pos n) (omega arith) in
    rw (e, read, lt→ltb 0 len pos_len, level_text_ok n h) (ground arith)

put_runs :
    (i : ℤ) (gs : Gates) (g : Gate) (len n : ℕ)
    → gate_at i gs ≡ some g
    → 0 < len
    → use_param i (record { param_len = len; param_ok = good; new_level = pos n }) gs ≡ (
        let (g', code) = move_gate (pos n) g in
        some (
          record {
            code = code;
            json = true;
            body = snprintf buffer_len (level_message g'.opening_level);
          },
          set_gate i g' gs,
        ))
unfolding use_param
put_runs i gs g len n found h = let t : len == 0 ≡ false = ground arith in rw (t, found)

by_format_text :
    (p : JsonParser) (garbage : Text) (req : Request) (i : ℤ) (gs : Gates)
    (f : Option ContentFormat)
    → f ≡ some text_plain
    → by_format p garbage req i gs f ≡ use_param i (text_param req) gs
unfolding by_format
by_format_text p garbage req i gs f e = rw e

pub move_gate_code :
    (g : Gate) (v : ℤ)
    → (move_gate v g).1 ≡ (if eqb_ℤ g.opening_level v then valid_2_03 else changed_2_04)
unfolding move_gate
move_gate_code g v = ground arith

pub move_gate_level : (g : Gate) (v : ℤ) → (move_gate v g).0.opening_level ≡ v
unfolding move_gate
move_gate_level g v = ground arith

pub gate_at-set_gate :
    (i : ℤ) (gs : Gates) (g g' : Gate)
    → gate_at i gs ≡ some g
    → gate_at i (set_gate i g' gs) ≡ some g'
unfolding gate_at set_gate
gate_at-set_gate (pos zero) gs g g' e = refl
gate_at-set_gate (pos (suc zero)) gs g g' e = refl
gate_at-set_gate (pos (suc (suc n))) gs g g' e = cc
gate_at-set_gate (negsuc n) gs g g' e = cc

pub length-level_report : (addr : LinkAddr) (v : ℤ) → length (level_report addr v) < buffer_len
length-level_report addr v = omega (arith, length-append {0}, length-urn, length-format_d)

-- A PUT in text form whose variable `opening_level` is a level from 0 to 100 in decimal is taken at
-- each of the two gates: the gate then has that level, the answer is 2.04 if it had another level
-- and 2.03 if not, and a GET answers with the level that was put.
put_get :
    (p : JsonParser) (garbage : Text) (addr : LinkAddr) (req : Request) (i : ℤ) (gs : Gates)
    (g : Gate) (len n : ℕ)
    → res_index req ≡ some i
    → gate_at i gs ≡ some g
    → req.content_format ≡ some text_plain
    → req.post_variable opening_level_par ≡ (len, format_d (pos n))
    → 0 < len
    → n ≤ 100
    → (r : Response) × (gs' : Gates) × (res_put_handler p garbage req gs ≡ some (r, gs'))
      × (r.code ≡ (if eqb_ℤ g.opening_level (pos n) then valid_2_03 else changed_2_04))
      × ((answer : Response) × (res_get_handler addr req gs' ≡ some answer)
          × (answer.body ≡ level_report addr (pos n)))
unfolding res_put_handler
put_get p garbage addr req i gs g len n at found format var pos_len h =
    let (g', code) = move_gate (pos n) g in
    (
      record {
        code = code;
        json = true;
        body = snprintf buffer_len (level_message g'.opening_level);
      },
      set_gate i g' gs,
      rw at (
          by_format_text p garbage req i gs req.content_format format
          ∙ ap (λ q. use_param i q gs) (text_param_level req len n h pos_len var)
          ∙ put_runs i gs g len n found pos_len),
      move_gate_code g (pos n),
      (
        record {
          code = content_2_05;
          json = true;
          body = snprintf buffer_len (level_report addr g'.opening_level);
        },
        unfold res_get_handler in rw (at, gate_at-set_gate i gs g g' found),
        rw (move_gate_level g (pos n)) (
            snprintf_whole buffer_len (level_report addr (pos n))
              (length-level_report addr (pos n))),
      ),
    )
