-- ===== src/GateController/Actuators.antt =====
-- The actuators of a node, the gates of Motes/lib/resources/res-gate.c behind the paths of
-- Motes/demo/mote-1/mote-1.c with the alarm of Motes/lib/resources/res-alarm.c, as three registers: a
-- read gives what was last written. A node of Motes/firmwares/gate-controller/gate-controller.c is the
-- case in which one of the two gates gets no request.
use dam_monitoring.History
use dam_monitoring.Prelude.{
  ◌≡◌, ◌<◌, refl, ap, ◌∙◌, Bool, true, false, List, [], ◌∷◌, Option, some, ◌>>=◌, length,
  length-append, arith, if◌then◌else◌,
}
use dam_monitoring.Clib.Text.{Text, snprintf_whole}
use dam_monitoring.Common.Json.{JsonParser}
use dam_monitoring.Common.Urn.{LinkAddr, length-urn}
use dam_monitoring.Coap.{Request, Response, content_2_05}
use dam_monitoring.Gate
use dam_monitoring.Gate.{Gates, init_gates, level_report}
use dam_monitoring.Alarm
use dam_monitoring.Alarm.{Alarm, init_alarm, state_report}
use dam_monitoring.Alarm.Wanted.{wanted, set_by, put_state}
use dam_monitoring.GateController.Register
use dam_monitoring.GateController.Register.{
  Slot, Levels, at_path, level_of, view, step-view, get_view,
}

-- The state of the two resource files.
pub record Actuators : Type 0 where
  pub gates : Gates
  pub alarm : Alarm

-- What happens to them: a PUT to a gate or the expiry of its timer, a PUT to the alarm, and the expiry
-- of its timer if that runs.
pub data Input : Type 0 where
  to_gates : Register.Input → Input
  put_alarm : Text → Request → Input
  expire_alarm : Input

abbrev pub initial : Actuators
initial = record { gates = init_gates; alarm = init_alarm }

-- The abstract state: the levels, and whether the alarm is on.
pub record Settings : Type 0 where
  pub levels : Levels
  pub on : Bool

abbrev pub settings : Actuators → Settings
settings a = record { levels = view a.gates; on = a.alarm.state }

module _ (p : JsonParser) where
  unfoldable pub step : Input → Actuators → Option Actuators
  step (to_gates i) a = Register.step p i a.gates >>= λ gs. some (record a { gates = gs })
  step (put_alarm garbage req) a =
      some (record a { alarm = (Alarm.res_put_handler p garbage req a.alarm).1 })
  step expire_alarm a =
      some (record a { alarm = if a.alarm.timer then Alarm.blink a.alarm else a.alarm })

  -- The specification: a PUT writes what its request asks for, if it asks for anything.
  unfoldable pub spec : Input → Settings → Settings
  spec (to_gates i) s = record s { levels = Register.spec p i s.levels }
  spec (put_alarm garbage req) s = record s { on = set_by (wanted p garbage req) s.on }
  spec expire_alarm s = s

  pub settings_after : List Input → Settings → Settings
  settings_after [] s = s
  settings_after (i ∷ is) s = settings_after is (spec i s)

  -- Every input is taken, and takes the settings where the specification does.
  step-settings :
      (i : Input) (a : Actuators)
      → (a' : Actuators) × (step i a ≡ some a') × (settings a' ≡ spec i (settings a))
  unfolding step spec Alarm.blink
  step-settings (to_gates i) a =
      let (gs, runs, seen) = step-view p i a.gates in
      (record a { gates = gs }, rw runs, ap (λ l. record { levels = l; on = a.alarm.state }) seen)
  step-settings (put_alarm garbage req) a = (
    _,
    refl,
    ap (λ b. record { levels = view a.gates; on = b }) (put_state p garbage req a.alarm),
  )
  step-settings expire_alarm a =
      (_, refl, ap (λ b. record { levels = view a.gates; on = b }) (ground arith))

  run-settings :
      (is : List Input) (a : Actuators)
      → (a' : Actuators) × (History.run step is a ≡ some a')
        × (settings a' ≡ settings_after is (settings a))
  unfolding History.run settings_after
  run-settings [] a = (a, refl, refl)
  run-settings (i ∷ is) a =
      let (between, e, seen) = step-settings i a in
      let (a', runs, v) = run-settings is between in
      (a', rw (e, runs), v ∙ ap (settings_after is) seen)

length-state_report : (addr : LinkAddr) (b : Bool) → length (state_report addr b) < Alarm.buffer_len
length-state_report addr true = omega (arith, length-append {0}, length-urn)
length-state_report addr false = omega (arith, length-append {0}, length-urn)

get_state :
    (addr : LinkAddr) (a : Alarm) → (Alarm.res_get_handler addr a).body ≡ state_report addr a.state
unfolding Alarm.res_get_handler
get_state addr a =
    snprintf_whole Alarm.buffer_len (state_report addr a.state) (length-state_report addr a.state)

-- The resources of a node refine three registers. From the start, any sequence of PUTs to the two
-- gates' paths and to the alarm, whatever their format and payload, and of timer expiries is handled;
-- the levels and the alarm's state are then those that the last accepted PUTs asked for, whatever
-- else came between; a GET to either gate's path answers 2.05 with that gate's level, and one to the
-- alarm with the alarm's state.
pub actuators_refine :
    (p : JsonParser) (is : List Input) (s : Slot) (addr : LinkAddr) (req : Request)
    → let after = settings_after p is (settings initial) in
      (a : Actuators) × (History.run (step p) is initial ≡ some a)
      × (settings a ≡ after)
      × ((answer : Response) × (Gate.res_get_handler addr (at_path s req) a.gates ≡ some answer)
          × (answer.code ≡ content_2_05)
          × (answer.body ≡ level_report addr (level_of s after.levels)))
      × ((Alarm.res_get_handler addr a.alarm).body ≡ state_report addr after.on)
actuators_refine p is s addr req =
    let (a, runs, v) = run-settings p is initial in
    let (answer, got, code, body) = get_view s addr req a.gates in
    (
      a,
      runs,
      v,
      (answer, got, code, body ∙ ap (λ x. level_report addr (level_of s x.levels)) v),
      get_state addr a.alarm ∙ ap (λ x. state_report addr x.on) v,
    )
