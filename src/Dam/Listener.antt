-- ===== src/Dam/Listener.antt =====
-- A device that listens on the topic `simulation`, as the sensors of Motes/firmwares and Motes/demo do:
-- what it keeps of one channel changes by the messages alone.
use dam_monitoring.History
use dam_monitoring.History.{All}
use dam_monitoring.Prelude.{
  ◌≡◌, Bool, true, false, if◌then◌else◌, sym, ap, ◌∙◌, List, [], ◌∷◌, ◌++◌, Option, some,
  >>=-eq-some, eq_of_some,
}
use dam_monitoring.Prelude.Int.{ℤ}
use dam_monitoring.Clib.Text.{Text}
use dam_monitoring.Common.Json.{JsonParser}
use dam_monitoring.SensorSim.{Channel}
use dam_monitoring.Mqtt.{MqttEvent, publish_event}
use dam_monitoring.SensorSim.Heard.{IsClean, settle, settle-append, settle_none}

-- The payload of an event of the engine.
abbrev pub heard : MqttEvent → List Text
heard (publish_event garbage topic chunk) = chunk ∷ []
heard _ = []

-- An event whose buffers do not hold the channel's name.
abbrev pub IsCleanEvent : Channel → MqttEvent → Type 0
IsCleanEvent c (publish_event garbage topic chunk) = IsClean c (garbage c)
IsCleanEvent c _ = Unit {0}

-- What both branches keep, the conditional keeps.
pub if_both {ℓ κ} :
    {A : Type ℓ} {B : Type κ} (f : A → B) (b : Bool) (x y : A) {v : B}
    → f x ≡ v
    → f y ≡ v
    → f (if b then x else y) ≡ v
if_both f true x y hx hy = hx
if_both f false x y hx hy = hy

-- The payloads of an input: one for a message, none for anything else. `IsQuiet` holds for the inputs
-- that leave the setting to the messages.
pub record Listener (p : JsonParser) (c : Channel) (D I : Type 0) (IsQuiet : I → Type 0)
    : Type 0 where
  pub step : I → D → Option D
  pub payload : I → List Text
  pub setting : D → ℤ
  pub hears :
      (i : I) (d d' : D)
      → IsQuiet i
      → step i d ≡ some d'
      → setting d' ≡ settle p c (payload i) (setting d)

-- The messages of a history, in order.
abbrev pub messages {ℓ} : {I : Type ℓ} → (I → List Text) → List I → List Text
messages payload [] = []
messages payload (i ∷ is) = payload i ++ messages payload is

module _ {D I : Type 0} {p : JsonParser} {c : Channel} {IsQuiet : I → Type 0}
    (L : Listener p c D I IsQuiet) where
  -- Over a history, the setting is what its messages settle.
  pub run_hears :
      (is : List I) (d : D) {d' : D}
      → All IsQuiet is
      → History.run L.step is d ≡ some d'
      → L.setting d' ≡ settle p c (messages L.payload is) (L.setting d)
  unfolding History.run
  run_hears [] d quiet h = ap L.setting (sym (eq_of_some h)) ∙ sym (settle_none p c (L.setting d))
  run_hears (i ∷ is) d quiet h =
      let (between, first, rest) = >>=-eq-some (L.step i d) (History.run L.step is) h in
      run_hears is between quiet.1 rest
      ∙ ap (settle p c (messages L.payload is)) (L.hears i d between quiet.0 first)
      ∙ sym (settle-append p c (L.payload i) (messages L.payload is) (L.setting d))
