-- ===== src/Registration/Runs.antt =====
-- Histories of the registration of Motes/firmwares/gate-controller/gate-controller.c and
-- Motes/demo/mote-1/mote-1.c: what is active when, and that the collector's consent ends it.
use dam_monitoring.History
use dam_monitoring.Prelude.{
  ◌≡◌, ◌≢◌, refl, inl, inr, Bool, true, false, List, [], ◌∷◌, Option, some, >>=-eq-some, eq_of_some,
  arith, if◌then◌else◌, length, Bool-cases, ap,
}
use mathlib.Core.Path.{subst}
use dam_monitoring.Clib.Text.{Text, snprintf}
use dam_monitoring.Registration.{
  Network, Reply, created_2_01, other_code, no_response, Phase, waiting, requesting, serving,
  Controller, idle, handle_coap_response, by_phase, Event, pause, reply, Firmware, activate, post,
  serve, proceed, process_event, addr_size,
}
use dam_monitoring.Registration.Required.{HasConsent, proceed_cases, registered-HasConsent}

-- Every message posted is the firmware's, for some address of the node.
abbrev pub IsSent : Firmware → List Text → Type 0
IsSent f [] = Unit {0}
IsSent f (m ∷ ms) = ((addr : Text) × (m ≡ f.message (snprintf addr_size addr))) × IsSent f ms

pub record Inv (f : Firmware) (c : Controller) : Type 0 where
  pub counted : c.n_msg ≡ length c.sent
  ours : IsSent f c.sent
  pub before : c.phase ≢ serving → (c.registered ≡ false) × (c.resources ≡ []) × (c.led ≡ false)
  pub after :
      c.phase ≡ serving
      → (c.registered ≡ true) × (c.resources ≡ activate f.paths []) × (c.led ≡ true) × (c.sent ≢ [])
  pub asked : c.phase ≡ requesting → c.sent ≢ []

module _ (f : Firmware) where
  abbrev pub run : List Event → Controller → Option Controller
  run = History.run (process_event f)

  post-Inv :
      (n : Network) (c : Controller) {c' : Controller}
      → c.registered ≡ false
      → c.resources ≡ []
      → c.led ≡ false
      → c.n_msg ≡ length c.sent
      → IsSent f c.sent
      → post f n c ≡ some c'
      → Inv f c'
  unfolding post
  post-Inv n c fresh bare dark counted ours h =
      let (addr, given, result) = >>=-eq-some n.address _ h in
      subst (Inv f) (eq_of_some result) (record {
        counted = omega (arith, counted);
        ours = ((addr, refl), ours);
        before = λ e. (fresh, bare, dark);
        after = λ e. cc;
        asked = λ e p. cc;
      })

  serve-Inv :
      (c : Controller)
      → c.registered ≡ true
      → c.resources ≡ []
      → c.sent ≢ []
      → c.n_msg ≡ length c.sent
      → IsSent f c.sent
      → Inv f (serve f c)
  unfolding serve
  serve-Inv c done bare asked counted ours = record {
    counted = counted;
    ours = ours;
    before = λ e. absurd (e refl);
    after = λ e. (done, ap (activate f.paths) bare, refl, asked);
    asked = λ e. cc;
  }

  proceed-Inv :
      (n : Network) (c : Controller) {c' : Controller}
      → c.resources ≡ []
      → c.led ≡ false
      → (c.registered ≡ true → c.sent ≢ [])
      → c.n_msg ≡ length c.sent
      → IsSent f c.sent
      → proceed f n c ≡ some c'
      → Inv f c'
  proceed-Inv n c bare dark asked counted ours h = elim (proceed_cases f n c) [
    | inl (done, e) ↦
        subst (Inv f) (eq_of_some (rw e at h)) (serve-Inv c done bare (asked done) counted ours)
    | inr (fresh, e) ↦ post-Inv n c fresh bare dark counted ours (rw e at h)
  ]

  waiting-Inv :
      (n : Network) (c : Controller) {c' : Controller}
      → c.phase ≡ waiting
      → Inv f c
      → (if f.offline n then some c else proceed f n c) ≡ some c'
      → Inv f c'
  waiting-Inv n c at v h = elim (Bool-cases (f.offline n)) [
    | inl e ↦ subst (Inv f) (eq_of_some (rw e at h)) v
    | inr e ↦
        let (fresh, bare, dark) = v.before (λ p. cc (p, at)) in
        proceed-Inv n c bare dark (λ p. cc (p, fresh)) v.counted v.ours (rw e at h)
  ]

  reply-Inv :
      (r : Reply) (n : Network) (c : Controller) {c' : Controller}
      → c.phase ≡ requesting
      → Inv f c
      → proceed f n (handle_coap_response r c) ≡ some c'
      → Inv f c'
  unfolding handle_coap_response
  reply-Inv created_2_01 n c at v h =
      let (fresh, bare, dark) = v.before (λ p. cc (p, at)) in
      proceed-Inv n _ bare dark (λ p. v.asked at) v.counted v.ours h
  reply-Inv other_code n c at v h =
      let (fresh, bare, dark) = v.before (λ p. cc (p, at)) in
      proceed-Inv n c bare dark (λ p. cc (p, fresh)) v.counted v.ours h
  reply-Inv no_response n c at v h =
      let (fresh, bare, dark) = v.before (λ p. cc (p, at)) in
      proceed-Inv n c bare dark (λ p. cc (p, fresh)) v.counted v.ours h

  by_phase-Inv :
      (p : Phase) (e : Event) (c : Controller) {c' : Controller}
      → c.phase ≡ p
      → Inv f c
      → by_phase f p e c ≡ some c'
      → Inv f c'
  unfolding by_phase
  by_phase-Inv waiting (pause n) c at v h = waiting-Inv n c at v h
  by_phase-Inv requesting (reply r n) c at v h = reply-Inv r n c at v h
  by_phase-Inv waiting (reply r n) c at v h = subst (Inv f) (eq_of_some h) v
  by_phase-Inv requesting (pause n) c at v h = subst (Inv f) (eq_of_some h) v
  by_phase-Inv serving e c at v h = subst (Inv f) (eq_of_some h) v

  process_event-Inv :
      (e : Event) (c c' : Controller) → Inv f c → process_event f e c ≡ some c' → Inv f c'
  unfolding process_event
  process_event-Inv e c c' v h = by_phase-Inv c.phase e c refl v h

  run-Inv : (is : List Event) (d d' : Controller) → Inv f d → run is d ≡ some d' → Inv f d'
  run-Inv = History.run_keeps ((process_event f)) (Inv f) process_event-Inv

  idle-Inv : (webserver : Bool) → Inv f (record idle { webserver = webserver })
  idle-Inv webserver = record {
    counted = refl;
    ours = tt;
    before = λ p. (refl, refl, refl);
    after = λ p. cc;
    asked = λ p. cc;
  }

  -- Over every history from the start, whether the firmware has a web server or not: as many messages
  -- were counted as posted, each is the firmware's for some address; before the process serves, it is
  -- not registered, no resource is active and the led is off; once it serves, it is registered, at
  -- least one message was posted, all the firmware's resources and no others are active, each once,
  -- and the led is on. It serves only if the collector answered 2.01 at some time.
  pub run-idle-Inv :
      (webserver : Bool) (es : List Event) {c : Controller}
      → run es (record idle { webserver = webserver }) ≡ some c
      → Inv f c × (c.phase ≡ serving → HasConsent es)
  run-idle-Inv webserver es h =
      let kept = run-Inv es _ _ (idle-Inv webserver) h in
      (kept, λ at. registered-HasConsent f es _ refl h (kept.after at).0)
