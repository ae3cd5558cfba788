-- ===== src/Registration/Required.antt =====
-- What makes a node registered in Motes/firmwares/gate-controller/gate-controller.c and
-- Motes/demo/mote-1/mote-1.c: the collector's consent alone.
use dam_monitoring.History
use dam_monitoring.Prelude.{
  ◌≡◌, ◌⊎◌, inl, inr, true, false, List, [], ◌∷◌, some, >>=-eq-some, eq_of_some, Bool-cases, ap,
  sym, ◌∙◌,
}
use dam_monitoring.Registration.{
  Network, created_2_01, other_code, no_response, Phase, waiting, requesting, serving, Controller,
  handle_coap_response, by_phase, Event, pause, reply, Firmware, post, serve, proceed,
  process_event,
}

-- The collector took a message: one of the replies is 2.01.
abbrev pub HasConsent : List Event → Type 0
HasConsent [] = ⊥
HasConsent (reply created_2_01 n ∷ es) = Unit {0}
HasConsent (e ∷ es) = HasConsent es

module _ (f : Firmware) where
  pub proceed_cases :
      (n : Network) (c : Controller)
      → ((c.registered ≡ true) × (proceed f n c ≡ some (serve f c)))
        ⊎ ((c.registered ≡ false) × (proceed f n c ≡ post f n c))
  unfolding proceed
  proceed_cases n c = elim (Bool-cases c.registered) [
    | inl e ↦ inl (e, simp e)
    | inr e ↦ inr (e, simp e)
  ]

  post_registered :
      (n : Network) (c : Controller) {c' : Controller}
      → post f n c ≡ some c'
      → c'.registered ≡ c.registered
  unfolding post
  post_registered n c h =
      let (addr, given, result) = >>=-eq-some n.address _ h in
      ap (λ x. x.registered) (sym (eq_of_some result))

  serve_registered :
      (c : Controller) {c' : Controller} → some (serve f c) ≡ some c' → c'.registered ≡ c.registered
  unfolding serve
  serve_registered c h = ap (λ x. x.registered) (sym (eq_of_some h))

  proceed_registered :
      (n : Network) (c : Controller) {c' : Controller}
      → proceed f n c ≡ some c'
      → c'.registered ≡ c.registered
  proceed_registered n c h = elim (proceed_cases n c) [
    | inl (done, e) ↦ serve_registered c (rw e at h)
    | inr (fresh, e) ↦ post_registered n c (rw e at h)
  ]

  process_event_registered :
      (e : Event) (es : List Event) (p : Phase) (c : Controller) {c' : Controller}
      → by_phase f p e c ≡ some c'
      → (c'.registered ≡ c.registered) ⊎ HasConsent (e ∷ es)
  unfolding by_phase handle_coap_response
  process_event_registered (pause n) es waiting c h = elim (Bool-cases (f.offline n)) [
    | inl e ↦ inl (ap (λ x. x.registered) (sym (eq_of_some (rw e at h))))
    | inr e ↦ inl (proceed_registered n c (rw e at h))
  ]
  process_event_registered (reply created_2_01 n) es requesting c h = inr tt
  process_event_registered (reply other_code n) es requesting c h = inl (proceed_registered n c h)
  process_event_registered (reply no_response n) es requesting c h = inl (proceed_registered n c h)
  process_event_registered (reply r n) es waiting c h =
      inl (ap (λ x. x.registered) (sym (eq_of_some h)))
  process_event_registered (pause n) es requesting c h =
      inl (ap (λ x. x.registered) (sym (eq_of_some h)))
  process_event_registered e es serving c h = inl (ap (λ x. x.registered) (sym (eq_of_some h)))

  consent_before : (e : Event) (es : List Event) → HasConsent es → HasConsent (e ∷ es)
  consent_before (pause n) es h = h
  consent_before (reply created_2_01 n) es h = tt
  consent_before (reply other_code n) es h = h
  consent_before (reply no_response n) es h = h

  pub registered-HasConsent :
      (es : List Event) (c : Controller) {c' : Controller}
      → c.registered ≡ false
      → History.run (process_event f) es c ≡ some c'
      → c'.registered ≡ true
      → HasConsent es
  unfolding History.run process_event
  registered-HasConsent [] c fresh h done = cc (fresh, done, ap (λ x. x.registered) (eq_of_some h))
  registered-HasConsent (e ∷ es) c fresh h done =
      let (c1, first, rest) =
        >>=-eq-some (process_event f e c) (History.run (process_event f) es) h in
      elim (process_event_registered e es c.phase c first) [
        | inl same ↦ consent_before e es (registered-HasConsent es c1 (same ∙ fresh) rest done)
        | inr consent ↦ consent
      ]
