-- ===== src/Registration/Consent.antt =====
-- The end of the registration of Motes/firmwares/gate-controller/gate-controller.c and
-- Motes/demo/mote-1/mote-1.c: the collector's consent, after any refusals.
use dam_monitoring.History
use dam_monitoring.Prelude.{
  ◌+◌, ◌≡◌, ◌≢◌, refl, Bool, true, false, List, [], ◌∷◌, some, arith, length, ap, ◌∙◌,
}
use dam_monitoring.Clib.Text.{Text, snprintf}
use dam_monitoring.Registration.{
  Network, Reply, created_2_01, other_code, no_response, requesting, serving, Controller, idle,
  handle_coap_response, by_phase, Event, pause, reply, Firmware, activate, post, serve, proceed,
  process_event, addr_size,
}
use dam_monitoring.Registration.Runs.{run}

-- Refusals and silences, and then the consent.
abbrev pub replies : Network → List Reply → List Event
replies n [] = reply created_2_01 n ∷ []
replies n (r ∷ rs) = reply r n ∷ replies n rs

abbrev pub AllRefused : List Reply → Type 0
AllRefused [] = Unit {0}
AllRefused (r ∷ rs) = (r ≢ created_2_01) × AllRefused rs

module _ (f : Firmware) (n : Network) (addr : Text) (online : n.address ≡ some addr) where
  -- The state after a message is posted.
  abbrev posted : Controller → Controller
  posted c = record c {
    phase = requesting;
    n_msg = c.n_msg + 1;
    sent = f.message (snprintf addr_size addr) ∷ c.sent;
  }

  post_lem : (c : Controller) → c.registered ≡ false → proceed f n c ≡ some (posted c)
  unfolding proceed post
  post_lem c fresh = ground (arith, online)

  refused_lem :
      (r : Reply) (c : Controller)
      → r ≢ created_2_01
      → c.phase ≡ requesting
      → c.registered ≡ false
      → process_event f (reply r n) c ≡ some (posted c)
  unfolding process_event handle_coap_response
  refused_lem created_2_01 c h at fresh = absurd (h refl)
  refused_lem other_code c h at fresh =
      ap (λ p. by_phase f p (reply other_code n) c) at ∙ post_lem c fresh
  refused_lem no_response c h at fresh =
      ap (λ p. by_phase f p (reply no_response n) c) at ∙ post_lem c fresh

  consent_lem :
      (c : Controller)
      → c.phase ≡ requesting
      → process_event f (reply created_2_01 n) c ≡ some (serve f (record c { registered = true }))
  unfolding process_event by_phase proceed handle_coap_response
  consent_lem c at = ap (λ p. by_phase f p (reply created_2_01 n) c) at

  replies_lem :
      (rs : List Reply) (c : Controller)
      → AllRefused rs
      → c.phase ≡ requesting
      → c.registered ≡ false
      → (c' : Controller) × (run f (replies n rs) c ≡ some c')
        × (c'.phase ≡ serving)
        × (c'.registered ≡ true)
        × (c'.resources ≡ activate f.paths c.resources)
        × (c'.led ≡ true)
        × (length c'.sent ≡ length c.sent + length rs)
  unfolding History.run serve
  replies_lem [] c h at fresh = (
    serve f (record c { registered = true }),
    rw (consent_lem c at),
    refl,
    refl,
    refl,
    refl,
    omega arith,
  )
  replies_lem (r ∷ rs) c (h, hs) at fresh =
      let (c', runs, serves, done, active, lit, count) =
        replies_lem rs (posted c) hs (refl) (fresh) in
      (c', rw (refused_lem r c h at fresh) runs, serves, done, active, lit, omega (arith, count))

  -- Once the network gives an address and the firmware's loop lets it through, the process posts its
  -- message again after every refusal or silence of the collector, however many, and the consent ends
  -- it: the process serves, registered, with all its resources active and the led on, after one message
  -- more than there were refusals.
  pub consent_serves :
      (rs : List Reply) (webserver : Bool)
      → f.offline n ≡ false
      → AllRefused rs
      → (c : Controller) × (run f (pause n ∷ replies n rs) (record idle { webserver = webserver })
          ≡ some c)
        × (c.phase ≡ serving)
        × (c.registered ≡ true)
        × (c.resources ≡ activate f.paths [])
        × (c.led ≡ true)
        × (length c.sent ≡ 1 + length rs)
  unfolding History.run process_event by_phase
  consent_serves rs webserver through h =
      let start : Controller = record idle { webserver = webserver } in
      let (c, runs, serves, done, active, lit, count) = replies_lem rs (posted start) h refl refl in
      (c, rw (through, post_lem start refl) runs, serves, done, active, lit, omega (arith, count))
