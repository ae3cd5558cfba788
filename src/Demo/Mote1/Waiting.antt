-- ===== src/Demo/Mote1/Waiting.antt =====
-- The wait for the network in Motes/demo/mote-1/mote-1.c, and in
-- Motes/firmwares/gate-controller/gate-controller.c.
use dam_monitoring.Prelude.{
  ℕ, ◌+◌, ◌≡◌, ◌≢◌, true, false, ◌∷◌, none, some, arith, Option-cases, ◌⊎◌, inl, inr,
}
use dam_monitoring.Clib.Text.{Text, snprintf}
use dam_monitoring.Registration.{
  Network, waiting, requesting, Controller, pause, post, process_event, addr_size,
}
use dam_monitoring.GateController
use dam_monitoring.Demo.Mote1

-- Mote 1 waits as long as it has no global address and then posts its message: no network that it
-- wakes to makes it read through a null pointer.
pause_lem :
    (n : Network) (c : Controller)
    → c.phase ≡ waiting
    → c.registered ≡ false
    → ((n.address ≡ none) × (process_event Mote1.firmware (pause n) c ≡ some c))
      ⊎ ((addr : Text) × (n.address ≡ some addr)
          × (process_event Mote1.firmware (pause n) c
              ≡ some (record c {
                phase = requesting;
                n_msg = c.n_msg + 1;
                sent = Mote1.message (snprintf addr_size addr) ∷ c.sent;
              })))
unfolding process_event post Mote1.offline
pause_lem n c at fresh = elim (Option-cases n.address) [
  | inl e ↦ inl (e, ground arith)
  | inr (addr, e) ↦ inr (addr, e, ground arith)
]

pause_defined :
    (n : Network) (c : Controller)
    → c.phase ≡ waiting
    → c.registered ≡ false
    → process_event Mote1.firmware (pause n) c ≢ none
pause_defined n c at fresh undefined = elim (pause_lem n c at fresh) [
  | inl (e, waits) ↦ cc (waits, undefined)
  | inr (addr, e, posts) ↦ cc (posts, undefined)
]

both_wake :
    (flow : ℕ) (n : Network) (c : Controller)
    → n.address ≡ none
    → n.default_route ≡ true
    → c.phase ≡ waiting
    → c.registered ≡ false
    → (process_event (GateController.firmware flow) (pause n) c ≡ none)
      × (process_event Mote1.firmware (pause n) c ≡ some c)
unfolding process_event post GateController.offline Mote1.offline
both_wake flow n c no_address route at fresh = (ground (arith), ground (arith))

-- A node that waits with no global address, and with a default route: the gate controller reads
-- through a null pointer, and mote 1 goes on waiting. No network that mote 1 wakes to while it waits
-- makes it read through a null pointer.
pub null_address :
    (flow : ℕ) (n : Network) (c : Controller)
    → n.address ≡ none
    → n.default_route ≡ true
    → c.phase ≡ waiting
    → c.registered ≡ false
    → (process_event (GateController.firmware flow) (pause n) c ≡ none)
      × (process_event Mote1.firmware (pause n) c ≡ some c)
      × ((m : Network) → process_event Mote1.firmware (pause m) c ≢ none)
null_address flow n c no_address route at fresh =
    let (faults, waits) = both_wake flow n c no_address route at fresh in
    (faults, waits, λ m. pause_defined m c at fresh)
