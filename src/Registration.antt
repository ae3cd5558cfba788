-- ===== src/Registration.antt =====
-- The registration at the collector that Motes/firmwares/gate-controller/gate-controller.c and
-- Motes/demo/mote-1/mote-1.c share: the process waits for the network, posts its message until the
-- collector takes it, and then activates its resources.
pub mod Required
pub mod Runs
pub mod Consent
use dam_monitoring.Prelude.{
  ℕ, ◌+◌, ◌≡◌, ◌++◌, Bool, true, false, List, [], ◌∷◌, Option, some, ◌>>=◌, if◌then◌else◌,
}
use dam_monitoring.Clib.Text.{Text, codes, snprintf}

abbrev pub msg_len : ℕ
msg_len = 512

abbrev pub addr_size : ℕ
addr_size = 40

-- What the process finds of the network: the preferred global address, as
-- `uiplib_ipaddr_snprint` prints it, and whether there is a default route.
pub record Network : Type 0 where
  pub address : Option Text
  pub default_route : Bool

-- How `COAP_BLOCKING_REQUEST` ends: with a response, whose code is 2.01 or another, or without one.
-- The handler is called with a response only.
pub data Reply : Type 0 where
  created_2_01 other_code no_response : Reply

-- Where the process stands: before the first message, at a request, or past its last statement.
pub data Phase : Type 0 where
  waiting requesting serving : Phase

-- The static variables, with what the process has done: the payloads posted and the paths of the
-- activated resources, the latest first, the led, and whether it has started the web server.
pub record Controller : Type 0 where
  pub phase : Phase
  pub registered : Bool
  pub n_msg : ℕ
  pub sent : List Text
  pub led : Bool
  pub resources : List Text
  pub webserver : Bool

-- A process before `PROCESS_BEGIN()`.
abbrev pub idle : Controller
idle = record {
  phase = waiting;
  registered = false;
  n_msg = 0;
  sent = [];
  led = false;
  resources = [];
  webserver = false;
}

unfoldable pub handle_coap_response : Reply → Controller → Controller
handle_coap_response created_2_01 c = record c { registered = true }
handle_coap_response _ c = c

-- What wakes the process: the scheduler while it waits, and the end of a request.
pub data Event : Type 0 where
  pause : Network → Event
  reply : Reply → Network → Event

-- A firmware gives the test of its first loop, its message for an address, and its resources.
pub record Firmware : Type 0 where
  pub offline : Network → Bool
  pub message : Text → Text
  pub paths : List Text

abbrev activate : List Text → List Text → List Text
activate [] active = active
activate (p ∷ ps) active = activate ps (p ∷ active)

module _ (f : Firmware) where
  -- One round of the second loop, up to the request. `none` is a read through the null pointer that
  -- `uip_ds6_get_global` returns.
  unfoldable pub post : Network → Controller → Option Controller
  unfolding snprintf
  post n c = n.address >>= λ addr. some (record c {
    phase = requesting;
    n_msg = c.n_msg + 1;
    sent = f.message (snprintf addr_size addr) ∷ c.sent;
  })

  -- What follows the second loop.
  unfoldable pub serve : Controller → Controller
  serve c = record c { phase = serving; led = true; resources = activate f.paths c.resources }

  -- The test of the second loop.
  unfoldable pub proceed : Network → Controller → Option Controller
  proceed n c = if c.registered then some (serve c) else post n c

  by_phase : Phase → Event → Controller → Option Controller
  unfolding proceed handle_coap_response
  by_phase waiting (pause n) c = if f.offline n then some c else proceed n c
  by_phase requesting (reply r n) c = proceed n (handle_coap_response r c)
  by_phase _ _ c = some c

  -- The process from one wake-up to the next; an event that it does not wait for changes nothing.
  unfoldable pub process_event : Event → Controller → Option Controller
  unfolding by_phase
  process_event e c = by_phase c.phase e c

-- The URI under which a node offers a path.
abbrev pub uri : Text → Text → Text
uri addr path = codes "coap://[" ++ (addr ++ (codes "]/" ++ path))

-- A text that stands within another.
abbrev pub IsWithin : Text → Text → Type 0
IsWithin t s = (before : Text) × (after : Text) × (s ≡ before ++ (t ++ after))

-- A field `"uri"` of a message.
abbrev pub uri_field : Text → Text → Text
uri_field addr path = codes "\"uri\":\"" ++ (uri addr path ++ codes "\"")
