-- ===== src/Demo/Mote1/Messages.antt =====
-- The registration message of Motes/demo/mote-1/mote-1.c.
use mathlib.Core.List.{append_assoc}
use dam_monitoring.Prelude.{◌≤◌, ◌<◌, ◌≡◌, ◌++◌, List, [], ◌∷◌, length, length-append, arith}
use dam_monitoring.Clib.Text.{Text, codes, snprintf, snprintf_whole}
use dam_monitoring.Registration.{addr_size, msg_len, uri_field, IsWithin}
use dam_monitoring.GateController.Messages.{length-snprintf_addr}
use dam_monitoring.Demo.Mote1.{registration, message, paths}

length-registration : (addr : Text) → length addr ≤ 39 → length (registration addr) < msg_len
length-registration addr h = omega (arith, length-append {0})

-- Each path of a list has its field in a message.
abbrev pub AllOffered : Text → Text → List Text → Type 0
AllOffered addr m [] = Unit {0}
AllOffered addr m (p ∷ ps) = IsWithin (uri_field addr p) m × AllOffered addr m ps

abbrev first : Text
first =
    codes
      "[{\"name\":\"outflow-1\",\"type\":\"gate\",\"description\":\"Gate controller\",\"tag\":\"Primary\","

abbrev second : Text
second =
    codes
      ",\"value\":0},{\"name\":\"outflow-2\", \"type\":\"gate\",\"description\":\"Gate controller\",\"tag\":\"Emergency\","

abbrev third : Text
third =
    codes
      ",\"value\":0},{\"name\":\"alarm\", \"type\":\"alarm\",\"description\":\"Alarm controller\","

abbrev last : Text
last = codes ",\"value\":0}]"

module _ (addr : Text) where
  abbrev gate_1 : Text
  gate_1 = uri_field addr (codes "actuator/gate/outflow-1")

  abbrev gate_2 : Text
  gate_2 = uri_field addr (codes "actuator/gate/outflow-2")

  abbrev alarm : Text
  alarm = uri_field addr (codes "actuator/alarm")

  all_offered : AllOffered addr (registration addr) paths
  all_offered = (
    (first, second ++ (gate_2 ++ (third ++ (alarm ++ last))), simp append_assoc),
    (
      (first ++ (gate_1 ++ second), third ++ (alarm ++ last), simp append_assoc),
      ((first ++ (gate_1 ++ (second ++ (gate_2 ++ third))), last, simp append_assoc), tt),
    ),
  )

message_whole :
    (addr : Text) → length (registration addr) < msg_len → message addr ≡ registration addr
unfolding message
message_whole addr fits = snprintf_whole msg_len (registration addr) fits

-- For each address, whatever its text: the message fits its buffer of 512 bytes with nothing cut off,
-- and has a field `"uri"` for each path that the mote then activates.
message-AllOffered :
    (addr : Text)
    → let shown = snprintf addr_size addr in
      (message shown ≡ registration shown)
      × (length (message shown) < msg_len)
      × AllOffered shown (message shown) paths
message-AllOffered addr =
    let shown = snprintf addr_size addr in
    let fits = length-registration shown (length-snprintf_addr addr) in
    let whole = message_whole shown fits in (whole, rw whole fits, rw whole (all_offered shown))
