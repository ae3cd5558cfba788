-- ===== src/GateController/Messages.antt =====
-- The registration message of Motes/firmwares/gate-controller/gate-controller.c.
use mathlib.Core.List.{append_assoc}
use dam_monitoring.Prelude.{
  ℕ, ◌≤◌, ◌<◌, ◌≡◌, ◌++◌, length, length-append, length-take, arith, Bool-cases, inl, inr, ◌==◌,
}
use dam_monitoring.Prelude.Int.{pos}
use dam_monitoring.Clib.Text.{Text, codes, snprintf, snprintf_whole}
use dam_monitoring.Clib.Format.{format_d, length-format_d}
use dam_monitoring.Registration.{addr_size, msg_len, uri_field, IsWithin}
use dam_monitoring.GateController.{tag, registration, message, gate_path, alarm_path}

pub length-snprintf_addr : (addr : Text) → length (snprintf addr_size addr) ≤ 39
unfolding snprintf
length-snprintf_addr addr = omega (arith, length-take {0} 39 addr)

length-tag : (flow : ℕ) → length (tag flow) ≤ 9
length-tag flow = elim (Bool-cases (flow == 1)) [
  | inl e ↦ rw e (omega arith)
  | inr e ↦ rw e (omega arith)
]

length-registration :
    (flow : ℕ) (addr : Text) → length addr ≤ 39 → length (registration flow addr) < msg_len
length-registration flow addr h = omega (arith, length-append {0}, length-format_d, length-tag flow)

abbrev before_gate : ℕ → Text
before_gate flow =
    codes "[{\"name\":\"outflow-"
    ++ (format_d (pos flow)
        ++ (codes "\", \"type\":\"gate\",\"description\":\"Gate controller\",\"tag\":\""
            ++ (tag flow ++ codes "\",")))

abbrev between : ℕ → Text
between flow =
    codes ",\"value\":0},{\"name\":\"alarm-"
    ++ (format_d (pos flow) ++ codes "\", \"type\":\"alarm\",\"description\":\"Alarm controller\",")

gate_uri :
    (flow : ℕ) (addr : Text) → IsWithin (uri_field addr (gate_path flow)) (registration flow addr)
gate_uri flow addr = (
  before_gate flow,
  between flow ++ (uri_field addr alarm_path ++ codes ",\"value\":0}]"),
  simp append_assoc,
)

alarm_uri : (flow : ℕ) (addr : Text) → IsWithin (uri_field addr alarm_path) (registration flow addr)
alarm_uri flow addr = (
  before_gate flow ++ (uri_field addr (gate_path flow) ++ between flow),
  codes ",\"value\":0}]",
  simp append_assoc,
)

message_whole :
    (flow : ℕ) (addr : Text)
    → length (registration flow addr) < msg_len
    → message flow addr ≡ registration flow addr
unfolding message
message_whole flow addr fits = snprintf_whole msg_len (registration flow addr) fits

-- For each address, whatever its text: the message fits its buffer of 512 bytes with nothing cut off,
-- and has a field `"uri"` for the path of the gate's resource and one for that of the alarm's, the
-- paths that the firmware then activates.
pub message_lem :
    (flow : ℕ) (addr : Text)
    → let shown = snprintf addr_size addr in
      (message flow shown ≡ registration flow shown)
      × (length (message flow shown) < msg_len)
      × IsWithin (uri_field shown (gate_path flow)) (message flow shown)
      × IsWithin (uri_field shown alarm_path) (message flow shown)
message_lem flow addr =
    let shown = snprintf addr_size addr in
    let fits = length-registration flow shown (length-snprintf_addr addr) in
    let whole = message_whole flow shown fits in
    (whole, rw whole fits, rw whole (gate_uri flow shown), rw whole (alarm_uri flow shown))
