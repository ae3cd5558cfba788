-- ===== src/Mqtt/ClientId.antt =====
-- The identifier under which the MQTT client (Motes/lib/mqtt-client/mqtt-client.c) is known to the
-- broker, and the part of the address that it is made of.
use dam_monitoring.Prelude.{ℕ, ◌↔◌, ◌≡◌, refl, ap, ◌∙◌, sym, List, [], ◌∷◌, arith, length}
use dam_monitoring.Clib.Format.{format_02x}
use dam_monitoring.Common.Urn.{LinkAddr, IsAddr, bytes_of_hex, hex_value, hex_pair}
use dam_monitoring.Mqtt.{client_id}

-- The bytes of an address that are printed.
abbrev id_bytes : LinkAddr → List ℕ
id_bytes a = a.u0 ∷ a.u1 ∷ a.u2 ∷ a.u5 ∷ a.u6 ∷ a.u7 ∷ []

bytes_of_hex-client_id : (a : LinkAddr) → IsAddr a → bytes_of_hex (client_id a) ≡ id_bytes a
unfolding client_id bytes_of_hex hex_value format_02x
bytes_of_hex-client_id a h = rw (
  hex_pair a.u0 h.b0,
  hex_pair a.u1 h.b1,
  hex_pair a.u2 h.b2,
  hex_pair a.u5 h.b5,
  hex_pair a.u6 h.b6,
  hex_pair a.u7 h.b7,
)

length-client_id : (a : LinkAddr) → length (client_id a) ≡ 12
unfolding client_id format_02x
length-client_id a = refl

-- Two devices have the same client identifier exactly when their addresses agree in the bytes 0, 1, 2, 5,
-- 6 and 7: the bytes 3 and 4 do not count. It has 12 bytes, so that its buffer cuts nothing off.
pub client_id-eq :
    (a b : LinkAddr)
    → IsAddr a
    → IsAddr b
    → (length (client_id a) ≡ 12)
      × ((client_id a ≡ client_id b) ↔ (
          (a.u0 ≡ b.u0)
          × (a.u1 ≡ b.u1)
          × (a.u2 ≡ b.u2)
          × (a.u5 ≡ b.u5)
          × (a.u6 ≡ b.u6)
          × (a.u7 ≡ b.u7)))
unfolding client_id format_02x
client_id-eq a b h k = (
  length-client_id a,
  (
    λ e.
        let l : id_bytes a ≡ id_bytes b =
          sym (bytes_of_hex-client_id a h) ∙ ap bytes_of_hex e ∙ bytes_of_hex-client_id b k in
        ground arith,
    λ (e0, e1, e2, e5, e6, e7). rw (e0, e1, e2, e5, e6, e7) refl,
  ),
)
