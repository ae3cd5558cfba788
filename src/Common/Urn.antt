-- ===== src/Common/Urn.antt =====
-- `URN` of Motes/lib/common/common.c: the name that a device puts into its messages.
use dam_monitoring.Prelude.{
  ℕ, ◌+◌, ◌-◌, ◌*◌, ◌/◌, ◌%◌, ◌<◌, ◌≡◌, refl, List, [], ◌∷◌, ◌++◌, arith, ltb, if◌then◌else◌,
  length,
}
use dam_monitoring.Clib.Text.{Text, codes, snprintf}
use dam_monitoring.Clib.Format.{format_02x, hex_digit}

-- `linkaddr_node_addr.u8[0]` to `u8[7]`.
pub record LinkAddr : Type 0 where
  pub u0 : ℕ
  pub u1 : ℕ
  pub u2 : ℕ
  pub u3 : ℕ
  pub u4 : ℕ
  pub u5 : ℕ
  pub u6 : ℕ
  pub u7 : ℕ

-- Each is a byte.
pub record IsAddr (a : LinkAddr) : Type 0 where
  pub b0 : a.u0 < 256
  pub b1 : a.u1 < 256
  pub b2 : a.u2 < 256
  pub b3 : a.u3 < 256
  pub b4 : a.u4 < 256
  pub b5 : a.u5 < 256
  pub b6 : a.u6 < 256
  pub b7 : a.u7 < 256

abbrev pub urn_buf_len : ℕ
urn_buf_len = 31

-- `%02x` for each byte of a list.
abbrev pub hex_bytes : List ℕ → Text → Text
hex_bytes [] rest = rest
hex_bytes (b ∷ bs) rest = format_02x b ++ hex_bytes bs rest

-- The last two bytes are printed in the order 7, 6.
unfoldable pub urn : LinkAddr → Text
unfolding snprintf format_02x
urn a = snprintf urn_buf_len (
    codes "urn:dev:mac:"
    ++ hex_bytes (a.u0 ∷ a.u1 ∷ a.u2 ∷ a.u3 ∷ a.u4 ∷ a.u5 ∷ a.u7 ∷ a.u6 ∷ []) (codes "/"))

pub length-urn : (a : LinkAddr) → length (urn a) ≡ 29
unfolding urn
length-urn a = refl

unfoldable pub hex_value : ℕ → ℕ
hex_value c = if ltb c b'a' then c - b'0' else c - b'a' + 10

-- The bytes that pairs of hexadecimal digits stand for.
unfoldable pub bytes_of_hex : Text → List ℕ
bytes_of_hex (x ∷ y ∷ r) = (hex_value x * 16 + hex_value y) ∷ bytes_of_hex r
bytes_of_hex _ = []

drop_prefix : Text → Text → Text
drop_prefix (x ∷ xs) (y ∷ ys) = drop_prefix xs ys
drop_prefix xs ys = ys

-- The bytes of a device name.
pub urn_bytes : Text → List ℕ
unfolding bytes_of_hex drop_prefix
urn_bytes t = bytes_of_hex (drop_prefix (codes "urn:dev:mac:") t)

pub hex_pair :
    (b : ℕ) → b < 256 → hex_value (hex_digit (b / 16)) * 16 + hex_value (hex_digit (b % 16)) ≡ b
unfolding hex_value hex_digit
hex_pair b h = ground arith
