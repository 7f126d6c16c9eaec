-- ===== src/Hash/RoundTrip.antt =====
-- `From<[u8; 32]> for BlockHash` against `BlockHash::from_str`.
use Prim.Native.Nat.{bit_and, bit_or}
use dashboard_quip_network.Prelude.{
  ℕ, zero, suc, ◌+◌, ◌*◌, ◌/◌, ◌%◌, ◌<◌, ◌≡◌, refl, Bool, true, false, if◌then◌else◌, List, [], ◌∷◌,
  arith, ◌==◌, ok, length, All, ==_iff,
}
use dashboard_quip_network.Hash.{
  hex_nibble, decode_pairs, strip_prefix, from_hex, from_str, hex_digit, encode_bytes, encode_hex,
  from_bytes,
}

abbrev pub IsByte : ℕ → Type 0
IsByte b = b < 256

-- The test holds of every byte up to `top`, itself left out.
holds_under : (ℕ → Bool) → ℕ → Bool
holds_under test zero = true
holds_under test (suc top) = let below = holds_under test top in if test top then below else false

holds_under-lem :
    (test : ℕ → Bool) (top byte : ℕ) → byte < top → holds_under test top ≡ true → test byte ≡ true
unfolding holds_under
holds_under-lem test (suc top) byte l all_hold = ground (arith, holds_under-lem test top byte)
holds_under-lem test zero byte l all_hold = absurd (omega arith)

abbrev low_test : ℕ → Bool
low_test b = bit_and b 0x0f == b % 16

low_nibble : (b : ℕ) → b < 256 → bit_and b 0x0f ≡ b % 16
unfolding holds_under
low_nibble b small = (==_iff _ (b % 16)).0 (holds_under-lem low_test 256 b small refl)

abbrev join_test : ℕ → Bool
join_test b = bit_or (b / 16 * 16 % 256) (b % 16) == b

join_nibbles : (b : ℕ) → b < 256 → bit_or (b / 16 * 16 % 256) (b % 16) ≡ b
unfolding holds_under
join_nibbles b small = (==_iff _ b).0 (holds_under-lem join_test 256 b small refl)

hex_nibble-hex_digit : (n i : ℕ) → n < 16 → hex_nibble (hex_digit n) i ≡ ok n
unfolding hex_nibble hex_digit
hex_nibble-hex_digit n i h = ground (arith, low_nibble n)

decode_pairs-encode :
    (i : ℕ) (bs : List ℕ) → All IsByte bs → decode_pairs i (encode_bytes bs) ≡ ok bs
unfolding decode_pairs encode_bytes
decode_pairs-encode i [] h = refl
decode_pairs-encode i (b ∷ bs) h = rw (
  low_nibble b h.0,
  hex_nibble-hex_digit (b / 16) (2 + i * 2) (omega arith),
  hex_nibble-hex_digit (b % 16) (3 + i * 2) (omega arith),
  decode_pairs-encode (i + 1) bs h.1,
  join_nibbles b h.0,
)

length-encode : (bs : List ℕ) → length (encode_bytes bs) ≡ 2 * length bs
unfolding encode_bytes
length-encode [] = refl
length-encode (b ∷ bs) = omega (arith, length-encode bs)

-- For 32 bytes the text of `from_bytes` parses to the same hash, text included.
pub from_str-from_bytes :
    (bs : List ℕ)
    → All IsByte bs
    → length bs ≡ 32
    → from_str (from_bytes bs).text ≡ ok (from_bytes bs)
unfolding from_str from_hex from_bytes encode_hex strip_prefix
from_str-from_bytes bs h l = ground (arith, length-encode bs, decode_pairs-encode 0 bs h)
