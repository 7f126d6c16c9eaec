-- ===== src/Hash.antt =====
-- crates/dashboard-model/src/hash.rs: 32-byte block hashes as `0x` and 64 hexadecimal digits. Text is
-- the list of its bytes.
pub mod RoundTrip
pub mod Errors
use Prim.Native.Nat.{bit_and, bit_or}
use dashboard_quip_network.Prelude.{
  ℕ, zero, suc, ◌+◌, ◌-◌, ◌*◌, ◌/◌, ◌%◌, Bool, true, false, ◌&&◌, List, [], ◌∷◌, Option, none, some,
  leb, ltb, ◌==◌, if◌then◌else◌, Result, ok, err, ◌>>=◌, length,
}

pub data BlockHashError : Type 0 where
  missing_prefix : BlockHashError
  invalid_length : ℕ → BlockHashError
  invalid_hex : ℕ → ℕ → BlockHashError

pub record BlockHash : Type 0 where
  pub bytes : List ℕ
  pub text : List ℕ

-- `PartialEq` compares the bytes.
unfoldable pub same_bytes : List ℕ → List ℕ → Bool
same_bytes [] [] = true
same_bytes (a ∷ as') (b ∷ bs) = a == b && same_bytes as' bs
same_bytes _ _ = false

unfoldable pub eq : BlockHash → BlockHash → Bool
eq a b = same_bytes a.bytes b.bytes

unfoldable pub hex_nibble : ℕ → ℕ → Result BlockHashError ℕ
hex_nibble byte index =
    if leb b'0' byte && leb byte b'9'
    then ok (byte - b'0')
    else if leb b'a' byte && leb byte b'f'
    then ok (byte - b'a' + 10)
    else if leb b'A' byte && leb byte b'F'
    then ok (byte - b'A' + 10)
    else err (invalid_hex index byte)

-- The loop over the chunks of two bytes; a last odd byte belongs to no chunk.
unfoldable pub decode_pairs : ℕ → List ℕ → Result BlockHashError (List ℕ)
decode_pairs pair_index (first ∷ second ∷ rest) = do
  high ← hex_nibble first (2 + pair_index * 2)
  low ← hex_nibble second (3 + pair_index * 2)
  bytes ← decode_pairs (pair_index + 1) rest
  ok (bit_or (high * 16 % 256) low ∷ bytes)
decode_pairs pair_index (last ∷ []) = ok []
decode_pairs pair_index [] = ok []

-- `raw.strip_prefix("0x")`
unfoldable pub strip_prefix : List ℕ → Option (List ℕ)
strip_prefix (z ∷ x ∷ rest) = if z == b'0' && x == b'x' then some rest else none
strip_prefix _ = none

unfoldable pub from_hex : List ℕ → List ℕ → Result BlockHashError BlockHash
from_hex raw hex =
    if length hex == 64
    then (do
      bytes ← decode_pairs 0 hex
      if length bytes == 32
          then ok (record { bytes = bytes; text = raw })
          else err (invalid_length (length hex)))
    else err (invalid_length (length hex))

unfoldable pub from_str : List ℕ → Result BlockHashError BlockHash
from_str raw = elim (strip_prefix raw) [ none ↦ err missing_prefix | some hex ↦ from_hex raw hex ]

unfoldable pub hex_digit : ℕ → ℕ
hex_digit n =
    let nibble = bit_and n 0x0f in if ltb nibble 10 then b'0' + nibble else b'a' + (nibble - 10)

unfoldable pub encode_bytes : List ℕ → List ℕ
encode_bytes [] = []
encode_bytes (b ∷ bs) = hex_digit (b / 16) ∷ hex_digit (bit_and b 0x0f) ∷ encode_bytes bs

unfoldable pub encode_hex : List ℕ → List ℕ
encode_hex bytes = b'0' ∷ b'x' ∷ encode_bytes bytes

-- `From<[u8; 32]>`
unfoldable pub from_bytes : List ℕ → BlockHash
from_bytes bytes = record { bytes = bytes; text = encode_hex bytes }
