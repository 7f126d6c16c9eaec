-- ===== src/Examples/Values.antt =====
-- Runs of the decimals and hashes of crates/dashboard-model.
use dashboard_quip_network.Prelude.{ℕ, ◌≡◌, ◌↔◌, refl, true, List, [], ◌∷◌, map, arith, ok}
use dashboard_quip_network.Decimal
use dashboard_quip_network.Decimal.{Text, DecimalString, from_u64}
use dashboard_quip_network.Decimal.Parse.{IsCanonical, from_str-ok_iff}
use dashboard_quip_network.Decimal.Print.{to_u64-from_u64}
use dashboard_quip_network.Hash
use dashboard_quip_network.Hash.{BlockHash}
use dashboard_quip_network.Hash.RoundTrip.{from_str-from_bytes}
use dashboard_quip_network.Hash.Errors.{lowercase, from_str-lowercase}

abbrev pub forty_two : DecimalString
forty_two = record { text = b'4' ∷ b'2' ∷ [] }

abbrev seven : DecimalString
seven = record { text = b'7' ∷ [] }

forty_two-IsCanonical : IsCanonical forty_two.text
forty_two-IsCanonical = ground arith

seven-IsCanonical : IsCanonical seven.text
seven-IsCanonical = ground arith

from_str-ok_iff_example :
    (Decimal.from_str forty_two.text ≡ ok forty_two)
    ↔ (IsCanonical forty_two.text × (forty_two ≡ record { text = forty_two.text }))
from_str-ok_iff_example = from_str-ok_iff forty_two.text forty_two

to_u64-from_u64_example :
    (Decimal.from_str (from_u64 9007199254740993).text ≡ ok (from_u64 9007199254740993))
    × (Decimal.to_u64 (from_u64 9007199254740993) ≡ ok 9007199254740993)
to_u64-from_u64_example = to_u64-from_u64 9007199254740993 (omega arith)

-- Thirty-two bytes.
abbrev quarter : List ℕ → List ℕ
quarter rest = 0 ∷ 17 ∷ 34 ∷ 171 ∷ 205 ∷ 239 ∷ 128 ∷ 255 ∷ rest

abbrev thirty_two : List ℕ
thirty_two = quarter (quarter (quarter (quarter [])))

from_str-from_bytes_example :
    Hash.from_str (Hash.from_bytes thirty_two).text ≡ ok (Hash.from_bytes thirty_two)
from_str-from_bytes_example = from_str-from_bytes thirty_two (ground arith) refl

-- A text of upper-case digits.
abbrev pub sixteen : List ℕ → List ℕ
sixteen rest =
    b'0' ∷ b'A' ∷ b'B' ∷ b'C' ∷ b'D' ∷ b'E' ∷ b'F' ∷ b'9' ∷ b'0' ∷ b'A' ∷ b'B' ∷ b'C' ∷ b'D' ∷ b'E'
    ∷ b'F' ∷ b'9' ∷ rest

abbrev pub upper : List ℕ
upper = b'0' ∷ b'x' ∷ sixteen (sixteen (sixteen (sixteen [])))

abbrev pub upper_bytes : List ℕ → List ℕ
upper_bytes rest = 10 ∷ 188 ∷ 222 ∷ 249 ∷ 10 ∷ 188 ∷ 222 ∷ 249 ∷ rest

abbrev pub upper_hash : BlockHash
upper_hash = record {
  bytes = upper_bytes (upper_bytes (upper_bytes (upper_bytes [])));
  text = upper;
}

upper_parses : Hash.from_str upper ≡ ok upper_hash
unfolding Hash.from_str Hash.strip_prefix Hash.from_hex Hash.decode_pairs Hash.hex_nibble
upper_parses = refl

from_str-lowercase_example :
    (h' : BlockHash) × (Hash.from_str (map lowercase upper) ≡ ok h')
    × (Hash.eq upper_hash h' ≡ true)
    × (upper_hash.text ≡ upper)
    × (h'.text ≡ map lowercase upper)
from_str-lowercase_example = from_str-lowercase upper upper_hash upper_parses
