-- ===== src/Hash/Errors.antt =====
-- Which text `BlockHash::from_str` accepts, and the case of the digits.
use Prim.Native.Nat.{bit_or}
use dashboard_quip_network.Prelude.{
  ℕ, suc, ◌+◌, ◌-◌, ◌*◌, ◌%◌, ◌≤◌, ◌≡◌, ◌⊎◌, ◌↔◌, inl, inr, refl, true, ◌&&◌, List, [], ◌∷◌, arith,
  leb, if◌then◌else◌, ok, length, All, map, is_ok, >>=-eq-ok, Result-cases, ap, ◌∙◌, sym,
}
use dashboard_quip_network.Hash.{
  BlockHash, hex_nibble, decode_pairs, strip_prefix, from_hex, from_str, same_bytes, eq,
}

abbrev pub IsHexDigit : ℕ → Type 0
IsHexDigit c = ((b'0' ≤ c) × (c ≤ b'9')) ⊎ (((b'a' ≤ c) × (c ≤ b'f')) ⊎ ((b'A' ≤ c) × (c ≤ b'F')))

-- `0x` and exactly 64 hexadecimal digits.
abbrev pub IsHashText : List ℕ → Type 0
IsHashText (z ∷ x ∷ hex) = (z ≡ b'0') × (x ≡ b'x') × (length hex ≡ 64) × All IsHexDigit hex
IsHashText _ = ⊥

-- `to_ascii_lowercase` of a byte
abbrev pub lowercase : ℕ → ℕ
lowercase c = if leb b'A' c && leb c b'Z' then c + 32 else c

hex_nibble-ok : (c i : ℕ) → IsHexDigit c → (n : ℕ) × (hex_nibble c i ≡ ok n)
unfolding hex_nibble
hex_nibble-ok c i (inl h) = (c - b'0', ground arith)
hex_nibble-ok c i (inr (inl h)) = (c - b'a' + 10, ground arith)
hex_nibble-ok c i (inr (inr h)) = (c - b'A' + 10, ground arith)

hex_nibble-IsHexDigit : (c i n : ℕ) → hex_nibble c i ≡ ok n → IsHexDigit c
unfolding hex_nibble
hex_nibble-IsHexDigit c i n e = ground arith

hex_nibble-lowercase : (c i j n : ℕ) → hex_nibble c i ≡ ok n → hex_nibble (lowercase c) j ≡ ok n
unfolding hex_nibble
hex_nibble-lowercase c i j n e = ground arith

-- An even number of digits decodes to half as many bytes.
decode_pairs-ok :
    (i k : ℕ) (hex : List ℕ)
    → All IsHexDigit hex
    → length hex ≡ 2 * k
    → (bs : List ℕ) × (decode_pairs i hex ≡ ok bs) × (length bs ≡ k)
unfolding decode_pairs
decode_pairs-ok i k [] h l = ([], refl, omega arith)
decode_pairs-ok i k (c ∷ []) h l = absurd (omega arith)
decode_pairs-ok i k (c ∷ d ∷ rest) h l =
    let p = hex_nibble-ok c (2 + i * 2) h.0 in
    let q = hex_nibble-ok d (3 + i * 2) h.1.0 in
    let r = decode_pairs-ok (i + 1) (k - 1) rest h.1.1 (omega arith) in
    (bit_or (p.0 * 16 % 256) q.0 ∷ r.0, rw (p.1, q.1, r.1), omega (arith, r.2))

decode_pairs-AllHex :
    (i k : ℕ) (hex bs : List ℕ)
    → decode_pairs i hex ≡ ok bs
    → length hex ≡ 2 * k
    → All IsHexDigit hex
unfolding decode_pairs
decode_pairs-AllHex i k [] bs e l = tt
decode_pairs-AllHex i k (c ∷ []) bs e l = absurd (omega arith)
decode_pairs-AllHex i k (c ∷ d ∷ rest) bs e l =
    let (high, p, e1) = >>=-eq-ok (hex_nibble c (2 + i * 2)) _ e in
    let (low, q, e2) = >>=-eq-ok (hex_nibble d (3 + i * 2)) _ e1 in
    let (more, r, _) = >>=-eq-ok (decode_pairs (i + 1) rest) _ e2 in
    (
      hex_nibble-IsHexDigit c _ high p,
      (
        hex_nibble-IsHexDigit d _ low q,
        decode_pairs-AllHex (i + 1) (k - 1) rest more r (omega arith),
      ),
    )

decode_pairs-lowercase :
    (i : ℕ) (hex bs : List ℕ)
    → decode_pairs i hex ≡ ok bs
    → decode_pairs i (map lowercase hex) ≡ ok bs
unfolding decode_pairs
decode_pairs-lowercase i [] bs e = e
decode_pairs-lowercase i (c ∷ []) bs e = e
decode_pairs-lowercase i (c ∷ d ∷ rest) bs e =
    let (high, p, e1) = >>=-eq-ok (hex_nibble c (2 + i * 2)) _ e in
    let (low, q, e2) = >>=-eq-ok (hex_nibble d (3 + i * 2)) _ e1 in
    let (more, r, e3) = >>=-eq-ok (decode_pairs (i + 1) rest) _ e2 in
    rw
      (
        hex_nibble-lowercase c (2 + i * 2) (2 + i * 2) high p,
        hex_nibble-lowercase d (3 + i * 2) (3 + i * 2) low q,
        decode_pairs-lowercase (i + 1) rest more r,
      )
      e3

parsed_parts :
    (z x : ℕ) (hex : List ℕ) (h : BlockHash)
    → from_str (z ∷ x ∷ hex) ≡ ok h
    → (z ≡ b'0')
      × (x ≡ b'x')
      × (length hex ≡ 64)
      × (decode_pairs 0 hex ≡ ok h.bytes)
      × (h.text ≡ z ∷ x ∷ hex)
unfolding from_str strip_prefix from_hex
parsed_parts z x hex h e = elim (Result-cases (decode_pairs 0 hex)) [
  | inl (bs, p) ↦ ground (arith, p)
  | inr (b, p) ↦ absurd (ground (arith, p))
]

parses :
    (hex bs : List ℕ)
    → length hex ≡ 64
    → decode_pairs 0 hex ≡ ok bs
    → length bs ≡ 32
    → from_str (b'0' ∷ b'x' ∷ hex) ≡ ok (record { bytes = bs; text = b'0' ∷ b'x' ∷ hex })
unfolding from_str strip_prefix from_hex
parses hex bs l p m = ground (arith, p)

-- A hash parses exactly from `0x` and 64 hexadecimal digits.
pub from_str-accepts_iff : (raw : List ℕ) → (is_ok (from_str raw) ≡ true) ↔ IsHashText raw
from_str-accepts_iff [] = unfold from_str strip_prefix in (λ e. cc, λ h. absurd h)
from_str-accepts_iff (z ∷ []) = unfold from_str strip_prefix in (λ e. cc, λ h. absurd h)
from_str-accepts_iff (z ∷ x ∷ hex) = (
  λ e. elim (Result-cases (from_str (z ∷ x ∷ hex))) [
    | inl (h, p) ↦
        let (ez, ex, l, d, _) = parsed_parts z x hex h p in
        (ez, ex, l, decode_pairs-AllHex 0 32 hex h.bytes d l)
    | inr (b, p) ↦ absurd (cc p)
  ],
  λ (ez, ex, l, a).
      let (bs, d, m) = decode_pairs-ok 0 32 hex a l in rw (ez, ex, parses hex bs l d m),
)

same_bytes_refl : (bs : List ℕ) → same_bytes bs bs ≡ true
unfolding same_bytes
same_bytes_refl [] = refl
same_bytes_refl (b ∷ bs) = ground (arith, same_bytes_refl bs)

length-map_lem {ℓ} : {A : Type ℓ} (f : A → A) (xs : List A) → length (map f xs) ≡ length xs
length-map_lem f [] = refl
length-map_lem f (x ∷ xs) = ap suc (length-map_lem f xs)

-- A text that parses also parses with its letters in lower case, to an equal hash that keeps the
-- text it was read from.
pub from_str-lowercase :
    (raw : List ℕ) (h : BlockHash)
    → from_str raw ≡ ok h
    → (h' : BlockHash) × (from_str (map lowercase raw) ≡ ok h')
      × (eq h h' ≡ true)
      × (h.text ≡ raw)
      × (h'.text ≡ map lowercase raw)
from_str-lowercase [] h e = unfold from_str strip_prefix in cc e
from_str-lowercase (z ∷ []) h e = unfold from_str strip_prefix in cc e
from_str-lowercase (z ∷ x ∷ hex) h e =
    let (ez, ex, l, d, t) = parsed_parts z x hex h e in
    let a = decode_pairs-AllHex 0 32 hex h.bytes d l in
    let (bs, d', m) = decode_pairs-ok 0 32 hex a l in
    let same : bs ≡ h.bytes = cc in
    let lz : lowercase z ≡ b'0' = ground arith in
    let lx : lowercase x ≡ b'x' = ground arith in
    (
      record { bytes = h.bytes; text = map lowercase (z ∷ x ∷ hex) },
      rw (lz, lx)
          (parses (map lowercase hex) h.bytes (length-map_lem lowercase hex ∙ l)
            (decode_pairs-lowercase 0 hex h.bytes d) (ap length (sym same) ∙ m)),
      unfold eq in same_bytes_refl h.bytes,
      t,
      refl,
    )
