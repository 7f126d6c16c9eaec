-- ===== src/Decimal/Value.antt =====
-- The number that decimal text stands for, and `DecimalString::to_u64`.
use dashboard_quip_network.Prelude.{
  ℕ, zero, suc, ◌+◌, ◌-◌, ◌*◌, ◌≤◌, ◌<◌, ◌≡◌, false, [], ◌∷◌, none, some, arith, leb, ◌==◌,
  if◌then◌else◌, ok, err, length, All, Bool-cases, inl, inr,
}
use dashboard_quip_network.Prelude.Words.{u64_max}
use dashboard_quip_network.Decimal.{Text, DecimalString, parse_digits, parse_u64, to_u64}
use dashboard_quip_network.Decimal.Parse.{IsDigit, IsCanonical}

-- Horner's rule over the digits, from the left.
abbrev pub value_from : ℕ → Text → ℕ
value_from acc [] = acc
value_from acc (c ∷ cs) = value_from (acc * 10 + (c - b'0')) cs

abbrev pub value : Text → ℕ
value t = value_from 0 t

-- 10 to the power of a length.
unfoldable pub pow10 : ℕ → ℕ
pow10 zero = 1
pow10 (suc n) = 10 * pow10 n

pub pow10_pos : (n : ℕ) → 1 ≤ pow10 n
unfolding pow10
pow10_pos zero = omega arith
pow10_pos (suc n) = omega (arith, pow10_pos n)

pub pow10_mono : (m n : ℕ) → m ≤ n → pow10 m ≤ pow10 n
unfolding pow10
pow10_mono zero n h = pow10_pos n
pow10_mono (suc m) zero h = absurd (omega arith)
pow10_mono (suc m) (suc n) h = omega (arith, pow10_mono m n (omega arith))

pub value_from-acc : (acc : ℕ) (cs : Text) → value_from acc cs ≡ acc * pow10 (length cs) + value cs
unfolding pow10
value_from-acc acc [] = omega arith
value_from-acc acc (c ∷ cs) =
    omega
      (arith, value_from-acc (acc * 10 + (c - b'0')) cs, value_from-acc (0 * 10 + (c - b'0')) cs)

pub value-lt : (cs : Text) → All IsDigit cs → value cs < pow10 (length cs)
unfolding pow10
value-lt [] h = omega arith
value-lt (c ∷ cs) h = grind (arith, value_from-acc (0 * 10 + (c - b'0')) cs, value-lt cs h.1)

value_from-ge : (acc : ℕ) (cs : Text) → acc ≤ value_from acc cs
value_from-ge acc [] = omega arith
value_from-ge acc (c ∷ cs) = omega (arith, value_from-ge (acc * 10 + (c - b'0')) cs)

parse_digits-value :
    (acc : ℕ) (cs : Text)
    → acc ≤ u64_max
    → All IsDigit cs
    → parse_digits acc cs
      ≡ (if leb (value_from acc cs) u64_max then some (value_from acc cs) else none)
unfolding parse_digits
parse_digits-value acc [] m h = ground arith
parse_digits-value acc (c ∷ cs) m h = elim (Bool-cases (leb (acc * 10 + (c - b'0')) u64_max)) [
  | inl e ↦ ground (arith, parse_digits-value (acc * 10 + (c - b'0')) cs (ground arith) h.1)
  | inr e ↦ ground (arith, value_from-ge (acc * 10 + (c - b'0')) cs)
]

pub parse_u64-value :
    (t : Text)
    → IsCanonical t
    → parse_u64 t ≡ (if leb (value t) u64_max then some (value t) else none)
unfolding parse_u64
parse_u64-value [] h = absurd h
parse_u64-value (c ∷ []) h = parse_digits-value 0 (c ∷ []) (omega arith) (h, tt)
parse_u64-value (c ∷ k ∷ ks) h =
    let plus : (c == b'+') ≡ false = ground arith in
    rw plus (parse_digits-value 0 (c ∷ k ∷ ks) (omega arith) (h.0, h.2))

-- A canonical decimal converts to a u64 exactly if its value fits, and then to its value.
pub to_u64-value :
    (d : DecimalString)
    → IsCanonical d.text
    → to_u64 d
      ≡ (if leb (value d.text) u64_max then ok (value d.text) else err (record { value = d }))
unfolding to_u64
to_u64-value d h = elim (Bool-cases (leb (value d.text) u64_max)) [
  | inl e ↦ rw (parse_u64-value d.text h, e)
  | inr e ↦ rw (parse_u64-value d.text h, e)
]

parse_digits-le :
    (acc n : ℕ) (cs : Text) → acc ≤ u64_max → parse_digits acc cs ≡ some n → n ≤ u64_max
unfolding parse_digits
parse_digits-le acc n [] m e = ground arith
parse_digits-le acc n (c ∷ cs) m e = ground (arith, parse_digits-le (acc * 10 + (c - b'0')) n cs)

-- A parsed number is a u64.
pub parse_u64-le : (t : Text) (n : ℕ) → parse_u64 t ≡ some n → n ≤ u64_max
unfolding parse_u64
parse_u64-le [] n e = cc e
parse_u64-le (c ∷ []) n e = parse_digits-le 0 n (c ∷ []) (omega arith) e
parse_u64-le (c ∷ k ∷ ks) n e =
    ground (arith, parse_digits-le 0 n (k ∷ ks), parse_digits-le 0 n (c ∷ k ∷ ks))
