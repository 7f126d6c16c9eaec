-- ===== src/Decimal/Print.antt =====
-- `From<u64> for DecimalString`: the printed digits and the number they stand for.
use dashboard_quip_network.Prelude.{
  ℕ, zero, suc, ◌+◌, ◌*◌, ◌/◌, ◌%◌, ◌≤◌, ◌<◌, ◌≡◌, inl, inr, refl, [], ◌∷◌, arith, ltb, All, ◌∙◌,
  ap, Bool-cases, ok, some,
}
use dashboard_quip_network.Prelude.Words.{u64_max}
use dashboard_quip_network.Decimal.{
  Text, digits_of, print_u64, from_u64, from_str, to_u64, parse_u64,
}
use dashboard_quip_network.Decimal.Parse.{IsDigit, IsCanonical, from_str-ok_iff}
use dashboard_quip_network.Decimal.Value.{value, value_from, pow10, to_u64-value, parse_u64-value}

more_fuel : (fuel n : ℕ) → n < 10 * pow10 fuel → 10 ≤ n → 0 < fuel
unfolding pow10
more_fuel zero n h k = omega arith
more_fuel (suc fuel) n h k = omega arith

leading-IsCanonical :
    (c : ℕ) (cs : Text) → IsDigit c → b'0' < c → All IsDigit cs → IsCanonical (c ∷ cs)
leading-IsCanonical c [] d h r = d
leading-IsCanonical c (k ∷ ks) d h r = (d, h, r)

-- With enough fuel the digits come before the rest, and their value is the number.
digits_of-value :
    (fuel n : ℕ) (rest : Text)
    → n < pow10 fuel
    → 0 < fuel
    → value (digits_of fuel n rest) ≡ value_from n rest
unfolding digits_of pow10
digits_of-value zero n rest h f = absurd (omega arith)
digits_of-value (suc fuel) n rest h f = elim (Bool-cases (ltb n 10)) [
  | inl e ↦ rw e (ap (λ x. value_from x rest) (omega arith))
  | inr e ↦ rw e (
      digits_of-value fuel (n / 10) ((b'0' + n % 10) ∷ rest) (omega arith)
        (more_fuel fuel n h (ground arith))
      ∙ ap (λ x. value_from x rest) (omega arith))
]

digits_of-IsCanonical :
    (fuel n : ℕ) (rest : Text)
    → n < pow10 fuel
    → 0 < fuel
    → All IsDigit rest
    → (0 < n)
    → IsCanonical (digits_of fuel n rest)
unfolding digits_of pow10
digits_of-IsCanonical zero n rest h f r p = absurd (omega arith)
digits_of-IsCanonical (suc fuel) n rest h f r p = elim (Bool-cases (ltb n 10)) [
  | inl e ↦ rw e (leading-IsCanonical (b'0' + n) rest (ground arith) (omega arith) r)
  | inr e ↦ rw e (
      digits_of-IsCanonical fuel (n / 10) ((b'0' + n % 10) ∷ rest) (omega arith)
        (more_fuel fuel n h (ground arith)) (omega arith, r) (ground arith))
]

print_u64-IsCanonical : (n : ℕ) → n ≤ u64_max → IsCanonical (print_u64 n)
unfolding print_u64 digits_of pow10
print_u64-IsCanonical zero m = omega arith
print_u64-IsCanonical (suc n) m =
    digits_of-IsCanonical 20 (suc n) [] (omega arith) (omega arith) tt (omega arith)

print_u64-value : (n : ℕ) → n ≤ u64_max → value (print_u64 n) ≡ n
unfolding print_u64 pow10
print_u64-value n m = digits_of-value 20 n [] (omega arith) (omega arith)

-- The decimal of a u64 is accepted by `from_str` and converts back to the number.
pub to_u64-from_u64 :
    (n : ℕ)
    → n ≤ u64_max
    → (from_str (from_u64 n).text ≡ ok (from_u64 n)) × (to_u64 (from_u64 n) ≡ ok n)
unfolding from_u64
to_u64-from_u64 n m =
    let c = print_u64-IsCanonical n m in
    (
      (from_str-ok_iff (print_u64 n) _).1 (c, refl),
      ground (arith, to_u64-value (record { text = print_u64 n }) c, print_u64-value n m),
    )

-- A printed u64 parses to the number.
pub parse_u64-print_u64 : (n : ℕ) → n ≤ u64_max → parse_u64 (print_u64 n) ≡ some n
parse_u64-print_u64 n m =
    ground (arith, parse_u64-value (print_u64 n) (print_u64-IsCanonical n m), print_u64-value n m)
