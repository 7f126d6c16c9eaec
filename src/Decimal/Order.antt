-- ===== src/Decimal/Order.antt =====
-- `Ord for DecimalString`: the order by length and then by text, against the order of values.
use dashboard_quip_network.Prelude.{
  ℕ, ◌+◌, ◌-◌, ◌*◌, ◌≤◌, ◌<◌, ◌≡◌, ◌⊎◌, inl, inr, [], ◌∷◌, arith, compare, Ordering, length, All,
  ap, sym,
}
use dashboard_quip_network.Decimal.{Text, DecimalString, compare_text, cmp}
use dashboard_quip_network.Decimal.Parse.{IsDigit, IsCanonical, digits-utf8_len}
use dashboard_quip_network.Decimal.Value.{
  value, value_from, pow10, pow10_mono, value_from-acc, value-lt,
}

canonical-IsDigits : (t : Text) → IsCanonical t → All IsDigit t
canonical-IsDigits [] h = absurd h
canonical-IsDigits (c ∷ []) h = (h, tt)
canonical-IsDigits (c ∷ k ∷ ks) h = (h.0, h.2)

compare-lt : (a b : ℕ) → a < b → compare a b ≡ Ordering.lt
compare-lt a b h = ground arith

compare-gt : (a b : ℕ) → b < a → compare a b ≡ Ordering.gt
compare-gt a b h = ground arith

order_cases : (a b : ℕ) → (a < b) ⊎ ((a ≡ b) ⊎ (b < a))
order_cases a b = ground arith

compare-eq : (a b : ℕ) → a ≡ b → compare a b ≡ Ordering.eq
compare-eq a b h = ground arith

-- A smaller leading part decides, since the rest is below the power of its length.
leading_decides :
    (x y : ℕ) (cs ds : Text)
    → x < y
    → length cs ≡ length ds
    → All IsDigit cs
    → value_from x cs < value_from y ds
leading_decides x y cs ds h l d =
    grind (arith, value_from-acc x cs, value_from-acc y ds, value-lt cs d, ap pow10 l)

compare_text-value :
    (acc : ℕ) (cs ds : Text)
    → length cs ≡ length ds
    → All IsDigit cs
    → All IsDigit ds
    → compare_text cs ds ≡ compare (value_from acc cs) (value_from acc ds)
unfolding compare_text
compare_text-value acc [] [] l p q = ground arith
compare_text-value acc [] (d ∷ ds) l p q = absurd (omega arith)
compare_text-value acc (c ∷ cs) [] l p q = absurd (omega arith)
compare_text-value acc (c ∷ cs) (d ∷ ds) l p q = elim (order_cases c d) [
  | inl h ↦
      rw (compare-lt c d h, compare_text)
        (sym (
          compare-lt _ _ (
            leading_decides (acc * 10 + (c - b'0')) (acc * 10 + (d - b'0')) cs ds (omega arith)
              (omega arith) p.1)))
  | inr (inl h) ↦
      rw (compare-eq c d h, compare_text, h)
        (compare_text-value (acc * 10 + (d - b'0')) cs ds (omega arith) p.1 q.1)
  | inr (inr h) ↦
      rw (compare-gt c d h, compare_text)
        (sym (
          compare-gt _ _ (
            leading_decides (acc * 10 + (d - b'0')) (acc * 10 + (c - b'0')) ds cs (omega arith)
              (omega arith) q.1)))
]

canonical-ge :
    (c k : ℕ) (ks : Text) → IsCanonical (c ∷ k ∷ ks) → pow10 (length (k ∷ ks)) ≤ value (c ∷ k ∷ ks)
canonical-ge c k ks h = grind (arith, value_from-acc (0 * 10 + (c - b'0')) (k ∷ ks))

-- A shorter canonical text stands for a smaller number.
shorter-lt : (s t : Text) → IsCanonical s → IsCanonical t → length s < length t → value s < value t
shorter-lt s [] p q h = absurd q
shorter-lt [] (c ∷ []) p q h = absurd p
shorter-lt (x ∷ xs) (c ∷ []) p q h = absurd (omega arith)
shorter-lt s (c ∷ k ∷ ks) p q h = omega (
  arith,
  value-lt s (canonical-IsDigits s p),
  pow10_mono (length s) (length (k ∷ ks)) (omega arith),
  canonical-ge c k ks q,
)

-- The order of canonical decimals is the order of the numbers they stand for.
pub cmp-value :
    (a b : DecimalString)
    → IsCanonical a.text
    → IsCanonical b.text
    → cmp a b ≡ compare (value a.text) (value b.text)
unfolding cmp
cmp-value a b p q =
    rw
      (
        digits-utf8_len a.text (canonical-IsDigits a.text p),
        digits-utf8_len b.text (canonical-IsDigits b.text q),
      )
      (elim (order_cases (length a.text) (length b.text)) [
        | inl h ↦ rw (compare-lt _ _ h) (sym (compare-lt _ _ (shorter-lt a.text b.text p q h)))
        | inr (inl h) ↦ rw (compare-eq _ _ h) (
            compare_text-value 0 a.text b.text h (canonical-IsDigits a.text p)
              (canonical-IsDigits b.text q))
        | inr (inr h) ↦
            rw (compare-gt _ _ h) (sym (compare-gt _ _ (shorter-lt b.text a.text q p h)))
      ])
