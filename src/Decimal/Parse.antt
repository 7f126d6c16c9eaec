-- ===== src/Decimal/Parse.antt =====
-- Which text `DecimalString::from_str` accepts.
use dashboard_quip_network.Prelude.{
  ℕ, ◌+◌, ◌≤◌, ◌<◌, ◌≡◌, ◌⊎◌, ◌↔◌, refl, inl, inr, false, ◌&&◌, [], ◌∷◌, arith, ltb, ◌==◌, Result,
  ok, err, length, All, ◌∙◌, ap, sym,
}
use dashboard_quip_network.Decimal.{
  Text, DecimalString, DecimalStringError, utf8_width, utf8_len, classify_digit, classify_rest,
  from_str,
}

abbrev pub IsDigit : ℕ → Type 0
IsDigit c = (b'0' ≤ c) × (c ≤ b'9')

-- Not empty, only digits, and no leading zero but in the text `0`.
abbrev pub IsCanonical : Text → Type 0
IsCanonical [] = ⊥
IsCanonical (c ∷ []) = IsDigit c
IsCanonical (c ∷ d ∷ ds) = IsDigit c × (b'0' < c) × All IsDigit (d ∷ ds)

pub digits-utf8_len : (t : Text) → All IsDigit t → utf8_len t ≡ length t
unfolding utf8_len
digits-utf8_len [] h = refl
digits-utf8_len (c ∷ cs) h = ground (arith, digits-utf8_len cs h.1)

classify_digit-ok : (i c : ℕ) → (classify_digit i c ≡ ok tt) ↔ IsDigit c
unfolding classify_digit
classify_digit-ok i c = (λ e. ground arith, λ h. ground arith)

classify_rest-ok : (i : ℕ) (cs : Text) → (classify_rest i cs ≡ ok tt) ↔ All IsDigit cs
unfolding classify_rest
classify_rest-ok i [] = (λ _. tt, λ _. refl)
classify_rest-ok i (c ∷ cs) = (
  λ e. ground (arith, (classify_digit-ok i c).0, (classify_rest-ok (i + utf8_width c) cs).0),
  λ h. ground (arith, (classify_digit-ok i c).1, (classify_rest-ok (i + utf8_width c) cs).1),
)

-- A check returns, or fails with an error.
check_cases :
    (m : Result DecimalStringError (Unit {0}))
    → (m ≡ ok tt) ⊎ ((e : DecimalStringError) × (m ≡ err e))
check_cases (ok tt) = inl refl
check_cases (err e) = inr (e, refl)

accepted-IsDigits :
    (c : ℕ) (cs : Text) (d : DecimalString)
    → from_str (c ∷ cs) ≡ ok d
    → IsDigit c × All IsDigit cs × (d ≡ record { text = c ∷ cs })
unfolding from_str
accepted-IsDigits c cs d e = elim (check_cases (classify_digit 0 c)) [
  | inr (x, f) ↦ absurd (ground (arith, f))
  | inl f ↦ elim (check_cases (classify_rest (utf8_width c) cs)) [
    | inr (x, g) ↦ absurd (ground (arith, f, g))
    | inl g ↦ (
      (classify_digit-ok 0 c).0 f,
      (classify_rest-ok (utf8_width c) cs).0 g,
      ground (arith, f, g),
    )
  ]
]

accepted-no_zero :
    (c k : ℕ) (ks : Text) (d : DecimalString) → from_str (c ∷ k ∷ ks) ≡ ok d → b'0' < c
unfolding from_str utf8_len
accepted-no_zero c k ks d e =
    let a = accepted-IsDigits c (k ∷ ks) d e in
    ground
      (arith, a, (classify_digit-ok 0 c).1 a.0, (classify_rest-ok (utf8_width c) (k ∷ ks)).1 a.1)

accepts-digits :
    (c : ℕ) (cs : Text)
    → IsDigit c
    → All IsDigit cs
    → (c == b'0' && ltb 1 (utf8_len (c ∷ cs))) ≡ false
    → from_str (c ∷ cs) ≡ ok (record { text = c ∷ cs })
unfolding from_str
accepts-digits c cs p q z =
    ground (arith, (classify_digit-ok 0 c).1 p, (classify_rest-ok (utf8_width c) cs).1 q)

-- `from_str` of a decimal returns a value exactly for canonical text, and keeps the text.
pub from_str-ok_iff :
    (t : Text) (d : DecimalString)
    → (from_str t ≡ ok d) ↔ (IsCanonical t × (d ≡ record { text = t }))
unfolding from_str
from_str-ok_iff [] d = (λ e. cc, λ h. absurd h.0)
from_str-ok_iff (c ∷ []) d = (
  λ e. ((accepted-IsDigits c [] d e).0, (accepted-IsDigits c [] d e).2),
  λ h. accepts-digits c [] h.0 tt (unfold utf8_len in ground arith) ∙ ap ok (sym h.1),
)
from_str-ok_iff (c ∷ k ∷ ks) d = (
  λ e. let a = accepted-IsDigits c (k ∷ ks) d e in ((a.0, accepted-no_zero c k ks d e, a.1), a.2),
  λ h. accepts-digits c (k ∷ ks) h.0.0 h.0.2 (ground arith) ∙ ap ok (sym h.1),
)
