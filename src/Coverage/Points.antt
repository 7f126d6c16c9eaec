-- ===== src/Coverage/Points.antt =====
-- What a coverage says of single heights: the meaning of `contains` and of `cover`.
use dashboard_quip_network.Prelude.{
  ℕ, ◌+◌, ◌-◌, ◌≤◌, ◌<◌, ◌≡◌, refl, ◌⊎◌, inl, inr, ◌↔◌, Bool, true, false, ◌&&◌, ◌||◌, not, Option,
  none, some, List, [], ◌∷◌, ◌++◌, max, leb, ltb, any, any-append, All, arith, Bool-cases, ok,
  is_ok, ◌∙◌, ap,
}
use dashboard_quip_network.Prelude.Words.{u64_max, saturating_add}
use dashboard_quip_network.Coverage.{
  Interval, Coverage, contains, meets, split_gap, push_gaps, subtract_gaps, insert_gap, sort_gaps,
  extend, cover,
}
use dashboard_quip_network.Coverage.Gaps.{IsInside, Chain-IsInside}
use dashboard_quip_network.Coverage.Valid.{Bounded, IsValid, cover-IsValid}

-- The height is covered: the interval of this one height is contained.
abbrev pub covers : Coverage → ℕ → Bool
covers c n = contains c n n

-- The height lies in the interval `[a, b]`.
abbrev pub within : ℕ → ℕ → ℕ → Bool
within a b n = leb a n && leb n b

-- The height lies in one of the gaps.
abbrev pub in_gaps : ℕ → List Interval → Bool
in_gaps n gs = any (meets n n) gs

in_gaps-split :
    (n a b : ℕ) (g : Interval)
    → a ≤ b
    → in_gaps n (split_gap a b g) ≡ (meets n n g && not (within a b n))
unfolding split_gap
in_gaps-split n a b g h = ground arith

in_gaps-subtract :
    (n a b : ℕ) (gs : List Interval)
    → a ≤ b
    → in_gaps n (subtract_gaps a b gs) ≡ (in_gaps n gs && not (within a b n))
unfolding subtract_gaps
in_gaps-subtract n a b [] h = refl
in_gaps-subtract n a b (g ∷ gs) h =
    any-append (meets n n) (split_gap a b g) (subtract_gaps a b gs)
    ∙ ground (arith, in_gaps-split n a b g h, in_gaps-subtract n a b gs h)

in_gaps-insert :
    (n : ℕ) (g : Interval) (gs : List Interval)
    → in_gaps n (insert_gap g gs) ≡ (meets n n g || in_gaps n gs)
unfolding insert_gap
in_gaps-insert n g [] = refl
in_gaps-insert n g (k ∷ ks) = ground (arith, in_gaps-insert n g ks)

in_gaps-sort : (n : ℕ) (gs : List Interval) → in_gaps n (sort_gaps gs) ≡ in_gaps n gs
unfolding sort_gaps
in_gaps-sort n [] = refl
in_gaps-sort n (g ∷ gs) =
    in_gaps-insert n g (sort_gaps gs) ∙ ap (λ x. meets n n g || x) (in_gaps-sort n gs)

in_gaps-push :
    (n low high a b : ℕ) (gs : List Interval)
    → in_gaps n (push_gaps low high a b gs) ≡ (
        in_gaps n gs
        || (ltb (saturating_add high 1) a && within (high + 1) (a - 1) n)
        || (ltb (saturating_add b 1) low && within (b + 1) (low - 1) n))
unfolding push_gaps
in_gaps-push n low high a b gs = elim (Bool-cases (ltb (saturating_add high 1) a)) [
  | inl e ↦ rw e (
      any-append (meets n n) (gs ++ _ ∷ []) _
      ∙ ground (arith, any-append (meets n n) gs (record { first = high + 1; last = a - 1 } ∷ [])))
  | inr e ↦ rw e (any-append (meets n n) gs _ ∙ ground arith)
]

extend-points :
    (low high : Option ℕ) (n a b : ℕ) (c : Coverage)
    → a ≤ b
    → b ≤ u64_max
    → Bounded low high c.gaps
    → c.low ≡ low
    → c.high ≡ high
    → covers (extend low high a b c) n ≡ (covers c n || within a b n)
unfolding contains extend
extend-points none none n a b c ab bm h el eh = rw (el, eh, h) (ground arith)
extend-points (some low) (some high) n a b c ab bm h el eh =
    rw (el, eh, in_gaps-sort, in_gaps-subtract n a b _ ab, in_gaps-push) (ground (arith, h.0, h.1))
extend-points none (some high) n a b c ab bm h el eh = absurd h
extend-points (some low) none n a b c ab bm h el eh = absurd h

meets-point :
    (a b n : ℕ) (gs : List Interval)
    → a ≤ n
    → n ≤ b
    → any (meets a b) gs ≡ false
    → any (meets n n) gs ≡ false
meets-point a b n [] p q e = refl
meets-point a b n (g ∷ gs) p q e = ground (arith, meets-point a b n gs p q)

contains-covers :
    (c : Coverage) (a b n : ℕ) → contains c a b ≡ true → a ≤ n → n ≤ b → covers c n ≡ true
unfolding contains
contains-covers c a b n e p q = ground (arith, meets-point a b n c.gaps p q)

contains-le : (c : Coverage) (a b : ℕ) → contains c a b ≡ true → a ≤ b
unfolding contains
contains-le c a b e = ground arith

contains-updated :
    (c : Coverage) (t : Option (List ℕ)) (a b : ℕ)
    → contains (record c { updated_at = t }) a b ≡ contains c a b
unfolding contains
contains-updated c t a b = refl

-- After a successful `cover` of a valid coverage by an interval whose end is a u64, a height is
-- covered exactly if it was, or lies in the interval.
pub cover-points :
    (now : List ℕ) (gen a b n : ℕ) (c c' : Coverage) (changed : Bool)
    → b ≤ u64_max
    → IsValid gen c
    → cover now c a b ≡ ok (changed, c')
    → covers c' n ≡ (covers c n || within a b n)
unfolding cover
cover-points now gen a b n c c' changed bm v e = elim (Bool-cases (contains c a b)) [
  | inl h ↦ ground (arith, contains-covers c a b n h)
  | inr h ↦ ground (
    arith,
    contains-updated (extend c.low c.high a b c) (some now) n n,
    extend-points c.low c.high n a b c,
  )
]

gap_heights :
    (a b : ℕ) (gs : List Interval) (lo hi : ℕ)
    → a ≤ b
    → All (IsInside lo hi) gs
    → ((n : ℕ) → a ≤ n → n ≤ b → in_gaps n gs ≡ false)
    → any (meets a b) gs ≡ false
gap_heights a b [] lo hi ab i f = refl
gap_heights a b (g ∷ gs) lo hi ab i f = ground (
  arith,
  i.0,
  f (max a g.first),
  gap_heights a b gs lo hi ab i.1 (λ n p q. ground (arith, f n p q)),
)

contains_of_Bounded :
    (low high : Option ℕ) (c : Coverage) (a b : ℕ)
    → Bounded low high c.gaps
    → c.low ≡ low
    → c.high ≡ high
    → a ≤ b
    → ((n : ℕ) → a ≤ n → n ≤ b → covers c n ≡ true)
    → contains c a b ≡ true
unfolding contains
contains_of_Bounded none none c a b h el eh ab f = ground (arith, f a)
contains_of_Bounded (some low) (some high) c a b h el eh ab f = ground (
  arith,
  f a,
  f b,
  gap_heights a b c.gaps low high ab (Chain-IsInside low high c.gaps h.2)
      (λ n p q. ground (arith, f n p q)),
)
contains_of_Bounded none (some high) c a b h el eh ab f = absurd h
contains_of_Bounded (some low) none c a b h el eh ab f = absurd h

-- A valid coverage contains an interval exactly if it is not reversed and its heights are
-- covered.
pub contains_iff :
    (gen : ℕ) (c : Coverage) (a b : ℕ)
    → IsValid gen c
    → (contains c a b ≡ true) ↔ ((a ≤ b) × ((n : ℕ) → a ≤ n → n ≤ b → covers c n ≡ true))
contains_iff gen c a b v = (
  λ e. (contains-le c a b e, λ n p q. contains-covers c a b n e p q),
  λ h. contains_of_Bounded c.low c.high c a b v.bounded refl refl h.0 h.1,
)

cover-changed :
    (now : List ℕ) (c : Coverage) (a b : ℕ)
    → a ≤ b
    → c.start ≤ a
    → contains c a b ≡ false
    → cover now c a b ≡ ok (true, record (extend c.low c.high a b c) { updated_at = some now })
unfolding cover
cover-changed now c a b ab sa h = ground arith

cover-unchanged :
    (now : List ℕ) (c : Coverage) (a b : ℕ)
    → a ≤ b
    → c.start ≤ a
    → contains c a b ≡ true
    → cover now c a b ≡ ok (false, c)
unfolding cover
cover-unchanged now c a b ab sa h = ground arith

-- On an interval that is not reversed, not below the floor and ends at a u64, `cover` of a valid
-- coverage succeeds, reports whether something was missing, and leaves the interval contained.
pub cover-contains :
    (now : List ℕ) (gen a b : ℕ) (c : Coverage)
    → a ≤ b
    → b ≤ u64_max
    → c.start ≤ a
    → IsValid gen c
    → (c' : Coverage) × (cover now c a b ≡ ok (not (contains c a b), c')) × (contains c' a b ≡ true)
cover-contains now gen a b c ab bm sa v = elim (Bool-cases (contains c a b)) [
  | inl h ↦ (c, rw h (cover-unchanged now c a b ab sa h), h)
  | inr h ↦
      let done = cover-changed now c a b ab sa h in
      let c' : Coverage = record (extend c.low c.high a b c) { updated_at = some now } in
      (
        c',
        rw h done,
        (contains_iff gen c' a b (cover-IsValid now gen a b c c' true bm v done)).1
            (ab, λ n p q. ground (arith, cover-points now gen a b n c c' true bm v done)),
      )
]

-- `cover` refuses a reversed interval and one below the floor, and nothing else.
pub cover-err_iff :
    (now : List ℕ) (c : Coverage) (a b : ℕ)
    → (is_ok (cover now c a b) ≡ false) ↔ ((b < a) ⊎ (a < c.start))
unfolding cover
cover-err_iff now c a b = (λ e. ground arith, λ h. ground arith)

-- Where `cover` reports no change, it has changed nothing.
pub cover-false :
    (now : List ℕ) (c c' : Coverage) (a b : ℕ) → cover now c a b ≡ ok (false, c') → c' ≡ c
unfolding cover
cover-false now c c' a b e = ground arith
