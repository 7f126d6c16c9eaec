-- ===== src/Coverage/Gaps.antt =====
-- Lists of gaps: the chain that a persisted coverage must form, and how the loop of
-- `Coverage::cover` and its sort act on lists of gaps that lie apart.
use dashboard_quip_network.Prelude.{
  ℕ, ◌+◌, ◌-◌, ◌≤◌, ◌<◌, ◌≡◌, ◌⊎◌, inl, inr, true, false, List, [], ◌∷◌, ◌++◌, min, max, ltb, All,
  All-append, All-map, arith, Bool-cases,
}
use dashboard_quip_network.Prelude.Words.{u64_max, saturating_add}
use dashboard_quip_network.Coverage.{
  Interval, split_gap, subtract_gaps, push_gaps, insert_gap, sort_gaps, le_interval,
}

-- A gap strictly between two covered heights.
pub record IsInside (lo hi : ℕ) (g : Interval) : Type 0 where
  pub above : lo < g.first
  pub ordered : g.first ≤ g.last
  pub below : g.last < hi

-- A covered height lies between the two gaps.
abbrev pub Apart : Interval → Interval → Type 0
Apart g h = (g.last + 1 < h.first) ⊎ (h.last + 1 < g.first)

abbrev pub AllApart : List Interval → Type 0
AllApart [] = Unit
AllApart (g ∷ gs) = All (Apart g) gs × AllApart gs

-- Sorted gaps between `lo` and `hi`, each with a covered height before it.
abbrev pub Chain : ℕ → ℕ → List Interval → Type 0
Chain lo hi [] = Unit
Chain lo hi (g ∷ gs) =
    (lo < g.first) × (g.first ≤ g.last) × (g.last < hi) × Chain (g.last + 1) hi gs

IsInside-weaken :
    {lo hi lo' hi' : ℕ}
    → lo' ≤ lo
    → hi ≤ hi'
    → (g : Interval) → IsInside lo hi g
    → IsInside lo' hi' g
IsInside-weaken p q g h = ground arith

pub Chain-IsInside : (lo hi : ℕ) (gs : List Interval) → Chain lo hi gs → All (IsInside lo hi) gs
Chain-IsInside lo hi [] h = tt
Chain-IsInside lo hi (g ∷ gs) h = (
  ground arith,
  All-map _ _ (IsInside-weaken (omega arith) (omega arith)) gs
      (Chain-IsInside (g.last + 1) hi gs h.3),
)

after_gap : {hi : ℕ} (g h : Interval) → IsInside (g.last + 1) hi h → Apart g h
after_gap g h p = ground arith

pub Chain-apart : (lo hi : ℕ) (gs : List Interval) → Chain lo hi gs → AllApart gs
Chain-apart lo hi [] h = tt
Chain-apart lo hi (g ∷ gs) h = (
  All-map _ _ (after_gap {hi = hi} g) gs (Chain-IsInside (g.last + 1) hi gs h.3),
  Chain-apart (g.last + 1) hi gs h.3,
)

module _ {ℓ} (P : Interval → Type ℓ) where
  insert-All : (g : Interval) (gs : List Interval) → P g → All P gs → All P (insert_gap g gs)
  unfolding insert_gap
  insert-All g [] p h = (p, tt)
  insert-All g (k ∷ ks) p h = elim (Bool-cases (le_interval g k)) [
    | inl e ↦ rw e (p, h)
    | inr e ↦ rw e (h.0, insert-All g ks p h.1)
  ]

  sort-All : (gs : List Interval) → All P gs → All P (sort_gaps gs)
  unfolding sort_gaps
  sort-All [] h = tt
  sort-All (g ∷ gs) h = insert-All g (sort_gaps gs) h.0 (sort-All gs h.1)

insert-Chain :
    (lo hi : ℕ) (g : Interval) (gs : List Interval)
    → IsInside lo hi g
    → All (Apart g) gs
    → Chain lo hi gs
    → Chain lo hi (insert_gap g gs)
unfolding insert_gap
insert-Chain lo hi g [] i a c = ground arith
insert-Chain lo hi g (k ∷ ks) i a c = elim (Bool-cases (le_interval g k)) [
  | inl e ↦ rw e (ground arith)
  | inr e ↦ rw e (c.0, c.1, c.2, insert-Chain (k.last + 1) hi g ks (ground arith) a.1 c.3)
]

pub sort-Chain :
    (lo hi : ℕ) (gs : List Interval)
    → All (IsInside lo hi) gs
    → AllApart gs
    → Chain lo hi (sort_gaps gs)
unfolding sort_gaps
sort-Chain lo hi [] i a = tt
sort-Chain lo hi (g ∷ gs) i a =
    insert-Chain lo hi g (sort_gaps gs) i.0 (sort-All (Apart g) gs a.0)
      (sort-Chain lo hi gs i.1 a.1)

AllApart-append :
    (xs ys : List Interval)
    → AllApart xs
    → AllApart ys
    → All (λ x. All (Apart x) ys) xs
    → AllApart (xs ++ ys)
AllApart-append [] ys ax ay c = ay
AllApart-append (x ∷ xs) ys ax ay c =
    (All-append (Apart x) xs ys ax.0 c.0, AllApart-append xs ys ax.1 ay c.1)

no_neighbours : (gs : List Interval) → All (λ x. All (Apart x) []) gs
no_neighbours [] = tt
no_neighbours (g ∷ gs) = (tt, no_neighbours gs)

-- A part of a gap.
pub record IsPart (g k : Interval) : Type 0 where
  pub from : g.first ≤ k.first
  pub nonempty : k.first ≤ k.last
  pub through : k.last ≤ g.last

split_gap-IsPart :
    (a b : ℕ) (g : Interval) → a ≤ b → g.first ≤ g.last → All (IsPart g) (split_gap a b g)
unfolding split_gap
split_gap-IsPart a b g h o = ground arith

split_gap-AllApart : (a b : ℕ) (g : Interval) → a ≤ b → AllApart (split_gap a b g)
unfolding split_gap
split_gap-AllApart a b g h = ground arith

part-IsInside : {lo hi : ℕ} (g k : Interval) → IsInside lo hi g → IsPart g k → IsInside lo hi k
part-IsInside g k i p = ground arith

part-Apart : (x g k : Interval) → Apart x g → IsPart g k → Apart x k
part-Apart x g k a p = ground arith

part-Apart_left : (x g k : Interval) → Apart g x → IsPart g k → Apart k x
part-Apart_left x g k a p = ground arith

module _ (lo hi a b : ℕ) (h : a ≤ b) where
  pub subtract-IsInside :
      (gs : List Interval) → All (IsInside lo hi) gs → All (IsInside lo hi) (subtract_gaps a b gs)
  unfolding subtract_gaps
  subtract-IsInside [] i = tt
  subtract-IsInside (g ∷ gs) i =
      All-append _ (split_gap a b g) (subtract_gaps a b gs)
        (All-map _ _ (λ k. part-IsInside g k i.0) _ (split_gap-IsPart a b g h i.0.ordered))
        (subtract-IsInside gs i.1)

  subtract-apart_of :
      (x : Interval) (gs : List Interval)
      → All (IsInside lo hi) gs
      → All (Apart x) gs
      → All (Apart x) (subtract_gaps a b gs)
  unfolding subtract_gaps
  subtract-apart_of x [] i s = tt
  subtract-apart_of x (g ∷ gs) i s =
      All-append _ (split_gap a b g) (subtract_gaps a b gs)
        (All-map _ _ (λ k. part-Apart x g k s.0) _ (split_gap-IsPart a b g h i.0.ordered))
        (subtract-apart_of x gs i.1 s.1)

  pub subtract-AllApart :
      (gs : List Interval) → All (IsInside lo hi) gs → AllApart gs → AllApart (subtract_gaps a b gs)
  unfolding subtract_gaps
  subtract-AllApart [] i s = tt
  subtract-AllApart (g ∷ gs) i s =
      AllApart-append (split_gap a b g) (subtract_gaps a b gs) (split_gap-AllApart a b g h)
        (subtract-AllApart gs i.1 s.1)
        (All-map _ _
          (λ k p. All-map _ _ (λ y q. part-Apart_left y g k q p) _ (subtract-apart_of g gs i.1 s.0))
          _ (split_gap-IsPart a b g h i.0.ordered))

-- The interval pushed behind the covered range lies inside the new bounds, and apart from the gaps.
module _ (low high a b : ℕ) (lh : low ≤ high) (ab : a ≤ b) (hm : high ≤ u64_max)
    (bm : b ≤ u64_max) where
  wider :
      (gs : List Interval) → All (IsInside low high) gs → All (IsInside (min low a) (max high b)) gs
  wider gs i = All-map _ _ (IsInside-weaken (omega arith) (omega arith)) gs i

  pub push_gaps-IsInside :
      (gs : List Interval)
      → All (IsInside low high) gs
      → All (IsInside (min low a) (max high b)) (push_gaps low high a b gs)
  unfolding push_gaps
  push_gaps-IsInside gs i = elim (Bool-cases (ltb (saturating_add high 1) a)) [
    | inl e ↦ rw e (All-append _ _ _ (All-append _ gs _ (wider gs i) (ground arith)) (ground arith))
    | inr e ↦ rw e (All-append _ gs _ (wider gs i) (ground arith))
  ]

  behind :
      (g : Interval)
      → IsInside low high g
      → ltb (saturating_add high 1) a ≡ true
      → Apart g (record { first = high + 1; last = a - 1 })
  behind g i e = ground arith

  before :
      (g : Interval)
      → IsInside low high g
      → ltb (saturating_add b 1) low ≡ true
      → Apart g (record { first = b + 1; last = low - 1 })
  before g i e = ground arith

  pub push_gaps-AllApart :
      (gs : List Interval)
      → All (IsInside low high) gs
      → AllApart gs
      → AllApart (push_gaps low high a b gs)
  unfolding push_gaps
  push_gaps-AllApart gs i s = elim (Bool-cases (ltb (saturating_add high 1) a)) [
    | inl e ↦ rw e (
        let no : ltb (saturating_add b 1) low ≡ false = ground arith in
        rw no (
          AllApart-append _ []
            (AllApart-append gs _ s (tt, tt) (All-map _ _ (λ g j. (behind g j e, tt)) gs i)) tt
            (no_neighbours _)))
    | inr e ↦ rw e (elim (Bool-cases (ltb (saturating_add b 1) low)) [
      | inl f ↦
          rw f (AllApart-append gs _ s (tt, tt) (All-map _ _ (λ g j. (before g j f, tt)) gs i))
      | inr f ↦ rw f (AllApart-append gs [] s tt (no_neighbours gs))
    ])
  ]
