-- ===== src/Coverage/Valid.antt =====
-- The shape of a persisted coverage: what the free function `coverage` of coverage.rs checks.
use dashboard_quip_network.Prelude.{
  ℕ, ◌+◌, ◌≤◌, ◌≡◌, refl, ◌↔◌, Bool, false, Option, none, some, List, [], ◌∷◌, min, max, arith, ok,
  ◌∙◌, ap,
}
use dashboard_quip_network.Prelude.Words.{u64_max}
use dashboard_quip_network.Coverage.{
  Interval, Coverage, empty, push_gaps, subtract_gaps, sort_gaps, extend, cover, header_invalid,
  gap_invalid, gaps_invalid, check_persisted,
}
use dashboard_quip_network.Coverage.Gaps.{
  Chain, Chain-IsInside, Chain-apart, sort-Chain, push_gaps-IsInside, push_gaps-AllApart,
  subtract-IsInside, subtract-AllApart,
}

-- Both bounds with a chain of gaps strictly between them, or no bounds and no gaps.
abbrev pub Bounded : Option ℕ → Option ℕ → List Interval → Type 0
Bounded none none gs = gs ≡ []
Bounded (some low) (some high) gs = (low ≤ high) × (high ≤ u64_max) × Chain low high gs
Bounded _ _ gs = ⊥

pub record IsValid (gen : ℕ) (c : Coverage) : Type 0 where
  pub version : c.v ≡ 1
  pub generation : c.gen ≡ gen
  pub bounded : Bounded c.low c.high c.gaps

-- The high bound is a u64.
abbrev pub FitsU64 : Option ℕ → Type 0
FitsU64 none = Unit
FitsU64 (some n) = n ≤ u64_max

-- The loop over the gaps accepts exactly the chains. `p` is the end of the previous gap.
gaps_invalid-some :
    (low high p : ℕ) (gs : List Interval)
    → low ≤ p
    → high ≤ u64_max
    → (gaps_invalid (some low) (some high) (some p) gs ≡ false) ↔ Chain (p + 1) high gs
unfolding gaps_invalid gap_invalid
gaps_invalid-some low high p [] h m = (λ _. tt, λ _. refl)
gaps_invalid-some low high p (g ∷ gs) h m = (
  λ e. ground (arith, gaps_invalid-some low high g.last gs),
  λ c. ground (arith, gaps_invalid-some low high g.last gs),
)

pub gaps_invalid_iff :
    (low high : ℕ) (gs : List Interval)
    → high ≤ u64_max
    → (gaps_invalid (some low) (some high) none gs ≡ false) ↔ Chain low high gs
unfolding gaps_invalid gap_invalid
gaps_invalid_iff low high [] m = (λ _. tt, λ _. refl)
gaps_invalid_iff low high (g ∷ gs) m = (
  λ e. ground (arith, gaps_invalid-some low high g.last gs),
  λ c. ground (arith, gaps_invalid-some low high g.last gs),
)

-- The branch of `cover` that changes something keeps the coverage valid.
extend-Chain :
    (low high a b : ℕ) (gs : List Interval)
    → low ≤ high
    → high ≤ u64_max
    → a ≤ b
    → b ≤ u64_max
    → Chain low high gs
    → Chain (min low a) (max high b) (sort_gaps (subtract_gaps a b (push_gaps low high a b gs)))
extend-Chain low high a b gs lh hm ab bm c =
    let i = push_gaps-IsInside low high a b lh ab hm bm gs (Chain-IsInside low high gs c) in
    let s =
      push_gaps-AllApart low high a b lh ab hm bm gs (Chain-IsInside low high gs c)
        (Chain-apart low high gs c) in
    sort-Chain _ _ _ (subtract-IsInside _ _ a b ab _ i) (subtract-AllApart _ _ a b ab _ i s)

extend-Bounded :
    (low high : Option ℕ) (a b : ℕ) (c : Coverage)
    → a ≤ b
    → b ≤ u64_max
    → Bounded low high c.gaps
    → Bounded (extend low high a b c).low (extend low high a b c).high (extend low high a b c).gaps
unfolding extend
extend-Bounded none none a b c ab bm h = rw h (ab, bm, tt)
extend-Bounded (some low) (some high) a b c ab bm (lh, hm, ch) =
    (omega arith, omega arith, extend-Chain low high a b c.gaps lh hm ab bm ch)
extend-Bounded none (some high) a b c ab bm h = absurd h
extend-Bounded (some low) none a b c ab bm h = absurd h

extend-header :
    (low high : Option ℕ) (a b : ℕ) (c : Coverage)
    → ((extend low high a b c).v ≡ c.v) × ((extend low high a b c).gen ≡ c.gen)
unfolding extend
extend-header (some low) (some high) a b c = (refl, refl)
extend-header _ _ a b c = (refl, refl)

gaps-none : (gs : List Interval) → gaps_invalid none none none gs ≡ false → gs ≡ []
unfolding gaps_invalid gap_invalid
gaps-none [] e = refl
gaps-none (g ∷ gs) e = ground arith

gaps-none_nil : gaps_invalid none none none [] ≡ false
unfolding gaps_invalid
gaps-none_nil = refl

-- The header test and the loop together decide validity, for bounds that are u64.
accepts-IsValid :
    (gen : ℕ) (low high : Option ℕ) (c : Coverage)
    → c.low ≡ low
    → c.high ≡ high
    → FitsU64 high
    → (check_persisted gen c ≡ ok c) ↔ IsValid gen c
unfolding check_persisted header_invalid
accepts-IsValid gen none none c el eh m =
    (λ e. ground (arith, gaps-none c.gaps), λ v. ground (arith, gaps-none_nil, v.bounded))
accepts-IsValid gen (some low) (some high) c el eh m = (
  λ e. ground (arith, gaps_invalid_iff low high c.gaps m),
  λ v. ground (arith, gaps_invalid_iff low high c.gaps m, v.bounded),
)
accepts-IsValid gen none (some high) c el eh m =
    (λ e. ground arith, λ v. absurd (ground (arith, v.bounded)))
accepts-IsValid gen (some low) none c el eh m =
    (λ e. ground arith, λ v. absurd (ground (arith, v.bounded)))

-- A decoded record whose high bound is a u64 is accepted at a generation exactly if it is valid
-- for that generation.
pub check_persisted-ok_iff :
    (gen : ℕ) (c : Coverage) → FitsU64 c.high → (check_persisted gen c ≡ ok c) ↔ IsValid gen c
check_persisted-ok_iff gen c m = accepts-IsValid gen c.low c.high c refl refl m

-- A new coverage is valid for its generation.
pub empty-IsValid : (gen start : ℕ) → IsValid gen (empty gen start)
unfolding empty
empty-IsValid gen start = record { version = refl; generation = refl; bounded = refl }

-- A successful `cover` by an interval whose end is a u64 keeps a coverage valid for its
-- generation.
pub cover-IsValid :
    (now : List ℕ) (gen a b : ℕ) (c c' : Coverage) (changed : Bool)
    → b ≤ u64_max
    → IsValid gen c
    → cover now c a b ≡ ok (changed, c')
    → IsValid gen c'
unfolding cover
cover-IsValid now gen a b c c' changed bm v e =
    ground (arith, extend-Bounded c.low c.high a b c, extend-header c.low c.high a b c)

pub IsValid-FitsU64 : (gen : ℕ) (c : Coverage) → IsValid gen c → FitsU64 c.high
IsValid-FitsU64 gen c v = go c.low c.high c.gaps v.bounded
  where
    go : (low high : Option ℕ) (gs : List Interval) → Bounded low high gs → FitsU64 high
    go none none gs h = tt
    go (some l) (some h) gs b = b.1
    go none (some h) gs b = absurd b
    go (some l) none gs b = tt

-- What a check returns is what it was given.
pub check_persisted-IsValid :
    (gen : ℕ) (c d : Coverage)
    → FitsU64 c.high
    → check_persisted gen c ≡ ok d
    → (d ≡ c) × IsValid gen c
check_persisted-IsValid gen c d m e =
    let same : d ≡ c = unfold check_persisted in ground arith in
    (same, (check_persisted-ok_iff gen c m).0 (e ∙ ap ok same))
