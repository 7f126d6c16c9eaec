-- ===== src/Plan/Points.antt =====
-- Which heights the planned intervals hold.
use dashboard_quip_network.Prelude.{
  ℕ, ◌+◌, ◌-◌, ◌≤◌, ◌<◌, ◌≡◌, refl, Bool, true, false, ◌&&◌, ◌||◌, not, Option, none, some, List,
  [], ◌∷◌, ◌++◌, min, leb, ltb, ◌==◌, if◌then◌else◌, any, any-append, All, All-map, arith, ◌∙◌,
  Bool-cases, inl, inr,
}
use dashboard_quip_network.Prelude.Words.{u64_max, checked_add}
use dashboard_quip_network.Coverage.{Interval, Coverage, contains, meets}
use dashboard_quip_network.Coverage.Valid.{Bounded, IsValid}
use dashboard_quip_network.Coverage.Points.{covers, within, in_gaps}
use dashboard_quip_network.Plan.{
  planned_start, clip_gaps, tail_range, ranges_from, uncovered, insert_point, sort_points, dedup,
  subtract_loop, subtract_points,
}

in_gaps-clip :
    (n start head : ℕ) (gs : List Interval)
    → in_gaps n (clip_gaps start head gs) ≡ (in_gaps n gs && within start head n)
unfolding clip_gaps
in_gaps-clip n start head [] = refl
in_gaps-clip n start head (g ∷ gs) =
    any-append (meets n n) _ (clip_gaps start head gs)
    ∙ ground (arith, in_gaps-clip n start head gs)

in_gaps-tail :
    (n start head high : ℕ)
    → head ≤ u64_max
    → in_gaps n (tail_range start head (checked_add high 1)) ≡ (ltb high n && within start head n)
unfolding tail_range
in_gaps-tail n start head high m = ground arith

ranges-points :
    (low high : Option ℕ) (n start head : ℕ) (c : Coverage)
    → start ≤ head
    → head ≤ u64_max
    → Bounded low high c.gaps
    → c.low ≡ low
    → c.high ≡ high
    → in_gaps n (ranges_from start head low high c.gaps) ≡ (within start head n && not (covers c n))
unfolding ranges_from contains
ranges-points none none n start head c sh m h el eh = rw (el, eh) (ground arith)
ranges-points (some low) (some high) n start head c sh m h el eh =
    rw (el, eh)
      (any-append (meets n n) _ (tail_range start head (checked_add high 1))
        ∙ ground (
          arith,
          any-append (meets n n)
              (if ltb start low
                then record { first = start; last = min head (low - 1) } ∷ []
                else [])
              (clip_gaps start head c.gaps),
          in_gaps-clip n start head c.gaps,
          in_gaps-tail n start head high m,
          h.0,
        ))
ranges-points none (some high) n start head c sh m h el eh = absurd h
ranges-points (some low) none n start head c sh m h el eh = absurd h

-- The height is above the pruning floor, if there is one.
abbrev pub above_floor : Option ℕ → ℕ → Bool
above_floor none n = true
above_floor (some floor) n = ltb floor n

planned_start-none :
    (c : Coverage) (n : ℕ)
    → n ≤ u64_max
    → planned_start c ≡ none
    → above_floor c.pruned_floor n ≡ false
unfolding planned_start
planned_start-none c n m e = ground arith

planned_start-some :
    (c : Coverage) (n start : ℕ)
    → planned_start c ≡ some start
    → leb start n ≡ (leb c.start n && above_floor c.pruned_floor n)
unfolding planned_start
planned_start-some c n start e = ground arith

-- For a valid coverage and a head that is a u64, the planned intervals hold a height exactly if
-- it is eligible, not above the head, above the pruning floor, and not covered.
pub uncovered-points :
    (gen head n : ℕ) (c : Coverage)
    → head ≤ u64_max
    → IsValid gen c
    → in_gaps n (uncovered c head)
      ≡ (leb c.start n && leb n head && above_floor c.pruned_floor n && not (covers c n))
unfolding uncovered
uncovered-points gen head n c m v = go (planned_start c) refl
  where
    go :
        (o : Option ℕ)
        → planned_start c ≡ o
        → in_gaps n (elim o as (λ _. List Interval) [
          | none ↦ []
          | some start ↦ if ltb head start then [] else ranges_from start head c.low c.high c.gaps
        ])
          ≡ (leb c.start n && leb n head && above_floor c.pruned_floor n && not (covers c n))
    go none e = ground (arith, planned_start-none c n)
    go (some start) e = elim (Bool-cases (ltb head start)) [
      | inl h ↦ rw h (ground (arith, planned_start-some c n start))
      | inr h ↦ rw h (
          ground (
            arith,
            planned_start-some c n start e,
            ranges-points c.low c.high n start head c (ground arith) m v.bounded refl refl,
          ))
    ]

-- The height is one of the points.
abbrev pub among : ℕ → List ℕ → Bool
among n ps = any (λ p. p == n) ps

among-insert : (n p : ℕ) (ps : List ℕ) → among n (insert_point p ps) ≡ (p == n || among n ps)
unfolding insert_point
among-insert n p [] = refl
among-insert n p (q ∷ qs) = ground (arith, among-insert n p qs)

among-sort : (n : ℕ) (ps : List ℕ) → among n (sort_points ps) ≡ among n ps
unfolding sort_points
among-sort n [] = refl
among-sort n (p ∷ ps) = among-insert n p (sort_points ps) ∙ ground (arith, among-sort n ps)

among-dedup : (n : ℕ) (ps : List ℕ) → among n (dedup ps) ≡ among n ps
unfolding dedup
among-dedup n [] = refl
among-dedup n (p ∷ []) = refl
among-dedup n (p ∷ q ∷ qs) = ground (arith, among-dedup n (q ∷ qs))

-- Each point is at most every later one.
abbrev IsSorted : List ℕ → Type 0
IsSorted [] = Unit
IsSorted (p ∷ ps) = All (λ q. p ≤ q) ps × IsSorted ps

insert-All :
    (b p : ℕ) (ps : List ℕ) → b ≤ p → All (λ q. b ≤ q) ps → All (λ q. b ≤ q) (insert_point p ps)
unfolding insert_point
insert-All b p [] h a = (h, tt)
insert-All b p (q ∷ qs) h a = elim (Bool-cases (leb p q)) [
  | inl e ↦ rw e (h, a)
  | inr e ↦ rw e (a.0, insert-All b p qs h a.1)
]

insert-IsSorted : (p : ℕ) (ps : List ℕ) → IsSorted ps → IsSorted (insert_point p ps)
unfolding insert_point
insert-IsSorted p [] s = (tt, tt)
insert-IsSorted p (q ∷ qs) s = elim (Bool-cases (leb p q)) [
  | inl e ↦ rw e ((ground arith, All-map _ _ (λ r h. ground arith) qs s.0), s)
  | inr e ↦ rw e (insert-All q p qs (ground arith) s.0, insert-IsSorted p qs s.1)
]

sort-IsSorted : (ps : List ℕ) → IsSorted (sort_points ps)
unfolding sort_points
sort-IsSorted [] = tt
sort-IsSorted (p ∷ ps) = insert-IsSorted p (sort_points ps) (sort-IsSorted ps)

dedup-All : (b : ℕ) (ps : List ℕ) → All (λ q. b ≤ q) ps → All (λ q. b ≤ q) (dedup ps)
unfolding dedup
dedup-All b [] a = tt
dedup-All b (p ∷ []) a = a
dedup-All b (p ∷ q ∷ qs) a = elim (Bool-cases (p == q)) [
  | inl e ↦ rw e (dedup-All b (q ∷ qs) a.1)
  | inr e ↦ rw e (a.0, dedup-All b (q ∷ qs) a.1)
]

dedup-IsSorted : (ps : List ℕ) → IsSorted ps → IsSorted (dedup ps)
unfolding dedup
dedup-IsSorted [] s = tt
dedup-IsSorted (p ∷ []) s = s
dedup-IsSorted (p ∷ q ∷ qs) s = elim (Bool-cases (p == q)) [
  | inl e ↦ rw e (dedup-IsSorted (q ∷ qs) s.1)
  | inr e ↦ rw e (dedup-All p (q ∷ qs) s.0, dedup-IsSorted (q ∷ qs) s.1)
]

not-among : (n p : ℕ) (ps : List ℕ) → n < p → All (λ q. p ≤ q) ps → among n ps ≡ false
not-among n p [] h a = refl
not-among n p (q ∷ qs) h a = ground (arith, not-among n p qs h a.1)

-- The interval before a point.
abbrev head_part : ℕ → ℕ → List Interval
head_part start p = if ltb start p then record { first = start; last = p - 1 } ∷ [] else []

loop_skips :
    (through start p : ℕ) (ps : List ℕ)
    → (ltb p start || ltb through p) ≡ true
    → subtract_loop through (some start) (p ∷ ps) ≡ subtract_loop through (some start) ps
unfolding subtract_loop
loop_skips through start p ps e = rw e

loop_cuts :
    (through start p : ℕ) (ps : List ℕ)
    → (ltb p start || ltb through p) ≡ false
    → subtract_loop through (some start) (p ∷ ps)
      ≡ head_part start p ++ subtract_loop through (checked_add p 1) ps
unfolding subtract_loop
loop_cuts through start p ps e = rw e

cut_points :
    (n through start p : ℕ) (ps : List ℕ) (rest : List Interval)
    → start ≤ p
    → p ≤ through
    → All (λ q. p ≤ q) ps
    → in_gaps n rest ≡ (within (p + 1) through n && not (among n ps))
    → in_gaps n (head_part start p ++ rest) ≡ (within start through n && not (among n (p ∷ ps)))
cut_points n through start p ps rest sp pt a e =
    any-append (meets n n) (head_part start p) rest ∙ ground (arith, not-among n p ps)

loop_ends : (through : ℕ) (ps : List ℕ) → subtract_loop through none ps ≡ []
unfolding subtract_loop
loop_ends through [] = refl
loop_ends through (p ∷ ps) = refl

loop-points :
    (n through start : ℕ) (ps : List ℕ)
    → through ≤ u64_max
    → IsSorted ps
    → in_gaps n (subtract_loop through (some start) ps)
      ≡ (within start through n && not (among n ps))
loop-points n through start [] m s = unfold subtract_loop in ground arith
loop-points n through start (p ∷ ps) m s = elim (Bool-cases (ltb p start || ltb through p)) [
  | inl e ↦
      rw (loop_skips through start p ps e) (ground (arith, loop-points n through start ps m s.1))
  | inr e ↦ rw (loop_cuts through start p ps e) (
      cut_points n through start p ps _ (ground arith) (ground arith) s.0
        (elim (Bool-cases (leb (p + 1) u64_max)) [
          | inl f ↦ rw f (loop-points n through (p + 1) ps m s.1)
          | inr f ↦ rw (f, loop_ends) (ground arith)
        ]))
]

-- What is left of a range that ends at a u64 after some points are taken out holds exactly the
-- other heights of it.
pub subtract_points-points :
    (n : ℕ) (range : Interval) (points : List ℕ)
    → range.last ≤ u64_max
    → in_gaps n (subtract_points range points)
      ≡ (within range.first range.last n && not (among n points))
unfolding subtract_points
subtract_points-points n range points m = elim (Bool-cases (ltb range.last range.first)) [
  | inl e ↦ rw e (ground arith)
  | inr e ↦ rw e (
      loop-points n range.last range.first (dedup (sort_points points)) m
        (dedup-IsSorted (sort_points points) (sort-IsSorted points))
      ∙ ground (arith, among-dedup n (sort_points points), among-sort n points))
]
