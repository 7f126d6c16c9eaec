-- ===== src/Indexer/History/Search.antt =====
-- reconcile.rs: the search for the first block of a descriptor ends, and finds it.
use dashboard_quip_network.Prelude.{
  ℕ, zero, suc, ◌+◌, ◌-◌, ◌*◌, ◌≡◌, ◌≤◌, ◌<◌, Bool, true, false, some, ltb, leb, Result, ok, err,
  arith, refl, Bool-cases, Result-cases, inl, inr, ◌∙◌, sym, ap, subst,
}
use mathlib.Core.Option.{some-injective}
use dashboard_quip_network.Prelude.Words.{u64_max}
use dashboard_quip_network.Indexer.{IndexerError}
use dashboard_quip_network.Indexer.History.{middle_of, search, rounds}

-- Twice as much for each round.
abbrev pub power : ℕ → ℕ
power zero = 1
power (suc n) = 2 * power n

-- The branches of a round.
search-done :
    (present : ℕ → Result IndexerError Bool) (fuel low high : ℕ)
    → ltb low high ≡ false
    → search present (suc fuel) low high ≡ some (ok low)
unfolding search
search-done present fuel low high e = rw e refl

search-err :
    (present : ℕ → Result IndexerError Bool) (fuel low high : ℕ) (fault : IndexerError)
    → ltb low high ≡ true
    → present (middle_of low high) ≡ err fault
    → search present (suc fuel) low high ≡ some (err fault)
unfolding search
search-err present fuel low high fault e p = rw (e, p) refl

search-found :
    (present : ℕ → Result IndexerError Bool) (fuel low high : ℕ)
    → ltb low high ≡ true
    → present (middle_of low high) ≡ ok true
    → search present (suc fuel) low high ≡ search present fuel low (middle_of low high)
unfolding search
search-found present fuel low high e p = rw (e, p) refl

search-absent :
    (present : ℕ → Result IndexerError Bool) (fuel low high : ℕ)
    → ltb low high ≡ true
    → present (middle_of low high) ≡ ok false
    → search present (suc fuel) low high ≡ search present fuel (middle_of low high + 1) high
unfolding search
search-absent present fuel low high e p = rw (e, p) refl

-- A range of fewer than `power fuel` heights besides the first is searched within `fuel` rounds.
search-ends :
    (present : ℕ → Result IndexerError Bool) (fuel low high : ℕ)
    → high - low < power fuel
    → (r : Result IndexerError ℕ) × (search present (suc fuel) low high ≡ some r)
search-ends present zero low high h = (ok low, search-done present zero low high (ground arith))
search-ends present (suc fuel) low high h = elim (Bool-cases (ltb low high)) [
  | inr done ↦ (ok low, search-done present (suc fuel) low high done)
  | inl more ↦ elim (Result-cases (present (middle_of low high))) [
    | inr (fault, e) ↦ (err fault, search-err present (suc fuel) low high fault more e)
    | inl (true, e) ↦
        let (r, runs) = search-ends present fuel low (middle_of low high) (ground arith) in
        (r, search-found present (suc fuel) low high more e ∙ runs)
    | inl (false, e) ↦
        let (r, runs) = search-ends present fuel (middle_of low high + 1) high (ground arith) in
        (r, search-absent present (suc fuel) low high more e ∙ runs)
  ]
]

-- Whatever the chain answers, errors included, the search below a u64 height ends within 65
-- rounds.
pub search-rounds :
    (present : ℕ → Result IndexerError Bool) (height : ℕ)
    → height ≤ u64_max
    → (r : Result IndexerError ℕ) × (search present rounds 1 height ≡ some r)
search-rounds present height h = search-ends present 64 1 height (omega arith)

-- Presence that starts at some height and stays.
abbrev pub IsMonotone : (ℕ → Bool) → Type 0
IsMonotone found = (a b : ℕ) → a ≤ b → found a ≡ true → found b ≡ true

-- The first height of a range at which something is there.
abbrev pub IsFirst : (ℕ → Bool) → ℕ → ℕ → ℕ → Type 0
IsFirst found low high first =
    (low ≤ first) × (first ≤ high) × ((h : ℕ) → low ≤ h → h ≤ high → found h ≡ leb first h)

IsFirst-single :
    (found : ℕ → Bool) (low high : ℕ)
    → low ≤ high
    → ltb low high ≡ false
    → found high ≡ true
    → IsFirst found low high low
IsFirst-single found low high order e there =
    let same : low ≡ high = ground arith in
    (
      omega arith,
      order,
      λ h from to.
          let here : high ≡ h = omega arith in
          subst (λ k. found k ≡ leb low k) here (there ∙ ground arith),
    )

-- The range that a round goes on with, seen from the one before.
IsFirst-low :
    (found : ℕ → Bool) (low middle high first : ℕ)
    → IsMonotone found
    → middle ≤ high
    → found middle ≡ true
    → IsFirst found low middle first
    → IsFirst found low high first
IsFirst-low found low middle high first mono below there (from, to, least) = (
  from,
  omega arith,
  λ h a b. elim (Bool-cases (leb h middle)) [
    | inl inside ↦ least h a (ground arith)
    | inr outside ↦ mono middle h (ground arith) there ∙ ground arith
  ],
)

not_before :
    (found : ℕ → Bool) (h middle : ℕ)
    → IsMonotone found
    → h ≤ middle
    → found middle ≡ false
    → found h ≡ false
not_before found h middle mono order absent = elim (Bool-cases (found h)) [
  | inl there ↦ cc (mono h middle order there, absent)
  | inr same ↦ same
]

IsFirst-high :
    (found : ℕ → Bool) (low middle high first : ℕ)
    → IsMonotone found
    → low ≤ middle
    → found middle ≡ false
    → IsFirst found (middle + 1) high first
    → IsFirst found low high first
IsFirst-high found low middle high first mono above absent (from, to, least) = (
  omega arith,
  to,
  λ h a b. elim (Bool-cases (ltb middle h)) [
    | inl inside ↦ least h (ground arith) b
    | inr outside ↦ not_before found h middle mono (ground arith) absent ∙ ground arith
  ],
)

-- One round, given the result on each half.
search-step :
    (found : ℕ → Bool) (fuel low high : ℕ) (r : Result IndexerError ℕ)
    → IsMonotone found
    → low ≤ high
    → ltb low high ≡ true
    → found high ≡ true
    → search (λ h. ok (found h)) (suc fuel) low high ≡ some r
    → ((l h : ℕ)
        → l ≤ h
        → found h ≡ true
        → search (λ h. ok (found h)) fuel l h ≡ some r
        → (first : ℕ) × (r ≡ ok first) × IsFirst found l h first)
    → (first : ℕ) × (r ≡ ok first) × IsFirst found low high first
search-step found fuel low high r mono order more there e half =
    let m = middle_of low high in
    let reads : ℕ → Result IndexerError Bool = λ h. ok (found h) in
    elim (Bool-cases (found m)) [
      | inl here ↦
          let (first, same, is_first) =
            half low m (omega arith) here
              (sym (search-found reads fuel low high more (ap ok here)) ∙ e) in
          (first, same, IsFirst-low found low m high first mono (ground arith) here is_first)
      | inr gone ↦
          let (first, same, is_first) =
            half (m + 1) high (ground arith) there
              (sym (search-absent reads fuel low high more (ap ok gone)) ∙ e) in
          (first, same, IsFirst-high found low m high first mono (omega arith) gone is_first)
    ]

search_from-IsFirst :
    (found : ℕ → Bool) (fuel low high : ℕ) (r : Result IndexerError ℕ)
    → IsMonotone found
    → low ≤ high
    → found high ≡ true
    → search (λ h. ok (found h)) fuel low high ≡ some r
    → (first : ℕ) × (r ≡ ok first) × IsFirst found low high first
unfolding search
search_from-IsFirst found zero low high r mono order there e = cc e
search_from-IsFirst found (suc fuel) low high r mono order there e =
    elim (Bool-cases (ltb low high)) [
      | inr done ↦ (
        low,
        some-injective r (ok low) (sym e ∙ search-done (λ h. ok (found h)) fuel low high done),
        IsFirst-single found low high order done there,
      )
      | inl more ↦
          search-step found fuel low high r mono order more there e
            (λ l h. search_from-IsFirst found fuel l h r mono)
    ]

-- If a descriptor is there at a u64 height above zero, and stays once it is there, the search
-- returns the first height at which it is, within 65 rounds.
pub search-IsFirst :
    (found : ℕ → Bool) (height : ℕ)
    → IsMonotone found
    → 1 ≤ height
    → height ≤ u64_max
    → found height ≡ true
    → (first : ℕ) × (search (λ h. ok (found h)) rounds 1 height ≡ some (ok first))
      × IsFirst found 1 height first
search-IsFirst found height mono positive fits there =
    let (r, runs) = search-rounds (λ h. ok (found h)) height fits in
    let (first, same, is_first) =
      search_from-IsFirst found rounds 1 height r mono positive there runs in
    (first, runs ∙ ap some same, is_first)
