-- ===== src/Indexer/Guards/Needed.antt =====
-- live.rs: which domains `guards` names, and that `commit_block` takes its guards.
use dashboard_quip_network.Prelude.{
  ℕ, ◌≡◌, ◌≤◌, ◌<◌, ◌↔◌, Bool, true, false, ◌&&◌, ◌||◌, not, Option, none, some, List, [], ◌∷◌, ltb,
  leb, ◌==◌, if◌then◌else◌, ok, >>=-eq-ok, ok-injective, is_some_and, arith, refl, Bool-cases,
  Option-cases, inl, inr, ◌∙◌, sym, subst, if_true, if_false, ◌⊎◌,
}
use mathlib.Core.Option.{some-injective}
use dashboard_quip_network.Coverage.{Coverage, contains}
use dashboard_quip_network.Coverage.Points.{covers}
use dashboard_quip_network.Store.{
  Indexable, winners, difficulty, participation, authorship, GenerationGuard, Meta, Db, Json,
  same_domain,
}
use dashboard_quip_network.Store.Meta.{generation}
use dashboard_quip_network.Store.Blocks.{guarded, duplicate_guard, stale_guard}
use dashboard_quip_network.Store.Unavailable.{is_unavailable}
use dashboard_quip_network.Indexer.{domains}
use dashboard_quip_network.Indexer.Guards.{
  stored_coverage, is_past, guard_needed, guards_of, guards,
}

-- The guards at the generations of the table, for the domains that pass a test.
abbrev picked : Meta → (Indexable → Bool) → List Indexable → List GenerationGuard
picked meta test [] = []
picked meta test (i ∷ is) =
    if test i
    then record { indexable = i; expected = generation meta i } ∷ picked meta test is
    else picked meta test is

guarded-picked :
    (meta : Meta) (test : Indexable → Bool) (i : Indexable)
    → guarded (picked meta test domains) i ≡ test i
unfolding guarded
guarded-picked meta test winners = ground arith
guarded-picked meta test difficulty = ground arith
guarded-picked meta test participation = ground arith
guarded-picked meta test authorship = ground arith

duplicate_guard-picked :
    (meta : Meta) (test : Indexable → Bool) → duplicate_guard (picked meta test domains) ≡ false
unfolding duplicate_guard guarded
duplicate_guard-picked meta test = ground arith

stale_guard-picked :
    (meta : Meta) (test : Indexable → Bool) (is : List Indexable)
    → stale_guard meta (picked meta test is) ≡ false
unfolding stale_guard
stale_guard-picked meta test [] = refl
stale_guard-picked meta test (i ∷ is) = ground (arith, stale_guard-picked meta test is)

module _ (codec : Json) {R : Type 0} (db : Db R) (height : ℕ) (with_authorship : Bool) where
  -- One round, taken apart.
  guards_of-cons :
      (i : Indexable) (is : List Indexable) (gs : List GenerationGuard)
      → guards_of codec db height with_authorship (i ∷ is) ≡ ok gs
      → (needed : Bool) × (rest : List GenerationGuard) × (guard_needed codec db height
            with_authorship i
          ≡ ok needed)
        × (guards_of codec db height with_authorship is ≡ ok rest)
        × (gs ≡ (
            if needed
            then record { indexable = i; expected = generation db.meta i } ∷ rest
            else rest))
  unfolding guards_of
  guards_of-cons i is gs e =
      let (needed, first, e1) = >>=-eq-ok (guard_needed codec db height with_authorship i) _ e in
      let (rest, others, e2) = >>=-eq-ok (guards_of codec db height with_authorship is) _ e1 in
      (needed, rest, first, others, sym (ok-injective e2))

  -- The test that `guards` makes, as its four answers.
  abbrev answers : Bool → Bool → Bool → Bool → Indexable → Bool
  answers w d p a winners = w
  answers w d p a difficulty = d
  answers w d p a participation = p
  answers w d p a authorship = a

  answered :
      (w d p a : Bool)
      → guard_needed codec db height with_authorship winners ≡ ok w
      → guard_needed codec db height with_authorship difficulty ≡ ok d
      → guard_needed codec db height with_authorship participation ≡ ok p
      → guard_needed codec db height with_authorship authorship ≡ ok a
      → (i : Indexable) → guard_needed codec db height with_authorship i ≡ ok (answers w d p a i)
  answered w d p a we de pe ae winners = we
  answered w d p a we de pe ae difficulty = de
  answered w d p a we de pe ae participation = pe
  answered w d p a we de pe ae authorship = ae

  guards-picked :
      (gs : List GenerationGuard)
      → guards codec db height with_authorship ≡ ok gs
      → (test : Indexable → Bool) × ((i : Indexable)
          → guard_needed codec db height with_authorship i ≡ ok (test i))
        × (gs ≡ picked db.meta test domains)
  unfolding guards guards_of
  guards-picked gs e =
      let (w, r1, w_answer, e1, g0) =
        guards_of-cons winners (difficulty ∷ participation ∷ authorship ∷ []) gs e in
      let (d, r2, d_answer, e2, g1) =
        guards_of-cons difficulty (participation ∷ authorship ∷ []) r1 e1 in
      let (p, r3, p_answer, e3, g2) = guards_of-cons participation (authorship ∷ []) r2 e2 in
      let (a, r4, a_answer, e4, g3) = guards_of-cons authorship [] r3 e3 in
      (
        answers w d p a,
        answered w d p a w_answer d_answer p_answer a_answer,
        cc (g0, g1, g2, g3, ok-injective e4),
      )

  -- Whether `guards` leaves the domain out without a look at its tables.
  abbrev left_out : Indexable → Bool
  left_out i = same_domain i authorship && not with_authorship

  -- A height that the coverage leaves to index: not below its start, above its floor, and uncovered.
  abbrev IsOpen : Coverage → Type 0
  IsOpen c =
      (c.start ≤ height)
      × (covers c height ≡ false)
      × ((floor : ℕ) → c.pruned_floor ≡ some floor → floor < height)

  -- The domain is asked for, the height is not marked unavailable, and open in a current coverage.
  abbrev pub IsWanted : Indexable → Type 0
  IsWanted i =
      (left_out i ≡ false)
      × (is_unavailable i (generation db.meta i) height db.unavailable ≡ false)
      × ((c : Coverage)
          → stored_coverage codec db.meta i ≡ ok (some c)
          → c.gen ≡ generation db.meta i
          → IsOpen c)

  open_height :
      (c : Coverage)
      → c.start ≤ height
      → covers c height ≡ false
      → ((floor : ℕ) → c.pruned_floor ≡ some floor → floor < height)
      → (ltb height c.start
          || is_some_and c.pruned_floor (λ floor. leb height floor)
          || contains c height height)
        ≡ false
  open_height c above uncovered unpruned = elim (Option-cases c.pruned_floor) [
    | inl no_floor ↦ rw no_floor (ground arith)
    | inr (floor, has) ↦ rw has (ground (arith, unpruned floor has))
  ]

  is_past_iff :
      (expected : ℕ) (c : Coverage)
      → (is_past expected height c ≡ false) ↔ (c.gen ≡ expected → IsOpen c)
  unfolding is_past
  is_past_iff expected c = (
    λ e same. (ground arith, ground arith, λ floor has. ground arith),
    λ f. elim (Bool-cases (c.gen == expected)) [
      | inr other ↦ rw other refl
      | inl same ↦
          let (above, uncovered, unpruned) = f (ground arith) in
          rw same (open_height c above uncovered unpruned)
    ],
  )

  guard_needed-inv :
      (i : Indexable) (b : Bool)
      → guard_needed codec db height with_authorship i ≡ ok b
      → ((left_out i ≡ true) × (b ≡ false))
        ⊎ ((left_out i ≡ false)
            × ((cov : Option Coverage) × (stored_coverage codec db.meta i ≡ ok cov)
                × (b ≡ (
                    not (is_some_and cov (is_past (generation db.meta i) height))
                    && not (is_unavailable i (generation db.meta i) height db.unavailable)))))
  unfolding guard_needed
  guard_needed-inv i b e = elim (Bool-cases (left_out i)) [
    | inl out ↦ inl (out, sym (ok-injective (sym (if_true (left_out i) _ _ out) ∙ e)))
    | inr kept ↦
        let (cov, read, built) =
          >>=-eq-ok (stored_coverage codec db.meta i) _
            (sym (if_false (left_out i) _ _ kept) ∙ e) in
        inr (kept, (cov, read, sym (ok-injective built)))
  ]

  IsWanted-kept :
      (i : Indexable) (b : Bool) (cov : Option Coverage)
      → left_out i ≡ false
      → stored_coverage codec db.meta i ≡ ok cov
      → b ≡ (
          not (is_some_and cov (is_past (generation db.meta i) height))
          && not (is_unavailable i (generation db.meta i) height db.unavailable))
      → (b ≡ true) ↔ IsWanted i
  IsWanted-kept i b none kept read e =
      (λ h. (kept, ground arith, λ c has same. cc (read, has)), λ (_, present, _). ground arith)
  IsWanted-kept i b (some c) kept read e =
      let (closed, reopened) = is_past_iff (generation db.meta i) c in
      (
        λ h. (
          kept,
          ground arith,
          λ c' has same.
              subst (λ k. k.gen ≡ generation db.meta i → IsOpen k)
                (some-injective c c' (ok-injective (sym read ∙ has))) (closed (ground arith)) same,
        ),
        λ (_, present, opened). ground (arith, reopened (opened c read)),
      )

  IsWanted-answer :
      (i : Indexable) (b : Bool)
      → ((left_out i ≡ true) × (b ≡ false))
        ⊎ ((left_out i ≡ false)
            × ((cov : Option Coverage) × (stored_coverage codec db.meta i ≡ ok cov)
                × (b ≡ (
                    not (is_some_and cov (is_past (generation db.meta i) height))
                    && not (is_unavailable i (generation db.meta i) height db.unavailable)))))
      → (b ≡ true) ↔ IsWanted i
  IsWanted-answer i b (inl (out, none_needed)) = (λ h. cc (none_needed, h), λ w. cc (out, w.0))
  IsWanted-answer i b (inr (kept, (cov, read, built))) = IsWanted-kept i b cov kept read built

  -- The guards that `guards` returns name no domain twice and no stale generation, and name a
  -- domain exactly if it is asked for, the height is not marked unavailable in its generation,
  -- and a stored coverage of that generation leaves the height open: not below the start, above
  -- the floor, and uncovered.
  pub guards-fresh :
      (gs : List GenerationGuard)
      → guards codec db height with_authorship ≡ ok gs
      → (duplicate_guard gs ≡ false)
        × (stale_guard db.meta gs ≡ false)
        × ((i : Indexable) → (guarded gs i ≡ true) ↔ IsWanted i)
  guards-fresh gs e =
      let (test, answer, built) = guards-picked gs e in
      subst
        (λ l.
          (duplicate_guard l ≡ false)
          × (stale_guard db.meta l ≡ false)
          × ((i : Indexable) → (guarded l i ≡ true) ↔ IsWanted i))
        (sym built)
        (
          duplicate_guard-picked db.meta test,
          stale_guard-picked db.meta test domains,
          λ i.
              subst (λ b. (b ≡ true) ↔ IsWanted i) (sym (guarded-picked db.meta test i))
                (IsWanted-answer i (test i) (guard_needed-inv i (test i) (answer i))),
        )
