-- ===== src/Indexer/Replay/Settled.antt =====
-- backfill.rs: a replay skips the heights that the coverage it read did not have, and no other.
use dashboard_quip_network.Prelude.{
  ℕ, ◌+◌, ◌-◌, ◌≡◌, ◌≤◌, ◌<◌, Bool, true, false, not, Option, none, some, List, [], ◌∷◌, ltb, ◌==◌,
  if◌then◌else◌, ok, >>=-eq-ok, ok-injective, arith, Bool-cases, inl, inr, ◌∙◌, sym, ap, subst,
  if_true, if_false, ◌⊎◌,
}
use dashboard_quip_network.Decimal.{DecimalString}
use dashboard_quip_network.Coverage.{Coverage, contains}
use dashboard_quip_network.Indexer.Replay.{
  Replayer, Replay, finish, finish_before, skip_height, settle_height, replay_rows, row_height,
}
use dashboard_quip_network.Indexer.Replay.Ranges.{among, IsAscending}
use dashboard_quip_network.Indexer.Replay.Rows.{
  replay_rows-cons, finish_before-IsExtended, pair-injective,
}

-- A height joins those skipped unless it was committed.
abbrev joined_if : Bool → ℕ → List ℕ → List ℕ
joined_if committed height hs = if committed then hs else height ∷ hs

among_earlier :
    (committed : Bool) (h n : ℕ) (hs : List ℕ)
    → (h == n) ≡ false
    → among n (joined_if committed h hs) ≡ true
    → among n hs ≡ true
among_earlier true h n hs other e = e
among_earlier false h n hs other e = ground arith

among_here :
    (committed : Bool) (h : ℕ) (hs : List ℕ)
    → among h hs ≡ false
    → among h (joined_if committed h hs) ≡ not committed
among_here true h hs fresh = fresh
among_here false h hs fresh = ground arith

among_bound :
    (committed : Bool) (h next n : ℕ) (hs : List ℕ)
    → next ≤ h
    → ((m : ℕ) → among m hs ≡ true → m < next)
    → among n (joined_if committed h hs) ≡ true
    → n < h + 1
among_bound true h next n hs order low e = omega (arith, low n e, order)
among_bound false h next n hs order low e = elim (Bool-cases (h == n)) [
  | inl here ↦ ground arith
  | inr other ↦ omega (arith, low n (among_earlier false h n hs other e), order)
]

among_fresh :
    (h next : ℕ) (hs : List ℕ)
    → next ≤ h
    → ((m : ℕ) → among m hs ≡ true → m < next)
    → among h hs ≡ false
among_fresh h next hs order low = elim (Bool-cases (among h hs)) [
  | inl there ↦ absurd (omega (arith, low h there, order))
  | inr fresh ↦ fresh
]

-- One of the rows is read as the height.
abbrev pub AnyRow : ℕ → List DecimalString → Type 0
AnyRow n [] = ⊥
AnyRow n (row ∷ rest) = (row_height row ≡ ok n) ⊎ AnyRow n rest

module _ {S : Type 0} (calls : Replayer S) where
  -- Either the ceiling ended the loop at the row, or its block was fetched, the coverage read then is of
  -- the generation, and the height is among those skipped exactly if that coverage does not have it.
  abbrev pub IsSettled : DecimalString → ℕ → ℕ → List ℕ → List DecimalString → S → Type 0
  IsSettled finalized ceiling generation skipped [] s = Unit
  IsSettled finalized ceiling generation skipped (row ∷ rest) s =
      (height : ℕ) × (row_height row ≡ ok height)
      × ((ceiling < height)
          ⊎ ((target : ℕ) × (fetched : S) × (cov : Coverage) × (later : S) × (row_height finalized
                ≡ ok target)
              × (calls.backfill_block height target s ≡ ok fetched)
              × (calls.coverage fetched ≡ ok (some cov))
              × (cov.gen ≡ generation)
              × (among height skipped ≡ not (contains cov height height))
              × ((later ≡ fetched)
                  ⊎ ((start : ℕ) × (calls.finish_range start (height - 1) fetched ≡ ok later)))
              × IsSettled finalized ceiling generation skipped rest later))

  -- A height that is settled as skipped joins those skipped.
  settle_height-skipped :
      (committed : Bool) (height : ℕ) (st st' : Replay S)
      → settle_height calls committed height st ≡ ok st'
      → st'.skipped ≡ joined_if committed height st.skipped
  unfolding settle_height skip_height
  settle_height-skipped true height st st' e =
      sym (ap (λ (r : Replay S). r.skipped) (ok-injective e))
  settle_height-skipped false height st st' e =
      let (st1, skips, built) = >>=-eq-ok (skip_height calls height st) _ e in
      let (st0, before, added) = >>=-eq-ok (finish_before calls st.cursor height st) _ skips in
      let (_, _, same, _) = finish_before-IsExtended calls st.cursor height st st0 before in
      sym (ap (λ (r : Replay S). r.skipped) (ok-injective built))
      ∙ sym (ap (λ (r : Replay S). r.skipped) (ok-injective added))
      ∙ ap (λ hs. height ∷ hs) same

  finish_before-store :
      (cursor : Option ℕ) (height : ℕ) (st st' : Replay S)
      → finish_before calls cursor height st ≡ ok st'
      → (st'.store ≡ st.store)
        ⊎ ((start : ℕ) × (calls.finish_range start (height - 1) st.store ≡ ok st'.store))
  unfolding finish_before finish
  finish_before-store none height st st' e =
      inl (sym (ap (λ (r : Replay S). r.store) (ok-injective e)))
  finish_before-store (some start) height st st' e = elim (Bool-cases (ltb start height)) [
    | inl less ↦
        let (s', done, built) =
          >>=-eq-ok (calls.finish_range start (height - 1) st.store) _
            (sym (if_true (ltb start height) _ _ less) ∙ e) in
        inr (start, done ∙ ap ok (ap (λ (r : Replay S). r.store) (ok-injective built)))
    | inr not_less ↦ inl (
        sym (
          ap (λ (r : Replay S). r.store)
            (ok-injective (sym (if_false (ltb start height) _ _ not_less) ∙ e))))
  ]

  settle_height-store :
      (committed : Bool) (height : ℕ) (st st' : Replay S)
      → settle_height calls committed height st ≡ ok st'
      → (st'.store ≡ st.store)
        ⊎ ((start : ℕ) × (calls.finish_range start (height - 1) st.store ≡ ok st'.store))
  unfolding settle_height skip_height
  settle_height-store true height st st' e =
      inl (sym (ap (λ (r : Replay S). r.store) (ok-injective e)))
  settle_height-store false height st st' e =
      let (st1, skips, built) = >>=-eq-ok (skip_height calls height st) _ e in
      let (st0, before, added) = >>=-eq-ok (finish_before calls st.cursor height st) _ skips in
      let same : st0.store ≡ st'.store =
        ap (λ (r : Replay S). r.store) (ok-injective added)
        ∙ ap (λ (r : Replay S). r.store) (ok-injective built) in
      subst
        (λ s.
          (s ≡ st.store) ⊎ ((start : ℕ) × (calls.finish_range start (height - 1) st.store ≡ ok s)))
        same (finish_before-store st.cursor height st st0 before)

  -- Later rows settle nothing of the heights below them.
  skipped_below :
      (finalized : DecimalString) (ceiling generation next n : ℕ) (rows : List DecimalString)
      (st st' : Replay S)
      → IsAscending next rows
      → n < next
      → replay_rows calls finalized ceiling generation rows st ≡ ok (true, st')
      → among n st'.skipped ≡ among n st.skipped
  unfolding replay_rows
  skipped_below finalized ceiling generation next n [] st st' up less e =
      sym (ap (λ (r : Replay S). among n r.skipped) (pair-injective calls (ok-injective e)))
  skipped_below finalized ceiling generation next n (row ∷ rest) st st' (h, read, order, up) less
        e =
      elim (replay_rows-cons calls finalized ceiling generation h row rest st st' read e) [
        | inl (above, same) ↦ ap (λ (r : Replay S). among n r.skipped) same
        | inr (below, (target, fetched, cov, st1, aimed, got, seen, gen, settled, later)) ↦
            let joined =
              settle_height-skipped (contains cov h h) h (record st { store = fetched }) st1
                settled in
            skipped_below finalized ceiling generation (h + 1) n rest st1 st' up (omega arith) later
            ∙ ap (among n) joined
            ∙ ground arith
      ]

  pub skipped-AnyRow :
      (finalized : DecimalString) (ceiling generation next n : ℕ) (rows : List DecimalString)
      (st st' : Replay S)
      → IsAscending next rows
      → replay_rows calls finalized ceiling generation rows st ≡ ok (true, st')
      → among n st'.skipped ≡ true
      → (among n st.skipped ≡ true) ⊎ AnyRow n rows
  unfolding replay_rows
  skipped-AnyRow finalized ceiling generation next n [] st st' up e m =
      inl (ap (λ (r : Replay S). among n r.skipped) (pair-injective calls (ok-injective e)) ∙ m)
  skipped-AnyRow finalized ceiling generation next n (row ∷ rest) st st' (h, read, order, up) e m =
      elim (replay_rows-cons calls finalized ceiling generation h row rest st st' read e) [
        | inl (above, same) ↦ inl (sym (ap (λ (r : Replay S). among n r.skipped) same) ∙ m)
        | inr (below, (target, fetched, cov, st1, aimed, got, seen, gen, settled, later)) ↦
            let joined =
              settle_height-skipped (contains cov h h) h (record st { store = fetched }) st1
                settled in
            elim (skipped-AnyRow finalized ceiling generation (h + 1) n rest st1 st' up later m) [
              | inl earlier ↦ elim (Bool-cases (h == n)) [
                | inl here ↦ let same : h ≡ n = ground arith in inr (inl (read ∙ ap ok same))
                | inr other ↦ inl (
                    among_earlier (contains cov h h) h n st.skipped other
                      (sym (ap (among n) joined) ∙ earlier))
              ]
              | inr found ↦ inr (inr found)
            ]
      ]

  pub replay_rows-IsSettled :
      (finalized : DecimalString) (ceiling generation next : ℕ) (rows : List DecimalString)
      (st st' : Replay S)
      → IsAscending next rows
      → replay_rows calls finalized ceiling generation rows st ≡ ok (true, st')
      → ((n : ℕ) → among n st.skipped ≡ true → n < next)
      → IsSettled finalized ceiling generation st'.skipped rows st.store
  replay_rows-IsSettled finalized ceiling generation next [] st st' up e below = tt
  replay_rows-IsSettled finalized ceiling generation next (row ∷ rest) st st' (h, read, order, up) e
        low =
      elim (replay_rows-cons calls finalized ceiling generation h row rest st st' read e) [
        | inl (above, same) ↦ (h, read, inl above)
        | inr (below, (target, fetched, cov, st1, aimed, got, seen, gen, settled, later)) ↦
            let joined =
              settle_height-skipped (contains cov h h) h (record st { store = fetched }) st1
                settled in
            (
              h,
              read,
              inr (
                target,
                fetched,
                cov,
                st1.store,
                aimed,
                got,
                seen,
                gen,
                skipped_below finalized ceiling generation (h + 1) h rest st1 st' up (omega arith)
                      later
                    ∙ ap (among h) joined
                    ∙ among_here (contains cov h h) h st.skipped
                        (among_fresh h next st.skipped order low),
                settle_height-store (contains cov h h) h (record st { store = fetched }) st1
                    settled,
                replay_rows-IsSettled finalized ceiling generation (h + 1) rest st1 st' up later
                    (λ n m.
                      among_bound (contains cov h h) h next n st.skipped order low
                        (sym (ap (among n) joined) ∙ m)),
              ),
            )
      ]
