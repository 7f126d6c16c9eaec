-- ===== src/Indexer/Replay/Rows.antt =====
-- backfill.rs: one row of a replay, and the ranges that it finishes.
use dashboard_quip_network.Prelude.{
  ℕ, ◌+◌, ◌-◌, ◌≡◌, ◌≤◌, ◌<◌, Bool, true, false, not, Option, none, some, List, [], ◌∷◌, ◌++◌, leb,
  ltb, ◌==◌, if◌then◌else◌, ok, >>=-eq-ok, ok-injective, arith, refl, Bool-cases, inl, inr, ◌∙◌,
  sym, ap, subst, is_none_or, is_some, is_some_and, if_true, if_false, ◌⊎◌,
}
use mathlib.Core.Path.{Path}
use mathlib.Core.List.{append-nil}
use dashboard_quip_network.Prelude.Words.{u64_max, checked_add}
use dashboard_quip_network.Decimal.{DecimalString}
use dashboard_quip_network.Coverage.{Coverage, Interval, contains}
use dashboard_quip_network.Indexer.Replay.{
  Replayer, Replay, finish, finish_before, skip_height, settle_height, replay_rows, finish_after,
  row_height,
}
use dashboard_quip_network.Indexer.Replay.Ranges.{
  position, IsReplayed, IsBehind, range_before, range_after, position-next, IsReplayed-skip,
}

pub is_some-inv : (o : Option ℕ) → is_some o ≡ true → (n : ℕ) × (o ≡ some n)
is_some-inv none e = cc e
is_some-inv (some n) e = (n, refl)

module _ {S : Type 0} (calls : Replayer S) where
  -- A state with other finished ranges, and nothing else of the loop changed.
  abbrev pub IsExtended : List Interval → Replay S → Replay S → Type 0
  IsExtended more st st' =
      (st'.cursor ≡ st.cursor)
      × (st'.last ≡ st.last)
      × (st'.skipped ≡ st.skipped)
      × (st'.finished ≡ st.finished ++ more)

  finish-IsExtended :
      (from through : ℕ) (st st' : Replay S)
      → finish calls from through st ≡ ok st'
      → IsExtended (record { first = from; last = through } ∷ []) st st'
  unfolding finish
  finish-IsExtended from through st st' e =
      let (s', _, built) = >>=-eq-ok (calls.finish_range from through st.store) _ e in
      subst (IsExtended (record { first = from; last = through } ∷ []) st) (ok-injective built)
        (refl, refl, refl, refl)

  IsExtended-refl : (st st' : Replay S) → st ≡ st' → IsExtended [] st st'
  IsExtended-refl st st' e =
      subst (IsExtended [] st) e (refl, refl, refl, sym (append-nil st.finished))

  pub finish_before-IsExtended :
      (cursor : Option ℕ) (height : ℕ) (st st' : Replay S)
      → finish_before calls cursor height st ≡ ok st'
      → IsExtended (range_before cursor height) st st'
  unfolding finish_before
  finish_before-IsExtended none height st st' e = IsExtended-refl st st' (ok-injective e)
  finish_before-IsExtended (some start) height st st' e = elim (Bool-cases (ltb start height)) [
    | inl less ↦ rw less (
        finish-IsExtended start (height - 1) st st'
          (subst (λ b. (if b then finish calls start (height - 1) st else ok st) ≡ ok st') less e))
    | inr not_less ↦ rw not_less (
        IsExtended-refl st st' (
          ok-injective (
            subst (λ b. (if b then finish calls start (height - 1) st else ok st) ≡ ok st') not_less
              e)))
  ]

  pub finish_after-IsExtended :
      (cursor last : Option ℕ) (st st' : Replay S)
      → finish_after calls cursor last st ≡ ok st'
      → IsExtended (range_after cursor last) st st'
  unfolding finish_after
  finish_after-IsExtended none last st st' e = IsExtended-refl st st' (ok-injective e)
  finish_after-IsExtended (some start) none st st' e = IsExtended-refl st st' (ok-injective e)
  finish_after-IsExtended (some start) (some last) st st' e = elim (Bool-cases (leb start last)) [
    | inl less ↦ rw less (
        finish-IsExtended start last st st'
          (subst (λ b. (if b then finish calls start last st else ok st) ≡ ok st') less e))
    | inr not_less ↦ rw not_less (
        IsExtended-refl st st' (
          ok-injective
            (subst (λ b. (if b then finish calls start last st else ok st) ≡ ok st') not_less e)))
  ]

  -- The state of the loop: its ranges, and the cursor behind the last height and the next.
  abbrev pub IsLoop : ℕ → ℕ → ℕ → Replay S → Type 0
  IsLoop from ceiling next st =
      IsReplayed from st.cursor st.finished st.skipped
      × IsBehind from ceiling st.last (position st.cursor)
      × (position st.cursor ≤ next)

  skip_height-IsLoop :
      (from ceiling height : ℕ) (st st' : Replay S)
      → height ≤ u64_max
      → height ≤ ceiling
      → skip_height calls height st ≡ ok st'
      → IsLoop from ceiling height st
      → IsLoop from ceiling (height + 1) (record st' { last = some height })
  unfolding skip_height
  skip_height-IsLoop from ceiling height st st' fits below e (ranges, behind, order) =
      let (st1, first, built) = >>=-eq-ok (finish_before calls st.cursor height st) _ e in
      let (_, _, skips, more) = finish_before-IsExtended st.cursor height st st1 first in
      subst (λ (r : Replay S). IsLoop from ceiling (height + 1) (record r { last = some height }))
        (ok-injective built)
        (
          subst (λ f. IsReplayed from (checked_add height 1) f (height ∷ st1.skipped)) (sym more)
              (subst
                (λ sk.
                  IsReplayed from (checked_add height 1)
                    (st.finished ++ range_before st.cursor height) (height ∷ sk))
                (sym skips)
                (IsReplayed-skip from height st.cursor st.finished st.skipped ranges order fits)),
          (omega (arith, position-next height fits), below),
          omega (arith, position-next height fits),
        )

  pub settle_height-IsLoop :
      (committed : Bool) (from ceiling height : ℕ) (st st' : Replay S)
      → height ≤ u64_max
      → height ≤ ceiling
      → settle_height calls committed height st ≡ ok st'
      → IsLoop from ceiling height st
      → IsLoop from ceiling (height + 1) st'
  unfolding settle_height
  settle_height-IsLoop true from ceiling height st st' fits below e (ranges, behind, order) =
      subst (IsLoop from ceiling (height + 1)) (ok-injective e)
        (ranges, (omega arith, below), omega arith)
  settle_height-IsLoop false from ceiling height st st' fits below e h =
      let (st1, skipped, built) = >>=-eq-ok (skip_height calls height st) _ e in
      subst (IsLoop from ceiling (height + 1)) (ok-injective built)
        (skip_height-IsLoop from ceiling height st st1 fits below skipped h)

  pub pair-injective : {a b : Bool} {x y : Replay S} → Path (Bool × Replay S) (a, x) (b, y) → x ≡ y
  pair-injective e = ap (λ (p : Bool × Replay S). p.1) e

  pub different-kept : {x y : Replay S} → ¬ (Path (Bool × Replay S) (false, x) (true, y))
  different-kept e = cc (ap (λ (p : Bool × Replay S). p.0) e)

  -- What is done for a height: above the ceiling the loop ends, otherwise the block was fetched, and
  -- the coverage that was read then settles the height.
  abbrev pub IsDoneFor :
      DecimalString → ℕ → ℕ → List DecimalString → Replay S → Replay S → ℕ → Type 0
  IsDoneFor finalized ceiling generation rest st st' height =
      ((ceiling < height) × (st' ≡ record st { last = some ceiling }))
      ⊎ ((height ≤ ceiling)
          × ((target : ℕ) × (fetched : S) × (cov : Coverage) × (st1 : Replay S) × (row_height
                  finalized
                ≡ ok target)
              × (calls.backfill_block height target st.store ≡ ok fetched)
              × (calls.coverage fetched ≡ ok (some cov))
              × (cov.gen ≡ generation)
              × (settle_height calls (contains cov height height) height
                    (record st { store = fetched })
                  ≡ ok st1)
              × (replay_rows calls finalized ceiling generation rest st1 ≡ ok (true, st'))))

  kept_coverage :
      (generation : ℕ) (o : Option Coverage)
      → is_none_or o (λ (c : Coverage). not (c.gen == generation)) ≡ false
      → (cov : Coverage) × (o ≡ some cov) × (cov.gen ≡ generation)
  kept_coverage generation none e = cc e
  kept_coverage generation (some cov) e = (cov, refl, ground arith)

  pub replay_rows-cons :
      (finalized : DecimalString) (ceiling generation height : ℕ) (row : DecimalString)
      (rest : List DecimalString) (st st' : Replay S)
      → row_height row ≡ ok height
      → replay_rows calls finalized ceiling generation (row ∷ rest) st ≡ ok (true, st')
      → IsDoneFor finalized ceiling generation rest st st' height
  unfolding replay_rows
  replay_rows-cons finalized ceiling generation height row rest st st' read e =
      let (n, read', e0) = >>=-eq-ok (row_height row) _ e in
      let same : n ≡ height = ok-injective (sym read' ∙ read) in
      subst (IsDoneFor finalized ceiling generation rest st st') same
        (elim (Bool-cases (ltb ceiling n)) [
          | inl above ↦ inl (
            ground arith,
            sym (pair-injective (ok-injective (sym (if_true (ltb ceiling n) _ _ above) ∙ e0))),
          )
          | inr within_ceiling ↦
              let (target, aimed, e1) =
                >>=-eq-ok (row_height finalized) _
                  (sym (if_false (ltb ceiling n) _ _ within_ceiling) ∙ e0) in
              let (fetched, got, e2) = >>=-eq-ok (calls.backfill_block n target st.store) _ e1 in
              let (current, seen, e3) = >>=-eq-ok (calls.coverage fetched) _ e2 in
              let changed = is_none_or current (λ c. not (c.gen == generation)) in
              elim (Bool-cases changed) [
                | inl other ↦
                    absurd (different-kept (ok-injective (sym (if_true changed _ _ other) ∙ e3)))
                | inr same_generation ↦
                    let (cov, there, gen) = kept_coverage generation current same_generation in
                    let (st1, settled, e4) =
                      >>=-eq-ok
                        (settle_height calls (is_some_and current (λ c. contains c n n)) n
                          (record st { store = fetched }))
                        _ (sym (if_false changed _ _ same_generation) ∙ e3) in
                    inr (
                      ground arith,
                      (
                        target,
                        fetched,
                        cov,
                        st1,
                        aimed,
                        got,
                        seen ∙ ap ok there,
                        gen,
                        subst
                            (λ o.
                              settle_height calls (is_some_and o (λ c. contains c n n)) n
                                (record st { store = fetched })
                              ≡ ok st1)
                            there settled,
                        e4,
                      ),
                    )
              ]
        ])

  pub settle_height-last :
      (committed : Bool) (height : ℕ) (st st' : Replay S)
      → settle_height calls committed height st ≡ ok st'
      → st'.last ≡ some height
  unfolding settle_height
  settle_height-last true height st st' e = sym (ap (λ (r : Replay S). r.last) (ok-injective e))
  settle_height-last false height st st' e =
      let (st1, skipped, built) = >>=-eq-ok (skip_height calls height st) _ e in
      sym (ap (λ (r : Replay S). r.last) (ok-injective built))
