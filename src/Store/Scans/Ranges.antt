-- ===== src/Store/Scans/Ranges.antt =====
-- When a range is completed, and what it covers.
use dashboard_quip_network.Prelude.{
  ℕ, ◌≡◌, ◌⊎◌, Bool, true, false, ◌&&◌, ◌||◌, not, some, List, [], ◌∷◌, ltb, ◌==◌, arith, ok,
  refuse_if-false, ok_or, Bool-cases, Option-cases, inl, inr, ◌∙◌, ap, >>=-eq-ok, sym, subst,
  if_true, if_false, ◌≤◌,
}
use mathlib.Core.Option.{some-injective}
use dashboard_quip_network.Prelude.Texts.{same_text, same_text-eq}
use dashboard_quip_network.Errors.{incomplete_scan, read_only}
use dashboard_quip_network.Decimal.{Text, parse_u64, print_u64}
use dashboard_quip_network.Coverage.{Coverage, contains, cover}
use dashboard_quip_network.Coverage.Points.{covers, within}
use dashboard_quip_network.Store.{
  CommitResult, stale_generation, Indexable, authorship, same_domain, Meta, ScanRow, ScanWinnerRow,
  Store, Json,
}
use dashboard_quip_network.Store.Meta.{generation, height, height-le, network, coverage}
use dashboard_quip_network.Store.Views.{
  covered_at, covered_at-coverage, after_cover, covered_at-cover, same_domain-eq,
}
use dashboard_quip_network.Store.Scans.{
  RangeCompletion, find_scan, scan_proves, check_winners, apply_range, commit_range,
}

-- Every recorded winner of the scan with a height in the range is covered.
abbrev pub WinnersCovered : Text → (ℕ → Bool) → ℕ → ℕ → List ScanWinnerRow → Type 0
WinnersCovered id covered from through [] = Unit
WinnersCovered id covered from through (w ∷ ws) =
    (same_text w.scan_id id ≡ true
      → (n : ℕ) × (parse_u64 w.height ≡ some n) × (within from through n ≡ true → covered n ≡ true))
    × WinnersCovered id covered from through ws

-- A finished scan of the network, of the domain and of its stored generation, whose pinned state is at
-- or above the end of the range.
abbrev pub IsFinishedScan : RangeCompletion → ℕ → Meta → ScanRow → Type 0
IsFinishedScan r through meta row =
    (row.id ≡ r.scan_id)
    × (row.finished ≡ true)
    × (row.genesis ≡ r.genesis.text)
    × (row.domain ≡ r.indexable)
    × (row.generation ≡ print_u64 (generation meta r.indexable))
    × ((top : ℕ) × (parse_u64 row.finalized_height ≡ some top) × (through ≤ top))

find_scan-id :
    (id : Text) (rows : List ScanRow) (row : ScanRow) → find_scan id rows ≡ some row → row.id ≡ id
unfolding find_scan
find_scan-id id [] row e = cc e
find_scan-id id (r ∷ rows) row e = elim (Bool-cases (same_text r.id id)) [
  | inl t ↦
      let same : r ≡ row = some-injective _ _ (sym (if_true _ _ _ t) ∙ e) in
      subst (λ (x : ScanRow). x.id ≡ id) same (same_text-eq r.id id t)
  | inr f ↦ find_scan-id id rows row (sym (if_false _ _ _ f) ∙ e)
]

scan_proves-IsFinishedScan :
    (r : RangeCompletion) (through : ℕ) (meta : Meta) (rows : List ScanRow) (row : ScanRow)
    → find_scan r.scan_id rows ≡ some row
    → generation meta r.indexable ≡ r.expected_generation
    → scan_proves r through row ≡ true
    → IsFinishedScan r through meta row
unfolding scan_proves
scan_proves-IsFinishedScan r through meta rows row found gen e =
    elim (Option-cases (parse_u64 row.finalized_height)) [
      | inl none_read ↦ absurd (ground (arith, none_read))
      | inr (top, read) ↦ (
        find_scan-id r.scan_id rows row found,
        ground arith,
        same_text-eq row.genesis r.genesis.text (ground arith),
        same_domain-eq row.domain r.indexable (ground arith),
        same_text-eq row.generation (print_u64 r.expected_generation) (ground arith)
            ∙ sym (ap print_u64 gen),
        (top, read, ground (arith, read)),
      )
    ]

check_winners_own :
    (id : Text) (cov : Coverage) (from through : ℕ) (w : ScanWinnerRow) (ws : List ScanWinnerRow)
    → same_text w.scan_id id ≡ true
    → check_winners id cov from through (w ∷ ws) ≡ ok tt
    → (n : ℕ) × (parse_u64 w.height ≡ some n)
      × (within from through n ≡ true → contains cov n n ≡ true)
      × (check_winners id cov from through ws ≡ ok tt)
unfolding check_winners
check_winners_own id cov from through w ws t e = elim (Option-cases (parse_u64 w.height)) [
  | inl p ↦ absurd (ground (arith, t, p))
  | inr (n, p) ↦ (n, p, λ h. ground (arith, t, p), ground (arith, t, p))
]

check_winners_foreign :
    (id : Text) (cov : Coverage) (from through : ℕ) (w : ScanWinnerRow) (ws : List ScanWinnerRow)
    → same_text w.scan_id id ≡ false
    → check_winners id cov from through (w ∷ ws) ≡ check_winners id cov from through ws
unfolding check_winners
check_winners_foreign id cov from through w ws t = rw t

check_winners-covered :
    (id : Text) (cov : Coverage) (from through : ℕ) (covered : ℕ → Bool) (ws : List ScanWinnerRow)
    → ((m : ℕ) → covered m ≡ covers cov m)
    → check_winners id cov from through ws ≡ ok tt
    → WinnersCovered id covered from through ws
check_winners-covered id cov from through covered [] same e = tt
check_winners-covered id cov from through covered (w ∷ ws) same e =
    elim (Bool-cases (same_text w.scan_id id)) [
      | inl t ↦
          let (n, p, c, rest) = check_winners_own id cov from through w ws t e in
          (
            λ _. (n, p, λ h. same n ∙ c h),
            check_winners-covered id cov from through covered ws same rest,
          )
      | inr t ↦ (
        λ u. absurd (cc (t, u)),
        check_winners-covered id cov from through covered ws same
            (sym (check_winners_foreign id cov from through w ws t) ∙ e),
      )
    ]

module _ {R : Type 0} (codec : Json) (now : Text) where
  -- What a completion that gets past its guard rests on, and what it has done.
  record IsProved (r : RangeCompletion) (from through : ℕ) (s s' : Store R) : Type 0 where
    row : ScanRow
    found : find_scan r.scan_id s.db.scans ≡ some row
    proves : scan_proves r through row ≡ true
    cov : Coverage
    loaded : coverage codec s.db.meta r.indexable 0 ≡ ok cov
    winners : check_winners r.scan_id cov from through s.db.scan_winners ≡ ok tt
    changed : Bool
    cov' : Coverage
    covered : cover now cov from through ≡ ok (changed, cov')
    saved : s'.db.meta ≡ after_cover codec r.indexable changed cov' s.db.meta

  apply_range-IsProved :
      (r : RangeCompletion) (from through : ℕ) (s s' : Store R) (result : CommitResult)
      → apply_range codec now r from through s ≡ ok (result, s')
      → IsProved r from through s s'
  unfolding apply_range
  apply_range-IsProved r from through s s' result e =
      let (row, f, e1) = >>=-eq-ok (ok_or (find_scan r.scan_id s.db.scans) incomplete_scan) _ e in
      let (p, e2) = refuse_if-false (not (scan_proves r through row)) _ _ e1 in
      let (_, e3) = refuse_if-false (same_domain r.indexable authorship) _ _ e2 in
      let (c, l, e4) = >>=-eq-ok (coverage codec s.db.meta r.indexable 0) _ e3 in
      let (_, w, e5) = >>=-eq-ok (check_winners r.scan_id c from through s.db.scan_winners) _ e4 in
      let (t, k, e6) = >>=-eq-ok (cover now c from through) _ e5 in
      record {
        row = row;
        found = ground arith;
        proves = ground arith;
        cov = c;
        loaded = l;
        winners = w;
        changed = t.0;
        cov' = t.1;
        covered = k;
        saved = ground arith;
      }

  -- A completed range was proved by a scan that is finished, is of the same network and domain
  -- and of the stored generation of the domain, and whose pinned state is at or above the end of
  -- the range, and every recorded winner of that scan in the range was covered; then exactly the
  -- range is covered besides what was. Any other success is a stale generation and changes
  -- nothing.
  pub commit_range-covers :
      (r : RangeCompletion) (s s' : Store R) (result : CommitResult)
      → commit_range codec now r s ≡ ok (result, s')
      → ((result ≡ stale_generation) × (s' ≡ s))
        ⊎ ((from : ℕ) × (through : ℕ) × (height r.from ≡ ok from)
            × (height r.through ≡ ok through)
            × ((row : ScanRow) × (find_scan r.scan_id s.db.scans ≡ some row)
                × IsFinishedScan r through s.db.meta row)
            × WinnersCovered r.scan_id
                (covered_at codec s.db.meta r.indexable)
                from
                through
                s.db.scan_winners
            × ((j : Indexable) (m : ℕ)
                → covered_at codec s'.db.meta j m ≡ (
                    covered_at codec s.db.meta j m
                    || (same_domain r.indexable j && within from through m))))
  unfolding commit_range
  commit_range-covers r s s' result e =
      let (_, e1) = refuse_if-false (not s.writer) read_only _ e in
      let (from, hf, e2) = >>=-eq-ok (height r.from) _ e1 in
      let (through, ht, e3) = >>=-eq-ok (height r.through) _ e2 in
      let (_, e4) = refuse_if-false (ltb through from) _ _ e3 in
      let (_, _, e5) = >>=-eq-ok (network s.db.meta r.genesis) _ e4 in
      elim (Bool-cases (generation s.db.meta r.indexable == r.expected_generation)) [
        | inr f ↦ inl (ground (arith, f), ground (arith, f))
        | inl f ↦
            let a = apply_range-IsProved r from through s s' result (ground (arith, f)) in
            inr (
              from,
              through,
              hf,
              ht,
              (
                a.row,
                a.found,
                scan_proves-IsFinishedScan r through s.db.meta s.db.scans a.row a.found
                    (ground (arith, f)) a.proves,
              ),
              check_winners-covered r.scan_id a.cov from through
                  (covered_at codec s.db.meta r.indexable) s.db.scan_winners
                  (λ m. covered_at-coverage codec s.db.meta r.indexable 0 m a.cov a.loaded)
                  a.winners,
              λ j m.
                  ap (λ (x : Meta). covered_at codec x j m) a.saved
                  ∙ covered_at-cover codec now from through (height-le r.through through ht)
                      s.db.meta r.indexable j 0 m a.cov a.cov' a.changed a.loaded a.covered,
            )
      ]
