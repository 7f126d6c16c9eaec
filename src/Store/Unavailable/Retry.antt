-- ===== src/Store/Unavailable/Retry.antt =====
-- `Store::mark_unavailable` of coverage.rs: what it records.
use dashboard_quip_network.Prelude.{
  ℕ, ◌≡◌, refl, true, not, ◌++◌, any, ◌==◌, if◌then◌else◌, arith, Result, ok, refuse_if-false,
  Bool-cases, inl, inr, >>=-eq-ok, subst,
}
use dashboard_quip_network.Prelude.Texts.{same_text, same_text_refl}
use dashboard_quip_network.Errors.{StoreError, invalid, read_only, conflicting_history}
use dashboard_quip_network.Decimal.{Text, print_u64}
use dashboard_quip_network.Hash.{BlockHash}
use dashboard_quip_network.Coverage.{contains}
use dashboard_quip_network.Store.{
  CommitResult, applied, already_applied, stale_generation, Store, Json, same_domain,
}
use dashboard_quip_network.Store.Meta.{generation, height, network, coverage}
use dashboard_quip_network.Store.Blocks.{Tables, finalized_at}
use dashboard_quip_network.Store.Unavailable.{
  UnavailableBlock, valid_domain, marks, marked, marker, record_marker, mark_current,
  mark_unavailable,
}

module _ (codec : Json) (tables : Tables) (now : Text) where
  open tables use {Rows, hashes_at}

  record_marker-marked :
      (b : UnavailableBlock) (n : ℕ) (s : Store Rows)
      → marked b.guard.indexable
          (print_u64 b.guard.expected)
          b.height.text
          (record_marker codec tables now b n s).1.db.unavailable
        ≡ true
  unfolding record_marker marked marks marker
  record_marker-marked b n s =
      ground (arith, same_text_refl (print_u64 b.guard.expected), same_text_refl b.height.text)

  record_marker-meta :
      (b : UnavailableBlock) (n : ℕ) (s : Store Rows)
      → (record_marker codec tables now b n s).1.db.meta ≡ s.db.meta
  unfolding record_marker
  record_marker-meta b n s = refl

  mark_current-lem :
      (b : UnavailableBlock) (n : ℕ) (s s' : Store Rows) (r : CommitResult)
      → generation s.db.meta b.guard.indexable ≡ b.guard.expected
      → mark_current codec tables now b n s ≡ ok (r, s')
      → (s'.db.meta ≡ s.db.meta)
        × (r ≡ applied
            → (generation s'.db.meta b.guard.indexable ≡ b.guard.expected)
              × (marked b.guard.indexable
                    (print_u64 b.guard.expected)
                    b.height.text
                    s'.db.unavailable
                  ≡ true))
  unfolding mark_current
  mark_current-lem b n s s' r fresh e =
      let (p0, e0) =
        refuse_if-false
          (any (λ x. not (same_text x b.hash.text))
            (finalized_at b.height.text s.db.finalized ++ hashes_at b.height.text s.db.rows))
          (conflicting_history b.height.text) _ e in
      let (cov, p1, e1) = >>=-eq-ok (coverage codec s.db.meta b.guard.indexable 0) _ e0 in
      elim (Bool-cases (contains cov n n)) [
        | inl d ↦
            let known : ◌≡◌ {A = Result StoreError (CommitResult × Store Rows)}
                (ok (already_applied, s)) (ok (r, s')) =
              subst
                (λ t.
                  if◌then◌else◌ {A = Result StoreError (CommitResult × Store Rows)} t
                    (ok (already_applied, s)) (ok (record_marker codec tables now b n s))
                  ≡ ok (r, s'))
                d e1 in
            let same : s' ≡ s = ground arith in (rw same, λ a. ground arith)
        | inr d ↦
            let written : ◌≡◌ {A = Result StoreError (CommitResult × Store Rows)}
                (ok (record_marker codec tables now b n s)) (ok (r, s')) =
              subst
                (λ t.
                  if◌then◌else◌ {A = Result StoreError (CommitResult × Store Rows)} t
                    (ok (already_applied, s)) (ok (record_marker codec tables now b n s))
                  ≡ ok (r, s'))
                d e1 in
            let same : (record_marker codec tables now b n s).1 ≡ s' = ground arith in
            (
              rw (← same) (record_marker-meta b n s),
              λ a. (
                rw (← same, record_marker-meta b n s) fresh,
                rw (← same) (record_marker-marked b n s),
              ),
            )
      ]

  -- When `mark_unavailable` returns Applied, the height is marked in its domain's current
  -- generation; whatever it returns, the table `meta`, and so every coverage and pruning floor,
  -- is as it was.
  pub mark_unavailable-applied :
      (g : BlockHash) (b : UnavailableBlock) (s s' : Store Rows) (r : CommitResult)
      → mark_unavailable codec tables now g b s ≡ ok (r, s')
      → (s'.db.meta ≡ s.db.meta)
        × (r ≡ applied
            → (generation s'.db.meta b.guard.indexable ≡ b.guard.expected)
              × (marked b.guard.indexable
                    (print_u64 b.guard.expected)
                    b.height.text
                    s'.db.unavailable
                  ≡ true))
  unfolding mark_unavailable
  mark_unavailable-applied g b s s' r e =
      let (p0, e0) =
        refuse_if-false (not (same_domain b.guard.indexable (valid_domain b.reason)))
          (invalid "unavailable reason does not match domain") _ e in
      let (n, p1, e1) = >>=-eq-ok (height b.height) _ e0 in
      let (p2, e2) = refuse_if-false (not s.writer) read_only _ e1 in
      let (u, p3, e3) = >>=-eq-ok (network s.db.meta g) _ e2 in
      elim (Bool-cases (generation s.db.meta b.guard.indexable == b.guard.expected)) [
        | inl d ↦ mark_current-lem b n s s' r (ground arith) (
            subst
              (λ t.
                if◌then◌else◌ {A = Result StoreError (CommitResult × Store Rows)} t
                  (mark_current codec tables now b n s) (ok (stale_generation, s))
                ≡ ok (r, s'))
              d e3)
        | inr d ↦
            let stale : ◌≡◌ {A = Result StoreError (CommitResult × Store Rows)}
                (ok (stale_generation, s)) (ok (r, s')) =
              subst
                (λ t.
                  if◌then◌else◌ {A = Result StoreError (CommitResult × Store Rows)} t
                    (mark_current codec tables now b n s) (ok (stale_generation, s))
                  ≡ ok (r, s'))
                d e3 in
            let same : s' ≡ s = ground arith in (rw same, λ a. ground arith)
      ]
