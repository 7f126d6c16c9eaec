-- ===== src/Store/Targets/Progress.antt =====
-- coverage.rs: the height of the finalized target, and the answer of `committed_target`.
use dashboard_quip_network.Prelude.{
  ℕ, ◌≡◌, refl, Bool, true, not, ◌&&◌, ◌||◌, Option, none, some, List, [], ◌∷◌, any, All, max, ltb,
  ◌==◌, if◌then◌else◌, arith, Result, ok, ◌>>=◌, refuse_if, ok_or, Bool-cases, inl, inr, ◌∙◌, ap,
  >>=-eq-ok,
}
use dashboard_quip_network.Errors.{StoreError, json, read_only, invalid}
use dashboard_quip_network.Decimal.{Text, parse_u64}
use dashboard_quip_network.Coverage
use dashboard_quip_network.Coverage.{Coverage, contains}
use dashboard_quip_network.Coverage.Points.{covers}
use dashboard_quip_network.Coverage.Valid.{check_persisted-IsValid}
use dashboard_quip_network.Store.{
  CommitResult, Indexable, coverage_key, finalized_target, Meta, Store, Json,
}
use dashboard_quip_network.Store.Meta.{
  set_meta, generation, decoded, height, require_bound, coverage,
}
use dashboard_quip_network.Store.Views.{covered_at, empty-covers}
use dashboard_quip_network.Store.Targets.{
  RetainedBlock, save_target, advance_target, set_finalized_target, committed_in,
}

-- The height of the target that a text encodes.
abbrev text_height : Json → Option Text → Option ℕ
text_height codec none = none
text_height codec (some raw) = elim (codec.target_of raw) [ none ↦ none | some t ↦ parse_u64 t.0 ]

-- The height of the stored target.
abbrev pub target_height : Json → Meta → Option ℕ
target_height codec meta = text_height codec (meta finalized_target)

-- The greater of the height that was there, if any, and the one offered.
abbrev pub raised_to : Option ℕ → ℕ → ℕ
raised_to none n = n
raised_to (some old) n = max old n

module _ (codec : Json) where
  target_height-none :
      (meta : Meta) → meta finalized_target ≡ none → target_height codec meta ≡ none
  target_height-none meta e = ap (text_height codec) e

  target_height-some :
      (meta : Meta) (raw : Text) (t : Text × Text)
      → meta finalized_target ≡ some raw
      → codec.target_of raw ≡ some t
      → target_height codec meta ≡ parse_u64 t.0
  target_height-some meta raw t e f = ap (text_height codec) e ∙ rw (text_height, f)

module _ (codec : Json) {R : Type 0} where
  save_target-height :
      (t : RetainedBlock) (s : Store R) (n : ℕ)
      → height t.height ≡ ok n
      → target_height codec (save_target codec t s).db.meta ≡ some n
  unfolding set_meta height
  save_target-height t s n e = rw (codec.target_law (t.height.text, t.hash.text)) (ground arith)

  advance_target-height :
      (t : RetainedBlock) (s s' : Store R) (r : CommitResult) (n : ℕ) (o : Option Text)
      → height t.height ≡ ok n
      → s.db.meta finalized_target ≡ o
      → advance_target codec t o s ≡ ok (r, s')
      → target_height codec s'.db.meta ≡ some (raised_to (target_height codec s.db.meta) n)
  unfolding advance_target
  advance_target-height t s s' r n none h m e =
      let was : target_height codec s.db.meta ≡ none = target_height-none codec s.db.meta m in
      let same : s' ≡ save_target codec t s = ground arith in
      rw (was, same) (save_target-height t s n h)
  advance_target-height t s s' r n (some raw) h m e =
      let ((old_height, old_hash), p0, e0) =
        >>=-eq-ok (ok_or (codec.target_of raw) (json "target")) _ e in
      let (old, p1, e1) =
        >>=-eq-ok (ok_or (parse_u64 old_height) (invalid "invalid target height")) _ e0 in
      let read : codec.target_of raw ≡ some (old_height, old_hash) = ground arith in
      let parsed : parse_u64 old_height ≡ some old = ground arith in
      let was : target_height codec s.db.meta ≡ some old =
        target_height-some codec s.db.meta raw (old_height, old_hash) m read ∙ parsed in
      let (k, p2, e2) = >>=-eq-ok (height t.height) _ e1 in
      let saved = save_target-height t s n h in
      let number : k ≡ n = ground arith in
      elim (Bool-cases (ltb k old)) [
        | inl d ↦ let same : s' ≡ s = ground arith in rw (same, was) (ground arith)
        | inr d ↦ elim (Bool-cases (old == k)) [
          | inl f ↦ let same : s' ≡ s = ground arith in rw (same, was) (ground arith)
          | inr f ↦
              let same : s' ≡ save_target codec t s = ground arith in
              rw (same, saved, was) (ground arith)
        ]
      ]

  -- When `set_finalized_target` succeeds on a target whose height is a u64, the stored height is
  -- the greater of the one that was there, if any, and the one offered.
  pub set_finalized_target-max :
      (t : RetainedBlock) (s s' : Store R) (r : CommitResult) (n : ℕ)
      → height t.height ≡ ok n
      → set_finalized_target codec t s ≡ ok (r, s')
      → target_height codec s'.db.meta ≡ some (raised_to (target_height codec s.db.meta) n)
  unfolding set_finalized_target
  set_finalized_target-max t s s' r n h e =
      let (w, p0, e0) = >>=-eq-ok (refuse_if (not s.writer) read_only) _ e in
      let (bound, p1, e1) = >>=-eq-ok (require_bound s.db.meta) _ e0 in
      advance_target-height t s s' r n (s.db.meta finalized_target) h refl e1

module _ (codec : Json) (meta : Meta) (n : ℕ) where
  step_covers :
      (i : Indexable) (o : Option Text) (rest : Result StoreError Bool) (later : Bool)
      (c : Coverage)
      → rest ≡ ok later
      → decoded codec (generation meta i) 0 o ≡ ok c
      → (elim o as (λ x. Result StoreError Bool) [
        | none ↦ rest
        | some raw ↦ ok_or (codec.coverage_of raw) (json "coverage") >>= λ cov.
            if cov.gen == generation meta i && contains cov n n then ok true else rest
      ])
        ≡ ok (covers c n || later)
  unfolding decoded
  step_covers i none rest later c e d =
      let same : c ≡ Coverage.empty (generation meta i) 0 = cc in
      rw (same, empty-covers (generation meta i) 0 n) e
  step_covers i (some raw) rest later c e d =
      let (cov, p, q) = >>=-eq-ok (ok_or (codec.coverage_of raw) (json "coverage")) _ d in
      let found : codec.coverage_of raw ≡ some cov = ground arith in
      let (same, v) =
        check_persisted-IsValid (generation meta i) cov c (codec.coverage_fits raw cov found) q in
      rw (found, same) (ground (arith, v.generation))

  -- Where each domain's stored coverage can be read, the loop of `committed_target` succeeds and
  -- answers whether some of the domains covers the height.
  pub committed_in-covered_at :
      (is : List Indexable)
      → All (λ i. (c : Coverage) × (coverage codec meta i 0 ≡ ok c)) is
      → committed_in codec n meta is ≡ ok (any (λ i. covered_at codec meta i n) is)
  unfolding committed_in covered_at coverage
  committed_in-covered_at [] h = refl
  committed_in-covered_at (i ∷ is) h =
      rw (h.0.1)
        (step_covers i (meta (coverage_key i)) _ _ h.0.0 (committed_in-covered_at is h.1) h.0.1)
