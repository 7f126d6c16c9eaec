-- ===== src/Store/Views.antt =====
-- What the table `meta` says of a domain: its generation and the heights that it covers.
use dashboard_quip_network.Prelude.{
  ℕ, ◌≤◌, ◌<◌, ◌≡◌, refl, Bool, true, false, ◌&&◌, ◌||◌, Option, none, some, ◌==◌, if◌then◌else◌,
  arith, Result, ok, err, ok_or, Bool-cases, inl, inr, ◌∙◌, ap, >>=-eq-ok, sym,
}
use dashboard_quip_network.Prelude.Words.{u64_max}
use dashboard_quip_network.Decimal.{Text}
use dashboard_quip_network.Errors.{StoreError, json}
use dashboard_quip_network.Coverage
use dashboard_quip_network.Coverage.{Coverage, contains, cover, check_persisted}
use dashboard_quip_network.Coverage.Valid.{
  IsValid, empty-IsValid, cover-IsValid, check_persisted-ok_iff, check_persisted-IsValid,
  IsValid-FitsU64,
}
use dashboard_quip_network.Coverage.Points.{covers, cover-points, cover-false, within}
use dashboard_quip_network.Store.{
  Indexable, same_domain, MetaKey, generation_key, coverage_key, key_code, Meta, Json,
}
use dashboard_quip_network.Store.Meta.{set_meta, generation, decoded, coverage, save_coverage}

key_ne : (i j : Indexable) → (key_code (coverage_key i) == key_code (generation_key j)) ≡ false
key_ne i j = ground arith

key_same :
    (i j : Indexable) → (key_code (coverage_key i) == key_code (coverage_key j)) ≡ same_domain i j
key_same i j = ground arith

pub same_domain-eq : (i j : Indexable) → same_domain i j ≡ true → i ≡ j
same_domain-eq i j e = ground arith

-- Below the seventh key nothing is a coverage.
pub save-other :
    (codec : Json) (i : Indexable) (c : Coverage) (meta : Meta) (k : MetaKey)
    → key_code k < 7
    → save_coverage codec i c meta k ≡ meta k
unfolding save_coverage set_meta
save-other codec i c meta k h = ground arith

module _ (codec : Json) where
  open codec use {coverage_text, coverage_of, coverage_law, coverage_fits}

  decoded-IsValid :
      (gen start : ℕ) (o : Option Text) (c : Coverage)
      → decoded codec gen start o ≡ ok c
      → IsValid gen c
  unfolding decoded
  decoded-IsValid gen start none c e =
      let same : c ≡ Coverage.empty gen start = cc in rw same (empty-IsValid gen start)
  decoded-IsValid gen start (some raw) c e =
      let (d, p, q) = >>=-eq-ok (ok_or (coverage_of raw) (json "coverage")) _ e in
      let found : coverage_of raw ≡ some d = ground arith in
      let (same, v) = check_persisted-IsValid gen d c (coverage_fits raw d found) q in rw same v

  decoded-text :
      (gen start : ℕ) (c : Coverage)
      → IsValid gen c
      → decoded codec gen start (some (coverage_text c)) ≡ ok c
  unfolding decoded
  decoded-text gen start c v =
      rw (coverage_law c (IsValid-FitsU64 gen c v))
        ((check_persisted-ok_iff gen c (IsValid-FitsU64 gen c v)).1 v)

  module _ (meta : Meta) where
    pub generation-save :
        (i j : Indexable) (c : Coverage)
        → generation (save_coverage codec i c meta) j ≡ generation meta j
    unfolding generation save_coverage set_meta
    generation-save i j c = rw (key_ne i j)

    pub coverage-IsValid :
        (i : Indexable) (start : ℕ) (c : Coverage)
        → coverage codec meta i start ≡ ok c
        → IsValid (generation meta i) c
    unfolding coverage
    coverage-IsValid i start c e =
        decoded-IsValid (generation meta i) start (meta (coverage_key i)) c e

    pub coverage-save :
        (i j : Indexable) (start : ℕ) (c : Coverage)
        → IsValid (generation meta i) c
        → coverage codec (save_coverage codec i c meta) j start
          ≡ (if same_domain i j then ok c else coverage codec meta j start)
    unfolding coverage
    coverage-save i j start c v = rw (generation-save i j c) (
        unfold save_coverage set_meta in
        elim (Bool-cases (same_domain i j)) [
          | inl e ↦
              rw (key_same i j, e, ← same_domain-eq i j e)
                (decoded-text (generation meta i) start c v)
          | inr e ↦ rw (key_same i j, e)
        ])

-- The height is covered by what a read of the coverage returned.
abbrev pub result_covers : Result StoreError Coverage → ℕ → Bool
result_covers (ok c) m = covers c m
result_covers (err e) m = false

-- The store says of the domain that the height is indexed in its current generation.
unfoldable pub covered_at : Json → Meta → Indexable → ℕ → Bool
covered_at codec meta i m = result_covers (coverage codec meta i 0) m

pub empty-covers : (gen start m : ℕ) → covers (Coverage.empty gen start) m ≡ false
unfolding contains Coverage.empty
empty-covers gen start m = ground arith

module _ (codec : Json) (meta : Meta) where
  decoded-start :
      (gen a b m : ℕ) (o : Option Text)
      → result_covers (decoded codec gen a o) m ≡ result_covers (decoded codec gen b o) m
  unfolding decoded
  decoded-start gen a b m none = empty-covers gen a m ∙ sym (empty-covers gen b m)
  decoded-start gen a b m (some raw) = refl

  pub covered_at-coverage :
      (i : Indexable) (start m : ℕ) (c : Coverage)
      → coverage codec meta i start ≡ ok c
      → covered_at codec meta i m ≡ covers c m
  unfolding covered_at coverage
  covered_at-coverage i start m c e =
      decoded-start (generation meta i) 0 start m (meta (coverage_key i))
      ∙ ap (λ r. result_covers r m) e

  pub covered_at-save :
      (i j : Indexable) (m : ℕ) (c : Coverage)
      → IsValid (generation meta i) c
      → covered_at codec (save_coverage codec i c meta) j m
        ≡ (if same_domain i j then covers c m else covered_at codec meta j m)
  unfolding covered_at
  covered_at-save i j m c v =
      rw (coverage-save codec meta i j 0 c v)
        (elim (Bool-cases (same_domain i j)) [ inl e ↦ rw e | inr e ↦ rw e ])

-- `meta` after one call of `cover`.
abbrev pub after_cover : Json → Indexable → Bool → Coverage → Meta → Meta
after_cover codec i changed c meta = if changed then save_coverage codec i c meta else meta

module _ (codec : Json) (now : Text) (a b : ℕ) (small : b ≤ u64_max) where
  -- Saving what `cover` returned covers the interval in its domain, and nothing else.
  pub covered_at-cover :
      (meta : Meta) (i j : Indexable) (start m : ℕ) (c c' : Coverage) (changed : Bool)
      → coverage codec meta i start ≡ ok c
      → cover now c a b ≡ ok (changed, c')
      → covered_at codec (after_cover codec i changed c' meta) j m
        ≡ (covered_at codec meta j m || (same_domain i j && within a b m))
  covered_at-cover meta i j start m c c' true p q =
      let v = coverage-IsValid codec meta i start c p in
      let v' = cover-IsValid now (generation meta i) a b c c' true small v q in
      elim (Bool-cases (same_domain i j)) [
        | inl e ↦
            rw (covered_at-save codec meta i j m c' v', e, ← same_domain-eq i j e)
              (ground (
                arith,
                covered_at-coverage codec meta i start m c p,
                cover-points now (generation meta i) a b m c c' true small v q,
              ))
        | inr e ↦ rw (covered_at-save codec meta i j m c' v', e) (ground arith)
      ]
  covered_at-cover meta i j start m c c' false p q =
      let v = coverage-IsValid codec meta i start c p in
      let point = cover-points now (generation meta i) a b m c c' false small v q in
      let same = ap (λ (d : Coverage). covers d m) (cover-false now c c' a b q) in
      elim (Bool-cases (same_domain i j)) [
        | inl e ↦
            rw (e, ← same_domain-eq i j e)
              (ground (arith, covered_at-coverage codec meta i start m c p, point, same))
        | inr e ↦ rw e (ground arith)
      ]
