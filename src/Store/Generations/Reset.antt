-- ===== src/Store/Generations/Reset.antt =====
-- What `reindex` does to the stored generation and coverage of one domain.
use dashboard_quip_network.Prelude.{
  ℕ, ◌≤◌, ◌<◌, ◌≡◌, refl, false, Option, none, some, ltb, ◌==◌, if◌then◌else◌, arith, ok,
  Bool-cases, inl, inr, ◌∙◌,
}
use dashboard_quip_network.Prelude.Words.{u64_max}
use dashboard_quip_network.Decimal.{Text, print_u64}
use dashboard_quip_network.Decimal.Print.{parse_u64-print_u64}
use dashboard_quip_network.Coverage
use dashboard_quip_network.Coverage.{Coverage}
use dashboard_quip_network.Coverage.Valid.{IsValid, empty-IsValid}
use dashboard_quip_network.Store.{
  Indexable, winners, difficulty, participation, authorship, same_domain, MetaKey, generation_key,
  coverage_key, authorship_cutover, key_code, Meta, Json,
}
use dashboard_quip_network.Store.Meta.{
  set_meta, generation, decoded, parsed, positive, coverage, save_coverage,
}
use dashboard_quip_network.Store.Views.{
  covered_at, covered_at-save, coverage-save, same_domain-eq, empty-covers,
}
use dashboard_quip_network.Store.Generations.{reset_domain}

set_meta-at :
    (k j : MetaKey) (v : Option Text) (meta : Meta)
    → set_meta k v meta j ≡ (if key_code k == key_code j then v else meta j)
unfolding set_meta
set_meta-at k j v meta = refl

pub generation-at :
    (meta meta' : Meta) (j : Indexable)
    → meta' (generation_key j) ≡ meta (generation_key j)
    → generation meta' j ≡ generation meta j
unfolding generation
generation-at meta meta' j e = rw e

-- What a new generation starts from: authorship keeps its start.
abbrev pub kept_start : Indexable → Coverage → ℕ
kept_start i old = if same_domain i authorship then old.start else 0

module _ (codec : Json) where
  pub covered_at-at :
      (meta meta' : Meta) (j : Indexable) (m : ℕ)
      → meta' (generation_key j) ≡ meta (generation_key j)
      → meta' (coverage_key j) ≡ meta (coverage_key j)
      → covered_at codec meta' j m ≡ covered_at codec meta j m
  unfolding covered_at coverage
  covered_at-at meta meta' j m e f = rw (generation-at meta meta' j e, f)

  pub coverage-at :
      (meta meta' : Meta) (j : Indexable) (start : ℕ)
      → meta' (generation_key j) ≡ meta (generation_key j)
      → meta' (coverage_key j) ≡ meta (coverage_key j)
      → coverage codec meta' j start ≡ coverage codec meta j start
  unfolding coverage
  coverage-at meta meta' j start e f = rw (generation-at meta meta' j e, f)

  coverage-none :
      (meta : Meta) (j : Indexable) (gen : ℕ)
      → generation meta j ≡ gen
      → meta (coverage_key j) ≡ none
      → coverage codec meta j 0 ≡ ok (Coverage.empty gen 0)
  unfolding coverage decoded
  coverage-none meta j gen g e = rw (g, e)

  covered_at-none :
      (meta : Meta) (j : Indexable) (m : ℕ)
      → meta (coverage_key j) ≡ none
      → covered_at codec meta j m ≡ false
  unfolding covered_at coverage decoded
  covered_at-none meta j m e = rw e (empty-covers (generation meta j) 0 m)

  -- `meta` when the generation is raised and the coverage dropped.
  abbrev pub raised : Indexable → ℕ → Meta → Meta
  raised i next meta =
      set_meta (coverage_key i) none (set_meta (generation_key i) (some (print_u64 next)) meta)

  pub raised-generation_key :
      (i j : Indexable) (next : ℕ) (meta : Meta)
      → raised i next meta (generation_key j)
        ≡ (if same_domain i j then some (print_u64 next) else meta (generation_key j))
  unfolding set_meta
  raised-generation_key i j next meta = ground arith

  pub raised-coverage_key :
      (i j : Indexable) (next : ℕ) (meta : Meta)
      → raised i next meta (coverage_key j)
        ≡ (if same_domain i j then none else meta (coverage_key j))
  unfolding set_meta
  raised-coverage_key i j next meta = ground arith

  generation-raised :
      (i : Indexable) (next : ℕ) (meta : Meta)
      → next ≤ u64_max
      → 0 < next
      → generation (raised i next meta) i ≡ next
  unfolding generation parsed positive
  generation-raised i next meta m p =
      rw (raised-generation_key i i next meta) (ground (arith, parse_u64-print_u64 next m))

  pub reset-generation_key :
      (i j : Indexable) (next : ℕ) (old : Coverage) (meta : Meta)
      → reset_domain codec i next old meta (generation_key j) ≡ meta (generation_key j)
  unfolding reset_domain save_coverage set_meta
  reset-generation_key i j next old meta = ground arith

  pub reset-coverage_key :
      (i j : Indexable) (next : ℕ) (old : Coverage) (meta : Meta)
      → same_domain i j ≡ false
      → reset_domain codec i next old meta (coverage_key j) ≡ meta (coverage_key j)
  unfolding reset_domain save_coverage set_meta
  reset-coverage_key i j next old meta e = ground arith

  pub reset-generation :
      (i j : Indexable) (next : ℕ) (old : Coverage) (meta : Meta)
      → next ≤ u64_max
      → 0 < next
      → generation (reset_domain codec i next old (raised i next meta)) j
        ≡ (if same_domain i j then next else generation meta j)
  reset-generation i j next old meta m p =
      generation-at (raised i next meta) (reset_domain codec i next old (raised i next meta)) j
        (reset-generation_key i j next old (raised i next meta))
      ∙ elim (Bool-cases (same_domain i j)) [
        | inl e ↦ rw (e, ← same_domain-eq i j e) (generation-raised i next meta m p)
        | inr e ↦
            rw e (
              generation-at meta (raised i next meta) j
                (raised-generation_key i j next meta ∙ rw e))
      ]

  cleared-covered_at :
      (i : Indexable) (next m : ℕ) (meta : Meta) → covered_at codec (raised i next meta) i m ≡ false
  cleared-covered_at i next m meta =
      covered_at-none (raised i next meta) i m (raised-coverage_key i i next meta ∙ ground arith)

  reset-authorship :
      (next m : ℕ) (old : Coverage) (meta : Meta)
      → next ≤ u64_max
      → 0 < next
      → covered_at codec
          (reset_domain codec authorship next old (raised authorship next meta))
          authorship
          m
        ≡ false
  unfolding reset_domain
  reset-authorship next m old meta p q =
      let cleared = set_meta authorship_cutover none (raised authorship next meta) in
      let g : generation cleared authorship ≡ next =
        generation-at (raised authorship next meta) cleared authorship (unfold set_meta in refl)
        ∙ generation-raised authorship next meta p q in
      let none_left : covered_at codec cleared authorship m ≡ false =
        covered_at-none cleared authorship m (unfold set_meta in refl) in
      let v : IsValid (generation cleared authorship) (Coverage.empty next old.start) =
        rw g (empty-IsValid next old.start) in
      let saved =
        covered_at-save codec cleared authorship authorship m (Coverage.empty next old.start) v in
      elim (Bool-cases (ltb 0 old.start)) [
        | inl e ↦ rw e (saved ∙ empty-covers next old.start m)
        | inr e ↦ rw e none_left
      ]

  raised-coverage :
      (i : Indexable) (next : ℕ) (meta : Meta)
      → next ≤ u64_max
      → 0 < next
      → coverage codec (raised i next meta) i 0 ≡ ok (Coverage.empty next 0)
  raised-coverage i next meta p q =
      coverage-none (raised i next meta) i next (generation-raised i next meta p q)
        (raised-coverage_key i i next meta ∙ ground arith)

  authorship-coverage :
      (next : ℕ) (old : Coverage) (meta : Meta)
      → next ≤ u64_max
      → 0 < next
      → coverage codec
          (reset_domain codec authorship next old (raised authorship next meta))
          authorship
          0
        ≡ ok (Coverage.empty next old.start)
  unfolding reset_domain
  authorship-coverage next old meta p q =
      let cleared = set_meta authorship_cutover none (raised authorship next meta) in
      let g : generation cleared authorship ≡ next =
        generation-at (raised authorship next meta) cleared authorship (unfold set_meta in refl)
        ∙ generation-raised authorship next meta p q in
      let v : IsValid (generation cleared authorship) (Coverage.empty next old.start) =
        rw g (empty-IsValid next old.start) in
      elim (Bool-cases (ltb 0 old.start)) [
        | inl e ↦
            rw e (
              coverage-save codec cleared authorship authorship 0 (Coverage.empty next old.start) v)
        | inr e ↦
            let zero_start : old.start ≡ 0 = ground (arith, e) in
            rw (e, zero_start) (coverage-none cleared authorship next g (unfold set_meta in refl))
      ]

  pub reset-coverage :
      (i : Indexable) (next : ℕ) (old : Coverage) (meta : Meta)
      → next ≤ u64_max
      → 0 < next
      → coverage codec (reset_domain codec i next old (raised i next meta)) i 0
        ≡ ok (Coverage.empty next (kept_start i old))
  unfolding reset_domain
  reset-coverage winners next old meta p q = raised-coverage winners next meta p q
  reset-coverage difficulty next old meta p q = raised-coverage difficulty next meta p q
  reset-coverage participation next old meta p q = raised-coverage participation next meta p q
  reset-coverage authorship next old meta p q = authorship-coverage next old meta p q

  reset_self :
      (i : Indexable) (next m : ℕ) (old : Coverage) (meta : Meta)
      → next ≤ u64_max
      → 0 < next
      → covered_at codec (reset_domain codec i next old (raised i next meta)) i m ≡ false
  unfolding reset_domain
  reset_self winners next m old meta p q = cleared-covered_at winners next m meta
  reset_self difficulty next m old meta p q = cleared-covered_at difficulty next m meta
  reset_self participation next m old meta p q = cleared-covered_at participation next m meta
  reset_self authorship next m old meta p q = reset-authorship next m old meta p q

  pub reset-covered_at :
      (i j : Indexable) (next m : ℕ) (old : Coverage) (meta : Meta)
      → next ≤ u64_max
      → 0 < next
      → covered_at codec (reset_domain codec i next old (raised i next meta)) j m
        ≡ (if same_domain i j then false else covered_at codec meta j m)
  reset-covered_at i j next m old meta p q = elim (Bool-cases (same_domain i j)) [
    | inl e ↦ rw (e, ← same_domain-eq i j e) (reset_self i next m old meta p q)
    | inr e ↦ rw e (
        covered_at-at meta (reset_domain codec i next old (raised i next meta)) j m
          (reset-generation_key i j next old (raised i next meta)
            ∙ raised-generation_key i j next meta
            ∙ rw e)
          (reset-coverage_key i j next old (raised i next meta) e
            ∙ raised-coverage_key i j next meta
            ∙ rw e))
  ]
