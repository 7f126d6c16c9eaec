-- ===== src/Store/Generations/Reindex.antt =====
-- `Store::reindex` of coverage.rs: the generations and the coverage after it.
use dashboard_quip_network.Prelude.{
  ℕ, ◌+◌, ◌≤◌, ◌<◌, ◌≡◌, refl, Bool, true, false, ◌||◌, not, List, [], ◌∷◌, if◌then◌else◌, arith,
  ok, refuse_if, ok_or, Bool-cases, inl, inr, ◌∙◌, ap, >>=-eq-ok, sym, subst,
}
use dashboard_quip_network.Prelude.Words.{u64_max, checked_add}
use dashboard_quip_network.Errors.{read_only, invalid}
use dashboard_quip_network.Coverage
use dashboard_quip_network.Coverage.{Coverage}
use dashboard_quip_network.Store.{
  Indexable, rank, same_domain, GenerationGuard, Meta, Db, Store, Json,
}
use dashboard_quip_network.Store.Meta.{generation, coverage, require_bound}
use dashboard_quip_network.Store.Views.{covered_at, same_domain-eq}
use dashboard_quip_network.Store.Blocks.{Tables}
use dashboard_quip_network.Store.Generations.{
  sort_domains, dedup_domains, reset_domain, reindex_domain, reindex_loop, reindex,
}
use dashboard_quip_network.Store.Generations.Reset.{
  raised, kept_start, raised-generation_key, raised-coverage_key, reset-generation_key,
  reset-coverage_key, reset-generation, reset-coverage, reset-covered_at, coverage-at,
}
use dashboard_quip_network.Store.Generations.Requests.{
  named, Ascending, named-cons, sort_domains-Rising, dedup_domains-Ascending, dedup_domains-named,
  sort_domains-named, Ascending-named,
}

abbrev pub guard_after : Meta → Indexable → GenerationGuard
guard_after meta i = record { indexable = i; expected = 1 + generation meta i }

abbrev pub guards_after : Meta → List Indexable → List GenerationGuard
guards_after meta [] = []
guards_after meta (i ∷ is) = guard_after meta i ∷ guards_after meta is

-- What a read of the coverage of a domain answers then: of a named one, the empty coverage of the next
-- generation, and of another what it was.
abbrev pub IsEmptied : Json → Meta → Meta → Indexable → Bool → Type 0
IsEmptied codec meta meta' j true =
    (old : Coverage) × (coverage codec meta j 0 ≡ ok old)
    × (coverage codec meta' j 0 ≡ ok (Coverage.empty (1 + generation meta j) (kept_start j old)))
IsEmptied codec meta meta' j false =
    (start : ℕ) → coverage codec meta' j start ≡ coverage codec meta j start

-- The generations of the named domains rise by one and they cover nothing; the others keep both.
unfoldable pub IsReindexed : Json → List Indexable → Meta → Meta → Type 0
IsReindexed codec is meta meta' =
    (j : Indexable)
    → generation meta' j ≡ (if named is j then 1 + generation meta j else generation meta j)
      × ((m : ℕ)
          → covered_at codec meta' j m ≡ (if named is j then false else covered_at codec meta j m))
      × IsEmptied codec meta meta' j (named is j)

IsEmptied-cons :
    (codec : Json) (meta0 meta1 meta2 : Meta) (j : Indexable) (first rest : Bool)
    → generation meta1 j ≡ (if first then 1 + generation meta0 j else generation meta0 j)
    → (first ≡ true → rest ≡ false)
    → IsEmptied codec meta0 meta1 j first
    → IsEmptied codec meta1 meta2 j rest
    → IsEmptied codec meta0 meta2 j (first || rest)
IsEmptied-cons codec meta0 meta1 meta2 j true true g d a b = cc (d refl)
IsEmptied-cons codec meta0 meta1 meta2 j true false g d (old, was, now) b = (old, was, b 0 ∙ now)
IsEmptied-cons codec meta0 meta1 meta2 j false true g d a (old, was, now) =
    (old, sym (a 0) ∙ was, now ∙ ap (λ n. ok (Coverage.empty (1 + n) (kept_start j old))) g)
IsEmptied-cons codec meta0 meta1 meta2 j false false g d a b = λ start. b start ∙ a start

module _ (codec : Json) (tables : Tables) where
  open tables use {Rows}

  reset-IsEmptied :
      (i j : Indexable) (next : ℕ) (old : Coverage) (meta : Meta)
      → coverage codec meta i 0 ≡ ok old
      → next ≡ 1 + generation meta i
      → next ≤ u64_max
      → IsEmptied codec meta
          (reset_domain codec i next old (raised codec i next meta))
          j
          (named (i ∷ []) j)
  reset-IsEmptied i j next old meta was e h = elim (Bool-cases (same_domain i j)) [
    | inl d ↦
        rw (d, ← same_domain-eq i j d)
          (
            old,
            was,
            reset-coverage codec i next old meta h (omega (arith, e))
                ∙ ap (λ n. ok (Coverage.empty n (kept_start i old))) e,
          )
    | inr d ↦ rw d (λ start.
        coverage-at codec meta (reset_domain codec i next old (raised codec i next meta)) j start
          (reset-generation_key codec i j next old (raised codec i next meta)
            ∙ raised-generation_key codec i j next meta
            ∙ rw d)
          (reset-coverage_key codec i j next old (raised codec i next meta) d
            ∙ raised-coverage_key codec i j next meta
            ∙ rw d))
  ]

  raised-IsReindexed :
      (i : Indexable) (next : ℕ) (old : Coverage) (meta : Meta)
      → coverage codec meta i 0 ≡ ok old
      → next ≡ 1 + generation meta i
      → next ≤ u64_max
      → IsReindexed codec (i ∷ []) meta (reset_domain codec i next old (raised codec i next meta))
  unfolding IsReindexed
  raised-IsReindexed i next old meta was e h = λ j.
      let positive_next : 0 < next = omega (arith, e) in
      let same : same_domain i j ≡ true → generation meta i ≡ generation meta j =
        λ d. ap (generation meta) (same_domain-eq i j d) in
      (
        ground (arith, reset-generation codec i j next old meta h positive_next, same),
        λ m. ground (arith, reset-covered_at codec i j next m old meta h positive_next),
        reset-IsEmptied i j next old meta was e h,
      )

  reindex_domain-lem :
      (i : Indexable) (db db' : Db Rows) (g : GenerationGuard)
      → reindex_domain codec tables i db ≡ ok (g, db')
      → g ≡ guard_after db.meta i × IsReindexed codec (i ∷ []) db.meta db'.meta
  unfolding reindex_domain IsReindexed
  reindex_domain-lem i db db' g e =
      let (next, p, e1) =
        >>=-eq-ok (ok_or (checked_add (generation db.meta i) 1) (invalid "generation exhausted")) _
          e in
      let (old, q, e2) = >>=-eq-ok (coverage codec db.meta i 0) _ e1 in
      let bound : next ≡ 1 + generation db.meta i × next ≤ u64_max = ground arith in
      let same : db'.meta ≡ reset_domain codec i next old (raised codec i next db.meta) = cc in
      let guard : g ≡ record { indexable = i; expected = next } = cc in
      (rw guard (ground arith), rw same (raised-IsReindexed i next old db.meta q bound.0 bound.1))

  guards_after-eq :
      (n : ℕ) (i : Indexable) (is : List Indexable) (meta meta' : Meta)
      → Ascending n is
      → rank i < n
      → IsReindexed codec (i ∷ []) meta meta'
      → guards_after meta' is ≡ guards_after meta is
  unfolding IsReindexed
  guards_after-eq n i [] meta meta' a h r = refl
  guards_after-eq n i (k ∷ ks) meta meta' a h r =
      let same : generation meta' k ≡ generation meta k = ground (arith, (r k).0, a.0) in
      rw (same, guards_after-eq (1 + rank k) i ks meta meta' a.1 (omega (arith, a.0)) r)

  IsReindexed-cons :
      (i : Indexable) (is : List Indexable) (meta0 meta1 meta2 : Meta)
      → Ascending (1 + rank i) is
      → IsReindexed codec (i ∷ []) meta0 meta1
      → IsReindexed codec is meta1 meta2
      → IsReindexed codec (i ∷ is) meta0 meta2
  unfolding IsReindexed
  IsReindexed-cons i is meta0 meta1 meta2 a r1 r2 = λ j.
      let emptied : (named (i ∷ []) j ≡ true → named is j ≡ false)
          → IsEmptied codec meta0 meta2 j (named (i ∷ is) j) =
        λ d. subst (IsEmptied codec meta0 meta2 j) (named-cons i j is) (
          IsEmptied-cons codec meta0 meta1 meta2 j (named (i ∷ []) j) (named is j) (r1 j).0 d
            (r1 j).2 (r2 j).2) in
      elim (Bool-cases (same_domain i j)) [
        | inl e ↦
            let fresh : named is j ≡ false =
              rw (← same_domain-eq i j e) (Ascending-named (1 + rank i) i is a (omega arith)) in
            (
              ground (arith, (r1 j).0, (r2 j).0),
              λ m. ground (arith, (r1 j).1 m, (r2 j).1 m),
              emptied (λ _. fresh),
            )
        | inr e ↦ (
          ground (arith, (r1 j).0, (r2 j).0),
          λ m. ground (arith, (r1 j).1 m, (r2 j).1 m),
          emptied (λ d. absurd (ground (arith, e))),
        )
      ]

  reindex_loop-lem :
      (n : ℕ) (is : List Indexable) (db db' : Db Rows) (gs : List GenerationGuard)
      → Ascending n is
      → reindex_loop codec tables is db ≡ ok (gs, db')
      → gs ≡ guards_after db.meta is × IsReindexed codec is db.meta db'.meta
  unfolding reindex_loop
  reindex_loop-lem n [] db db' gs a e =
      let same : db' ≡ db = cc in
      (cc, unfold IsReindexed in λ j. (rw same, λ m. rw same, λ start. rw same))
  reindex_loop-lem n (i ∷ is) db db' gs a e =
      let ((g, db1), p, e1) = >>=-eq-ok (reindex_domain codec tables i db) _ e in
      let ((gs', db2), q, e2) = >>=-eq-ok (reindex_loop codec tables is db1) _ e1 in
      let same : db' ≡ db2 = cc in
      let guards : gs ≡ g ∷ gs' = cc in
      let (first, r1) = reindex_domain-lem i db db1 g p in
      let (rest, r2) = reindex_loop-lem (1 + rank i) is db1 db2 gs' a.1 q in
      (
        rw (
          guards,
          first,
          rest,
          guards_after-eq (1 + rank i) i is db.meta db1.meta a.1 (omega arith) r1,
        ),
        rw same (IsReindexed-cons i is db.meta db1.meta db2.meta a.1 r1 r2),
      )

  -- When `reindex` returns, each domain of the request, however often named, is at the next
  -- generation and a read of its coverage answers the empty coverage of that generation, which
  -- for authorship keeps the start that was stored and for the others starts at zero; every other
  -- domain keeps its generation and its coverage, and the guards returned are the new generations
  -- of those named, in the order of the domains.
  pub reindex-IsReindexed :
      (is : List Indexable) (s s' : Store Rows) (gs : List GenerationGuard)
      → reindex codec tables is s ≡ ok (gs, s')
      → IsReindexed codec is s.db.meta s'.db.meta
        × gs ≡ guards_after s.db.meta (dedup_domains (sort_domains is))
        × Ascending 0 (dedup_domains (sort_domains is))
  unfolding reindex
  reindex-IsReindexed is s s' gs e =
      let (w, p0, e0) = >>=-eq-ok (refuse_if (not s.writer) read_only) _ e in
      let (bound, p1, e1) = >>=-eq-ok (require_bound s.db.meta) _ e0 in
      let ((gs', db), p2, e2) =
        >>=-eq-ok (reindex_loop codec tables (dedup_domains (sort_domains is)) s.db) _ e1 in
      let same : s'.db ≡ db = cc in
      let guards : gs ≡ gs' = cc in
      let asc = dedup_domains-Ascending 0 (sort_domains is) (sort_domains-Rising is) in
      let (all, r) = reindex_loop-lem 0 (dedup_domains (sort_domains is)) s.db db gs' asc p2 in
      (
        unfold IsReindexed in
            λ j.
              let mem = dedup_domains-named j (sort_domains is) ∙ sort_domains-named j is in
              (
                rw (same, ← mem) (r j).0,
                λ m. rw (same, ← mem) ((r j).1 m),
                rw (same, ← mem) (r j).2,
              ),
        guards ∙ all,
        asc,
      )
