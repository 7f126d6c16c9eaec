-- ===== src/Store/Blocks/Completion.antt =====
-- The completion loop of `commit_block`: which heights are covered afterwards.
use dashboard_quip_network.Prelude.{
  ℕ, ◌≤◌, ◌<◌, ◌≡◌, refl, Bool, true, false, ◌&&◌, ◌||◌, List, [], ◌∷◌, any, ◌==◌, if◌then◌else◌,
  arith, ok, ◌∙◌, ap, >>=-eq-ok,
}
use dashboard_quip_network.Prelude.Words.{u64_max}
use dashboard_quip_network.Decimal.{Text}
use dashboard_quip_network.Coverage.{Coverage, cover}
use dashboard_quip_network.Store.{Indexable, authorship, same_domain, MetaKey, key_code, Meta, Json}
use dashboard_quip_network.Store.Meta.{coverage}
use dashboard_quip_network.Store.Views.{save-other, covered_at, after_cover, covered_at-cover}
use dashboard_quip_network.Store.Blocks.{complete}

module _ (codec : Json) (now : Text) (n : ℕ) (small : n ≤ u64_max) where
  complete_parts :
      (i : Indexable) (is : List Indexable) (meta meta' : Meta) (result : Bool)
      → complete codec now n (i ∷ is) meta ≡ ok (meta', result)
      → (c : Coverage) × (changed : Bool) × (c' : Coverage) × (later : Bool) × (coverage codec meta
            i
            (if same_domain i authorship then n else 0)
          ≡ ok c)
        × (cover now c n n ≡ ok (changed, c'))
        × (complete codec now n is (after_cover codec i changed c' meta) ≡ ok (meta', later))
        × (result ≡ (changed || later))
  unfolding complete
  complete_parts i is meta meta' result e =
      let (c, p, e1) =
        >>=-eq-ok (coverage codec meta i (if same_domain i authorship then n else 0)) _ e in
      let (r, q, e2) = >>=-eq-ok (cover now c n n) _ e1 in
      let (t, x, e3) =
        >>=-eq-ok (complete codec now n is (after_cover codec i r.0 r.1 meta)) _ e2 in
      let same : t.0 ≡ meta' = ground arith in
      (c, r.0, r.1, t.1, p, q, x ∙ ap (λ (y : Meta). ok (y, t.1)) same, ground arith)

  complete_none :
      (meta meta' : Meta) (result : Bool)
      → complete codec now n [] meta ≡ ok (meta', result)
      → (meta' ≡ meta) × (result ≡ false)
  unfolding complete
  complete_none meta meta' result e = (ground arith, ground arith)

  -- After the loop a height is covered in a domain exactly if it was, or it is the height of the
  -- batch and the domain is completed.
  pub complete-covered_at :
      (is : List Indexable) (meta meta' : Meta) (result : Bool) (j : Indexable) (m : ℕ)
      → complete codec now n is meta ≡ ok (meta', result)
      → covered_at codec meta' j m
        ≡ (covered_at codec meta j m || (any (λ i. same_domain i j) is && m == n))
  complete-covered_at [] meta meta' result j m e =
      rw (complete_none meta meta' result e).0 (ground arith)
  complete-covered_at (i ∷ is) meta meta' result j m e =
      let (c, changed, c', later, p, q, x, _) = complete_parts i is meta meta' result e in
      complete-covered_at is (after_cover codec i changed c' meta) meta' later j m x
      ∙ ground (
        arith,
        covered_at-cover codec now n n small meta i j (if same_domain i authorship then n else 0) m
            c c' changed p q,
      )

  after-other :
      (i : Indexable) (changed : Bool) (c : Coverage) (meta : Meta) (k : MetaKey)
      → key_code k < 7
      → after_cover codec i changed c meta k ≡ meta k
  after-other i true c meta k h = save-other codec i c meta k h
  after-other i false c meta k h = refl

  -- The loop writes no key but those of coverages.
  pub complete-other :
      (is : List Indexable) (meta meta' : Meta) (result : Bool) (k : MetaKey)
      → key_code k < 7
      → complete codec now n is meta ≡ ok (meta', result)
      → meta' k ≡ meta k
  complete-other [] meta meta' result k h e =
      ap (λ (x : Meta). x k) (complete_none meta meta' result e).0
  complete-other (i ∷ is) meta meta' result k h e =
      let (c, changed, c', later, p, q, x, _) = complete_parts i is meta meta' result e in
      complete-other is (after_cover codec i changed c' meta) meta' later k h x
      ∙ after-other i changed c' meta k h
