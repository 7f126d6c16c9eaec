-- ===== src/Store/Blocks/Commit.antt =====
-- What a commit of a block does to the coverage, to the finalized history and to the generations.
use dashboard_quip_network.Prelude.{
  ℕ, ◌<◌, ◌≡◌, ◌≢◌, ◌⊎◌, refl, Bool, true, false, ◌&&◌, ◌||◌, not, List, [], ◌∷◌, any, ◌==◌,
  if◌then◌else◌, arith, ok, refuse_if-false, Bool-cases, inl, inr, ◌∙◌, ap, >>=-eq-ok, all,
  any-append,
}
use dashboard_quip_network.Prelude.Texts.{same_text, same_text_refl}
use dashboard_quip_network.Errors.{read_only}
use dashboard_quip_network.Decimal.{Text}
use dashboard_quip_network.Store.{
  CommitResult, stale_generation, Indexable, same_domain, Meta, MetaKey, key_code, FinalizedRow, Db,
  Store, Json,
}
use dashboard_quip_network.Store.Meta.{height, height-le, network}
use dashboard_quip_network.Store.Views.{covered_at}
use dashboard_quip_network.Store.Blocks.{
  Tables, BlockCommit, duplicate_guard, stale_guard, unguarded, insert_finalized, finalized_at,
  existing_hashes, check_provenance, write_records, complete, recompute_after, apply_block,
  commit_block,
}
use dashboard_quip_network.Store.Blocks.Completion.{complete-covered_at, complete-other}

module _ (tables : Tables) (codec : Json) (now : Text) where
  -- What a commit that gets past its guards has done.
  pub record IsApplied (b : BlockCommit tables) (n : ℕ) (s s' : Store tables.Rows)
      (r : CommitResult) : Type 0 where
    pub changed : Bool
    pub completed : complete codec now n b.completed s.db.meta ≡ ok (s'.db.meta, changed)
    pub agrees : any (λ x. not (same_text x b.hash.text)) (existing_hashes tables b s.db) ≡ false
    pub provenance : check_provenance tables b ≡ ok tt
    pub recorded : s'.db.finalized ≡ insert_finalized b.height.text b.hash.text s.db.finalized
    pub result : r ≢ stale_generation
    pub scans_kept : s'.db.scans ≡ s.db.scans
    pub unavailable_kept : s'.db.unavailable ≡ s.db.unavailable

  apply_block-IsApplied :
      (b : BlockCommit tables) (n : ℕ) (s s' : Store tables.Rows) (r : CommitResult)
      → apply_block tables codec now b n s ≡ ok (r, s')
      → IsApplied b n s s' r
  unfolding apply_block
  apply_block-IsApplied b n s s' r e =
      let (a, e1) =
        refuse_if-false (any (λ x. not (same_text x b.hash.text)) (existing_hashes tables b s.db)) _
          _ e in
      let (_, p, e2) = >>=-eq-ok (check_provenance tables b) _ e1 in
      let (written, w, e3) = >>=-eq-ok (write_records tables b.records s.db.rows) _ e2 in
      let (done, c, e4) = >>=-eq-ok (complete codec now n b.completed s.db.meta) _ e3 in
      let (rows, q, e5) = >>=-eq-ok (recompute_after tables b done.0 written.0) _ e4 in
      let same : done.0 ≡ s'.db.meta = ground arith in
      record {
        changed = done.1;
        completed = c ∙ ap (λ (m : Meta). ok (m, done.1)) same;
        agrees = a;
        provenance = p;
        recorded = ground arith;
        result = ground arith;
        scans_kept = ground arith;
        unavailable_kept = ground arith;
      }

  pub commit_block-cases :
      (b : BlockCommit tables) (s s' : Store tables.Rows) (r : CommitResult)
      → commit_block tables codec now b s ≡ ok (r, s')
      → (n : ℕ) × (height b.height ≡ ok n)
        × (((stale_guard s.db.meta b.guards ≡ true) × (r ≡ stale_generation) × (s' ≡ s))
            ⊎ ((stale_guard s.db.meta b.guards ≡ false) × IsApplied b n s s' r))
  unfolding commit_block
  commit_block-cases b s s' r e =
      let (w, e1) = refuse_if-false (not s.writer) read_only _ e in
      let (d, e2) = refuse_if-false (duplicate_guard b.guards) _ _ e1 in
      let (u, e3) = refuse_if-false (unguarded tables b) _ _ e2 in
      let (n, h, e4) = >>=-eq-ok (height b.height) _ e3 in
      let (_, g, e5) = >>=-eq-ok (network s.db.meta b.genesis) _ e4 in
      (
        n,
        h,
        elim (Bool-cases (stale_guard s.db.meta b.guards)) [
          | inl f ↦ inl (f, ground (arith, f), ground (arith, f))
          | inr f ↦ inr (f, apply_block-IsApplied b n s s' r (ground (arith, f)))
        ],
      )

  -- A successful commit of a block either finds a stale generation and changes nothing, or covers
  -- exactly the height of the batch in exactly the completed domains, besides what was covered.
  pub commit_block-coverage :
      (b : BlockCommit tables) (s s' : Store tables.Rows) (r : CommitResult)
      → commit_block tables codec now b s ≡ ok (r, s')
      → ((r ≡ stale_generation) × (s' ≡ s))
        ⊎ ((n : ℕ) × (height b.height ≡ ok n)
            × (r ≢ stale_generation)
            × ((j : Indexable) (m : ℕ)
                → covered_at codec s'.db.meta j m ≡ (
                    covered_at codec s.db.meta j m
                    || (any (λ i. same_domain i j) b.completed && m == n))))
  commit_block-coverage b s s' r e =
      let (n, h, cases) = commit_block-cases b s s' r e in
      elim cases [
        | inl (_, x, y) ↦ inl (x, y)
        | inr (_, a) ↦ inr (
          n,
          h,
          a.result,
          λ j m.
              complete-covered_at codec now n (height-le b.height n h) b.completed s.db.meta
                s'.db.meta a.changed j m a.completed,
        )
      ]

  -- A successful commit changes no generation, nor the bound genesis, the finalized target or the
  -- authorship cutover.
  pub commit_block-other :
      (b : BlockCommit tables) (s s' : Store tables.Rows) (r : CommitResult) (k : MetaKey)
      → key_code k < 7
      → commit_block tables codec now b s ≡ ok (r, s')
      → s'.db.meta k ≡ s.db.meta k
  commit_block-other b s s' r k l e =
      let (n, h, cases) = commit_block-cases b s s' r e in
      elim cases [
        | inl (_, x, y) ↦ ap (λ (t : Store tables.Rows). t.db.meta k) y
        | inr (_, a) ↦
            complete-other codec now n (height-le b.height n h) b.completed s.db.meta s'.db.meta
              a.changed k l a.completed
      ]

-- The first row for a height stays, and another height is not touched.
finalized_at-insert :
    (h k x : Text) (rows : List FinalizedRow)
    → finalized_at h (insert_finalized k x rows) ≡ (
        if same_text k h && not (any (λ r. same_text r.height k) rows)
        then x ∷ finalized_at h rows
        else finalized_at h rows)
unfolding finalized_at insert_finalized
finalized_at-insert h k x rows = ground arith

-- The height has no row exactly if no hash is found for it.
none_at :
    (h : Text) (rows : List FinalizedRow)
    → any (λ r. same_text r.height h) rows ≡ false
    → finalized_at h rows ≡ []
unfolding finalized_at
none_at h [] e = refl
none_at h (r ∷ rows) e = ground (arith, none_at h rows)

some_at :
    (h : Text) (rows : List FinalizedRow)
    → any (λ r. same_text r.height h) rows ≡ true
    → finalized_at h rows ≢ []
unfolding finalized_at
some_at h [] e = cc e
some_at h (r ∷ rows) e = ground (arith, some_at h rows)

all_of_any-not {ℓ} :
    {A : Type ℓ} (p : A → Bool) (xs : List A) → any (λ x. not (p x)) xs ≡ false → all p xs ≡ true
all_of_any-not p [] e = refl
all_of_any-not p (x ∷ xs) e = ground (arith, all_of_any-not p xs)

agrees_with :
    (tables : Tables) (b : BlockCommit tables) (db : Db tables.Rows)
    → any (λ x. not (same_text x b.hash.text)) (existing_hashes tables b db) ≡ false
    → all (λ x. same_text x b.hash.text) (finalized_at b.height.text db.finalized) ≡ true
unfolding existing_hashes
agrees_with tables b db e =
    all_of_any-not (λ x. same_text x b.hash.text) (finalized_at b.height.text db.finalized)
      (ground (
        arith,
        any-append (λ x. not (same_text x b.hash.text)) (finalized_at b.height.text db.finalized)
            (tables.hashes_at b.height.text db.rows),
      ))

insert_recorded :
    (k x : Text) (rows : List FinalizedRow)
    → all (λ y. same_text y x) (finalized_at k rows) ≡ true
    → (finalized_at k (insert_finalized k x rows) ≢ [])
      × (all (λ y. same_text y x) (finalized_at k (insert_finalized k x rows)) ≡ true)
      × ((h : Text)
          → same_text k h ≡ false
          → finalized_at h (insert_finalized k x rows) ≡ finalized_at h rows)
insert_recorded k x rows a = elim (Bool-cases (any (λ r. same_text r.height k) rows)) [
  | inl f ↦
      rw (finalized_at-insert k k x rows, same_text_refl k, f)
        (some_at k rows f, a, λ h d. rw (finalized_at-insert h k x rows, d))
  | inr f ↦
      rw (finalized_at-insert k k x rows, same_text_refl k, f, none_at k rows f)
        (λ e. cc e, rw (same_text_refl x), λ h d. rw (finalized_at-insert h k x rows, d))
]

module _ (tables : Tables) (codec : Json) (now : Text) where
  -- After a commit that is not stale, the finalized history holds the hash of the batch at its
  -- height and no other, and the other heights as before.
  pub commit_block-finalized :
      (b : BlockCommit tables) (s s' : Store tables.Rows) (r : CommitResult)
      → commit_block tables codec now b s ≡ ok (r, s')
      → r ≢ stale_generation
      → (finalized_at b.height.text s'.db.finalized ≢ [])
        × (all (λ x. same_text x b.hash.text) (finalized_at b.height.text s'.db.finalized) ≡ true)
        × ((h : Text)
            → same_text b.height.text h ≡ false
            → finalized_at h s'.db.finalized ≡ finalized_at h s.db.finalized)
  commit_block-finalized b s s' r e z =
      let (n, h, cases) = commit_block-cases tables codec now b s s' r e in
      elim cases [
        | inl (_, x, y) ↦ absurd (z x)
        | inr (_, a) ↦ rw a.recorded (
            insert_recorded b.height.text b.hash.text s.db.finalized
              (agrees_with tables b s.db a.agrees))
      ]
