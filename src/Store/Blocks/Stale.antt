-- ===== src/Store/Blocks/Stale.antt =====
-- Which commits of a block the generation guards let through.
use dashboard_quip_network.Prelude.{
  ◌≡◌, ◌≢◌, ◌⊎◌, ◌↔◌, refl, Bool, true, false, not, List, [], ◌∷◌, any, ◌==◌, arith, ok,
  refuse_if-false, Bool-cases, inl, inr, All, All-split, is_some, subst, ◌++◌,
}
use dashboard_quip_network.Errors.{read_only}
use dashboard_quip_network.Decimal.{Text}
use dashboard_quip_network.Store.{
  CommitResult, stale_generation, Indexable, winners, difficulty, participation, authorship,
  same_domain, GenerationGuard, Meta, Store, Json,
}
use dashboard_quip_network.Store.Meta.{generation}
use dashboard_quip_network.Store.Views.{same_domain-eq}
use dashboard_quip_network.Store.Blocks.{
  Tables, BlockCommit, duplicate_guard, stale_guard, unguarded, guarded, affected, is_empty, one_if,
  commit_block,
}
use dashboard_quip_network.Store.Blocks.Commit.{commit_block-cases}

-- Some guard expects another generation of its domain than the stored one.
abbrev pub AnyStale : Meta → List GenerationGuard → Type 0
AnyStale meta [] = ⊥
AnyStale meta (g ∷ gs) = (generation meta g.indexable ≢ g.expected) ⊎ AnyStale meta gs

-- Some guard is of the domain and expects the stored generation.
abbrev pub IsGuarded : Meta → List GenerationGuard → Indexable → Type 0
IsGuarded meta [] i = ⊥
IsGuarded meta (g ∷ gs) i =
    ((g.indexable ≡ i) × (generation meta i ≡ g.expected)) ⊎ IsGuarded meta gs i

guarded-IsGuarded :
    (meta : Meta) (gs : List GenerationGuard) (i : Indexable)
    → guarded gs i ≡ true
    → stale_guard meta gs ≡ false
    → IsGuarded meta gs i
unfolding guarded stale_guard
guarded-IsGuarded meta [] i e f = cc e
guarded-IsGuarded meta (g ∷ gs) i e f = elim (Bool-cases (same_domain g.indexable i)) [
  | inl same ↦
      let domain : g.indexable ≡ i = same_domain-eq g.indexable i same in
      inl (domain, subst (λ k. generation meta k ≡ g.expected) domain (ground arith))
  | inr other ↦ inr (guarded-IsGuarded meta gs i (ground (arith, other)) (ground arith))
]

All-guarded :
    (meta : Meta) (gs : List GenerationGuard) (is : List Indexable)
    → any (λ i. not (guarded gs i)) is ≡ false
    → stale_guard meta gs ≡ false
    → All (IsGuarded meta gs) is
All-guarded meta gs [] e f = tt
All-guarded meta gs (i ∷ is) e f =
    (guarded-IsGuarded meta gs i (ground arith) f, All-guarded meta gs is (ground arith) f)

stale_guard-AnyStale :
    (meta : Meta) (gs : List GenerationGuard) → stale_guard meta gs ≡ true → AnyStale meta gs
unfolding stale_guard
stale_guard-AnyStale meta [] e = cc e
stale_guard-AnyStale meta (g ∷ gs) e =
    elim (Bool-cases (generation meta g.indexable == g.expected)) [
      | inl same ↦ inr (stale_guard-AnyStale meta gs (ground (arith, same)))
      | inr other ↦ inl (λ same. ground (arith, other))
    ]

stale_guard-fresh :
    (meta : Meta) (gs : List GenerationGuard) → stale_guard meta gs ≡ false → AnyStale meta gs → ⊥
unfolding stale_guard
stale_guard-fresh meta [] e h = h
stale_guard-fresh meta (g ∷ gs) e (inl other) = other (ground arith)
stale_guard-fresh meta (g ∷ gs) e (inr later) = stale_guard-fresh meta gs (ground arith) later

module _ (tables : Tables) where
  -- A domain of a record or of a completion of the batch.
  abbrev pub IsTouched : BlockCommit tables → (Indexable → Type 0) → Type 0
  IsTouched b P =
      All P b.completed
      × (is_some b.records.winner ≡ true → P winners)
      × (is_some b.records.difficulty ≡ true → P difficulty)
      × (is_some b.records.authorship ≡ true → P authorship)
      × (b.records.participation ≢ [] → P participation)

  one_if-holds :
      (P : Indexable → Type 0) (test : Bool) (i : Indexable)
      → All P (one_if tables test i)
      → test ≡ true
      → P i
  one_if-holds P true i h e = h.0
  one_if-holds P false i h e = cc e

  is_empty-false : {A : Type 0} (xs : List A) → xs ≢ [] → not (is_empty tables xs) ≡ true
  is_empty-false [] h = absurd (h refl)
  is_empty-false (x ∷ xs) h = refl

  unguarded-IsTouched :
      (b : BlockCommit tables) (meta : Meta)
      → unguarded tables b ≡ false
      → stale_guard meta b.guards ≡ false
      → IsTouched b (IsGuarded meta b.guards)
  unfolding unguarded affected
  unguarded-IsTouched b meta u f =
      let P = IsGuarded meta b.guards in
      let won = is_some b.records.winner in
      let harder = is_some b.records.difficulty in
      let authored = is_some b.records.authorship in
      let joined = not (is_empty tables b.records.participation) in
      let every = All-guarded meta b.guards (affected tables b) (ground arith) f in
      let one_winner = b.completed ++ one_if tables won winners in
      let one_difficulty = one_winner ++ one_if tables harder difficulty in
      let one_author = one_difficulty ++ one_if tables authored authorship in
      let (rest3, fourth) = All-split P one_author (one_if tables joined participation) every in
      let (rest2, third) = All-split P one_difficulty (one_if tables authored authorship) rest3 in
      let (rest1, second) = All-split P one_winner (one_if tables harder difficulty) rest2 in
      let (completed, first) = All-split P b.completed (one_if tables won winners) rest1 in
      (
        completed,
        one_if-holds P won winners first,
        one_if-holds P harder difficulty second,
        one_if-holds P authored authorship third,
        λ some_joined.
            one_if-holds P joined participation fourth
              (is_empty-false b.records.participation some_joined),
      )

module _ (tables : Tables) (codec : Json) (now : Text) where
  commit_block-unguarded :
      (b : BlockCommit tables) (s s' : Store tables.Rows) (r : CommitResult)
      → commit_block tables codec now b s ≡ ok (r, s')
      → unguarded tables b ≡ false
  unfolding commit_block
  commit_block-unguarded b s s' r e =
      let (w, e1) = refuse_if-false (not s.writer) read_only _ e in
      let (d, e2) = refuse_if-false (duplicate_guard b.guards) _ _ e1 in
      (refuse_if-false (unguarded tables b) _ _ e2).0

  -- A commit that succeeds answers a stale generation exactly if some guard of the batch expects
  -- another generation than the stored one, and then it changes nothing; any other success means
  -- that each domain of a record or a completion of the batch has a guard that expects its stored
  -- generation.
  pub commit_block-stale :
      (b : BlockCommit tables) (s s' : Store tables.Rows) (r : CommitResult)
      → commit_block tables codec now b s ≡ ok (r, s')
      → ((r ≡ stale_generation) ↔ AnyStale s.db.meta b.guards)
        × (AnyStale s.db.meta b.guards → s' ≡ s)
        × (r ≢ stale_generation → IsTouched tables b (IsGuarded s.db.meta b.guards))
  commit_block-stale b s s' r e =
      let (n, h, cases) = commit_block-cases tables codec now b s s' r e in
      elim cases [
        | inl (f, x, y) ↦
            ((λ _. stale_guard-AnyStale s.db.meta b.guards f, λ _. x), λ _. y, λ z. absurd (z x))
        | inr (f, a) ↦
            let fresh = stale_guard-fresh s.db.meta b.guards f in
            (
              (λ x. absurd (a.result x), λ x. absurd (fresh x)),
              λ x. absurd (fresh x),
              λ _. unguarded-IsTouched tables b s.db.meta (commit_block-unguarded b s s' r e) f,
            )
      ]
