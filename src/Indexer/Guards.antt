-- ===== src/Indexer/Guards.antt =====
-- crates/quip-dashboard/src/indexer/live.rs: `guards`, the domains that a block is still to be indexed
-- for, over the tables of the store. All its reads see one state of the store.
pub mod Needed
use Prim.Native.String.{String}
use dashboard_quip_network.Prelude.{
  ℕ, Bool, true, false, ◌&&◌, ◌||◌, not, Option, none, some, List, [], ◌∷◌, ltb, leb, ◌==◌,
  if◌then◌else◌, Result, ok, err, ◌>>=◌, is_some_and, ok_or,
}
use dashboard_quip_network.Errors.{StoreError, json}
use dashboard_quip_network.Coverage.{Coverage, contains}
use dashboard_quip_network.Decimal.{Text}
use dashboard_quip_network.Store.{
  Indexable, authorship, GenerationGuard, Meta, Db, Json, same_domain, coverage_key,
}
use dashboard_quip_network.Store.Meta.{generation}
use dashboard_quip_network.Store.Unavailable.{is_unavailable}
use dashboard_quip_network.Indexer.{domains}

-- The block is below the start, pruned, or covered at this generation.
unfoldable pub is_past : ℕ → ℕ → Coverage → Bool
is_past expected height c =
    c.gen == expected
    && (ltb height c.start
        || is_some_and c.pruned_floor (λ floor. leb height floor)
        || contains c height height)

module _ (codec : Json) where
  open codec use {coverage_of}

  -- `Store::coverage`, which decodes and does not check.
  unfoldable pub decoded_row : Option Text → Result StoreError (Option Coverage)
  decoded_row none = ok none
  decoded_row (some raw) = ok_or (coverage_of raw) (json "coverage") >>= (λ c. ok (some c))

  unfoldable pub stored_coverage : Meta → Indexable → Result StoreError (Option Coverage)
  stored_coverage meta i = decoded_row (meta (coverage_key i))

  module _ {R : Type 0} where
    -- One round of the loop: whether the domain gets a guard.
    unfoldable pub guard_needed : Db R → ℕ → Bool → Indexable → Result StoreError Bool
    guard_needed db height with_authorship i =
        if same_domain i authorship && not with_authorship then ok false else (do
          cov ← stored_coverage db.meta i
          ok (
              not (is_some_and cov (is_past (generation db.meta i) height))
              && not (is_unavailable i (generation db.meta i) height db.unavailable)))

    unfoldable pub guards_of :
        Db R → ℕ → Bool → List Indexable → Result StoreError (List GenerationGuard)
    guards_of db height with_authorship [] = ok []
    guards_of db height with_authorship (i ∷ is) = do
      needed ← guard_needed db height with_authorship i
      rest ← guards_of db height with_authorship is
      ok (if needed then record { indexable = i; expected = generation db.meta i } ∷ rest else rest)

    unfoldable pub guards : Db R → ℕ → Bool → Result StoreError (List GenerationGuard)
    guards db height with_authorship = guards_of db height with_authorship domains
