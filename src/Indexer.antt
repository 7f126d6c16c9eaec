-- ===== src/Indexer.antt =====
-- crates/quip-dashboard/src/indexer/mod.rs: what the workers of the indexer share.
pub mod Guards
pub mod History
pub mod Replay
use Prim.Native.String.{String}
use dashboard_quip_network.Prelude.{
  ℕ, Bool, true, false, Option, none, some, List, [], ◌∷◌, max, Result, ok, err,
}
use dashboard_quip_network.Errors.{
  StoreError, invalid, capacity, network_identity, writer_owned, read_only, incomplete_scan,
  database, verification_unavailable, migration_history, conflicting_history, json, io,
}
use dashboard_quip_network.Decimal.{Text}
use dashboard_quip_network.Store.{
  CommitResult, applied, already_applied, stale_generation, Indexable, winners, difficulty,
  participation, authorship,
}

-- `ChainError` of chain/mod.rs; its hashes are texts.
pub data ChainError : Type 0 where
  unavailable pruned unsupported oversized malformed : String → ChainError
  genesis_mismatch : Text → Text → ChainError
  busy disconnected : ChainError
  not_found : Text → ChainError

pub data IndexerError : Type 0 where
  chain : ChainError → IndexerError
  store : StoreError → IndexerError
  invalid_data : String → IndexerError
  stale : IndexerError

abbrev pub domains : List Indexable
domains = winners ∷ difficulty ∷ participation ∷ authorship ∷ []

abbrev pub sparse : List Indexable
sparse = winners ∷ difficulty ∷ participation ∷ []

unfoldable pub check : CommitResult → Result IndexerError (Unit {0})
check applied = ok tt
check already_applied = ok tt
check stale_generation = err stale

unfoldable pub fatal_store : StoreError → Bool
fatal_store capacity = false
fatal_store network_identity = true
fatal_store writer_owned = false
fatal_store read_only = false
fatal_store incomplete_scan = false
fatal_store (database s) = false
fatal_store (invalid s) = true
fatal_store (verification_unavailable s) = false
fatal_store (migration_history s) = false
fatal_store (conflicting_history h) = true
fatal_store (json s) = false
fatal_store (io s) = false

unfoldable pub fatal : IndexerError → Bool
fatal (chain (genesis_mismatch expected actual)) = true
fatal (chain (unavailable s)) = false
fatal (chain (pruned s)) = false
fatal (chain (unsupported s)) = false
fatal (chain (oversized s)) = false
fatal (chain (malformed s)) = false
fatal (chain busy) = false
fatal (chain disconnected) = false
fatal (chain (not_found h)) = false
fatal (store e) = fatal_store e
fatal (invalid_data s) = true
fatal stale = false

-- `Progress`
pub record Progress : Type 0 where
  pub best_height : Option ℕ
  pub finalized_height : Option ℕ
  pub committed_height : Option ℕ
  pub admitted : ℕ
  pub last_error : Option String
  pub connected : Bool

-- `map_or(height, |h| h.max(height))`
abbrev pub raised : Option ℕ → ℕ → Option ℕ
raised none height = some height
raised (some h) height = some (max h height)

-- The update of the progress in `observe`.
unfoldable pub observe_progress : ℕ → Progress → Progress
observe_progress height p = record p { finalized_height = raised p.finalized_height height }

-- `error` and `committed`; `active` is what the admission counts.
unfoldable pub error : String → ℕ → Progress → Progress
error text active p = record p { last_error = some text; admitted = active }

unfoldable pub committed : ℕ → ℕ → Progress → Progress
committed height active p = record p {
  committed_height = raised p.committed_height height;
  admitted = active;
  last_error = none;
}
