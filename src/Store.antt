-- ===== src/Store.antt =====
-- crates/dashboard-store: the state of the store and its shared types (types.rs), and the
-- transactions of coverage.rs in the child modules. A SQL table is a list of rows, the table `meta`
-- a function of its keys, and a column of text is text. A transaction is a function from the store
-- to the store after COMMIT; a transaction that returns early or fails is rolled back before the
-- next one begins, so an error carries no new state. Faults of the database engine are left out.
pub mod Meta
pub mod Views
pub mod Blocks
pub mod Generations
pub mod Scans
pub mod Submissions
pub mod Targets
pub mod Network
pub mod Unavailable
use dashboard_quip_network.Prelude.{
  ℕ, ◌+◌, Bool, true, false, Option, none, some, List, [], ◌∷◌, Result, ok, err, ◌==◌, ◌≡◌,
}
use dashboard_quip_network.Errors.{StoreError}
use dashboard_quip_network.Decimal.{Text, DecimalString}
use dashboard_quip_network.Hash.{BlockHash}
use dashboard_quip_network.Coverage.{Coverage}
use dashboard_quip_network.Coverage.Valid.{FitsU64}

pub data CommitResult : Type 0 where
  applied already_applied stale_generation : CommitResult

pub data Indexable : Type 0 where
  winners difficulty participation authorship : Indexable

-- The derived `Ord`: the position of the variant.
abbrev pub rank : Indexable → ℕ
rank winners = 0
rank difficulty = 1
rank participation = 2
rank authorship = 3

abbrev pub same_domain : Indexable → Indexable → Bool
same_domain i j = rank i == rank j

pub record GenerationGuard : Type 0 where
  pub indexable : Indexable
  pub expected : ℕ

-- The keys of the table `meta`, each a text of its own: `indexer.generation.<domain>`,
-- `indexer.coverage.<domain>`, `dashboard.genesis`, `dashboard.finalized.target` and
-- `indexer.authorship.cutover`.
pub data MetaKey : Type 0 where
  generation_key coverage_key : Indexable → MetaKey
  genesis finalized_target authorship_cutover : MetaKey

abbrev pub key_code : MetaKey → ℕ
key_code genesis = 0
key_code finalized_target = 1
key_code authorship_cutover = 2
key_code (generation_key i) = 3 + rank i
key_code (coverage_key i) = 7 + rank i

abbrev pub Meta : Type 0
Meta = MetaKey → Option Text

-- dashboard_finalized
pub record FinalizedRow : Type 0 where
  pub height : Text
  pub hash : Text

-- dashboard_scans
pub record ScanRow : Type 0 where
  pub id : Text
  pub genesis : Text
  pub at_hash : Text
  pub finalized_height : Text
  pub domain : Indexable
  pub generation : Text
  pub cursor : Option Text
  pub finished : Bool

-- dashboard_scan_winners
pub record ScanWinnerRow : Type 0 where
  pub scan_id : Text
  pub height : Text

pub data UnavailableReason : Type 0 where
  missing_retained_nonce missing_retained_difficulty : UnavailableReason

-- dashboard_unavailable
pub record UnavailableRow : Type 0 where
  pub domain : Indexable
  pub generation : Text
  pub height : Text
  pub block_hash : Text
  pub enrichment_hash : Text
  pub reason : UnavailableReason
  pub observed_at : Text
  pub next_height : Option Text

-- The tables of this component; `R` holds the record tables of blocks.rs and miners.rs.
pub record Db (R : Type 0) : Type 0 where
  pub meta : Meta
  pub finalized : List FinalizedRow
  pub scans : List ScanRow
  pub scan_winners : List ScanWinnerRow
  pub unavailable : List UnavailableRow
  pub rows : R

-- A store with the writer lease, or an API-only one without.
pub record Store (R : Type 0) : Type 0 where
  pub writer : Bool
  pub db : Db R

-- What serde_json does with the values kept in `meta` and in scan cursors: encoding, decoding, and
-- that an encoded value is decoded again.
-- Decoded heights are of type u64, which is stated of the high bound, the largest of them.
pub record Json : Type 0 where
  pub coverage_text : Coverage → Text
  pub coverage_of : Text → Option Coverage
  pub coverage_law : (c : Coverage) → FitsU64 c.high → coverage_of (coverage_text c) ≡ some c
  pub coverage_fits : (t : Text) (c : Coverage) → coverage_of t ≡ some c → FitsU64 c.high
  pub target_text : Text × Text → Text
  pub target_of : Text → Option (Text × Text)
  pub target_law : (t : Text × Text) → target_of (target_text t) ≡ some t
  pub cursor_text : List ℕ → Text
  pub cursor_of : Text → Option (List ℕ)
  pub cursor_law : (c : List ℕ) → cursor_of (cursor_text c) ≡ some c
