-- ===== src/Store/Network.antt =====
-- coverage.rs: `retained_history` and `bind_network_with`, which binds a store to a genesis after the
-- callback has confirmed the hash of every retained block.
pub mod Binding
pub mod Pages
use dashboard_quip_network.Prelude.{
  ℕ, zero, suc, ◌+◌, Bool, true, false, not, ◌&&◌, ◌||◌, Option, none, some, List, [], ◌∷◌, ◌++◌,
  map, min, any, ltb, ◌==◌, length, take, drop, if◌then◌else◌, Result, ok, err, ◌>>=◌, ◌>>◌,
  refuse_if,
}
use dashboard_quip_network.Prelude.Texts.{same_text}
use dashboard_quip_network.Errors.{StoreError, read_only, network_identity}
use dashboard_quip_network.Decimal
use dashboard_quip_network.Decimal.{Text}
use dashboard_quip_network.Hash
use dashboard_quip_network.Hash.{BlockHash}
use dashboard_quip_network.Store.{genesis, FinalizedRow, Db, Store}
use dashboard_quip_network.Store.Meta.{set_meta}
use dashboard_quip_network.Store.Targets.{RetainedBlock, invalid_if}

-- The tables that have to be empty where there is no retained block.
pub data Table : Type 0 where
  blocks difficulty_history validator_authorship validator_authorship_blocks : Table
  node_descriptors qblock_participation chain_miners : Table

unfoldable pub tables : List Table
tables =
    blocks ∷ difficulty_history ∷ validator_authorship ∷ validator_authorship_blocks
    ∷ node_descriptors ∷ qblock_participation ∷ chain_miners ∷ []

-- What the record tables hold: heights as text with hashes in `blocks` and in `chain_head`, and whether
-- a table has a row.
pub record Records (R : Type 0) : Type 0 where
  pub block_rows : R → List (Text × Text)
  pub head_rows : R → List (Text × Text)
  pub has_row : Table → R → Bool

abbrev pub finalized_rows : List FinalizedRow → List (Text × Text)
finalized_rows rows = map (λ (r : FinalizedRow). (r.height, r.hash)) rows

-- Texts in the order of their code points.
unfoldable pub before_text : Text → Text → Bool
before_text [] [] = false
before_text [] (b ∷ t) = true
before_text (a ∷ s) [] = false
before_text (a ∷ s) (b ∷ t) = ltb a b || (a == b && before_text s t)

abbrev same_row : Text × Text → Text × Text → Bool
same_row (h, x) (k, y) = same_text h k && same_text x y

-- ORDER BY length(height), height, hash
unfoldable pub before_row : Text × Text → Text × Text → Bool
before_row (h, x) (k, y) =
    ltb (length h) (length k)
    || (length h == length k && (before_text h k || (same_text h k && before_text x y)))

unfoldable pub insert_row : Text × Text → List (Text × Text) → List (Text × Text)
insert_row r [] = r ∷ []
insert_row r (q ∷ qs) =
    let rest = insert_row r qs in
    if same_row r q then q ∷ qs else if before_row r q then r ∷ q ∷ qs else q ∷ rest

-- UNION keeps equal rows once.
unfoldable pub union_rows : List (Text × Text) → List (Text × Text)
union_rows [] = []
union_rows (r ∷ rs) = insert_row r (union_rows rs)

unfoldable pub read_row : Text × Text → Result StoreError RetainedBlock
read_row (h, x) = do
  number ← invalid_if "invalid retained height" (Decimal.from_str h)
  hash ← invalid_if "invalid retained hash" (Hash.from_str x)
  ok (record { height = number; hash = hash })

unfoldable pub read_rows : List (Text × Text) → Result StoreError (List RetainedBlock)
read_rows [] = ok []
read_rows (r ∷ rs) = do block ← read_row r; rest ← read_rows rs; ok (block ∷ rest)

-- The loop over the rows of a page.
unfoldable pub verify_all :
    (RetainedBlock → Result StoreError BlockHash)
    → List RetainedBlock
    → Result StoreError (Unit {0})
verify_all verify [] = ok tt
verify_all verify (row ∷ rows) = do
  hash ← verify row
  refuse_if (not (Hash.eq hash row.hash)) network_identity
  verify_all verify rows

abbrev pub page_size : ℕ
page_size = 512

abbrev pub after_verified :
    Result StoreError (Unit {0}) → Option (Result StoreError Bool) → Option (Result StoreError Bool)
after_verified (err e) later = some (err e)
after_verified (ok u) later = later

-- An empty page ends the loop; `later` goes on behind a page of so many rows.
unfoldable pub after_page :
    Result StoreError (List RetainedBlock)
    → (RetainedBlock → Result StoreError BlockHash)
    → Bool
    → (ℕ → Option (Result StoreError Bool))
    → Option (Result StoreError Bool)
after_page (err e) verify seen later = some (err e)
after_page (ok []) verify seen later = some (ok seen)
after_page (ok (row ∷ rest)) verify seen later =
    after_verified (verify_all verify (row ∷ rest)) (later (length (row ∷ rest)))

module _ {R : Type 0} (records : Records R) where
  open records use {block_rows, head_rows, has_row}

  -- The answer of the query without its limit and offset.
  unfoldable pub history : Db R → List (Text × Text)
  history db = union_rows (finalized_rows db.finalized ++ block_rows db.rows ++ head_rows db.rows)

  unfoldable pub retained_history : ℕ → ℕ → Db R → Result StoreError (List RetainedBlock)
  retained_history limit offset db = read_rows (take (min limit 1000) (drop offset (history db)))

  -- The loop over the pages, in so many rounds; the answer is `any`.
  unfoldable pub verify_pages :
      ℕ
      → (RetainedBlock → Result StoreError BlockHash)
      → Db R
      → ℕ
      → Bool
      → Option (Result StoreError Bool)
  verify_pages zero verify db offset seen = none
  verify_pages (suc rounds) verify db offset seen =
      after_page (retained_history page_size offset db) verify seen
        (λ n. verify_pages rounds verify db (offset + n) true)

  -- The check of the tables, and the transaction.
  unfoldable pub bind_verified :
      BlockHash → Store R → Option (Result StoreError Bool) → Option (Result StoreError (Store R))
  bind_verified g s none = none
  bind_verified g s (some (err e)) = some (err e)
  bind_verified g s (some (ok seen)) = some (
      refuse_if (not seen && any (λ t. has_row t s.db.rows) tables) network_identity
      >> ok (record s { db = record (s.db) { meta = set_meta genesis (some g.text) s.db.meta } }))

  -- What follows for the genesis that is bound, if any.
  unfoldable pub bind_step :
      BlockHash
      → (RetainedBlock → Result StoreError BlockHash)
      → Store R
      → Option Text
      → Option (Result StoreError (Store R))
  bind_step g verify s (some bound) =
      some (refuse_if (not (same_text bound g.text)) network_identity >> ok s)
  bind_step g verify s none =
      bind_verified g s (verify_pages (suc (length (history s.db))) verify s.db 0 false)

  unfoldable pub bind_network_with :
      BlockHash
      → (RetainedBlock → Result StoreError BlockHash)
      → Store R
      → Option (Result StoreError (Store R))
  bind_network_with g verify s =
      if not s.writer then some (err read_only) else bind_step g verify s (s.db.meta genesis)
