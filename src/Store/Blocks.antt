-- ===== src/Store/Blocks.antt =====
-- `Store::commit_block` of coverage.rs. The writers of blocks.rs and miners.rs that it calls, over
-- tables of their own, are the parameter `Tables`.
pub mod Completion
pub mod Commit
pub mod Stale
use dashboard_quip_network.Prelude.{
  ℕ, ◌<◌, Bool, true, false, not, ◌&&◌, ◌||◌, Option, none, some, List, [], ◌∷◌, ◌++◌, any, ltb,
  ◌==◌, if◌then◌else◌, Result, ok, err, ◌>>=◌, ◌>>◌, refuse_if, is_some, is_some_and, map,
}
use dashboard_quip_network.Prelude.Texts.{same_text}
use dashboard_quip_network.Errors.{StoreError, invalid, read_only, conflicting_history}
use dashboard_quip_network.Decimal.{Text, DecimalString}
use dashboard_quip_network.Hash
use dashboard_quip_network.Hash.{BlockHash}
use dashboard_quip_network.Coverage.{Coverage, cover}
use dashboard_quip_network.Store.{
  CommitResult, applied, already_applied, stale_generation, Indexable, winners, difficulty,
  participation, authorship, same_domain, GenerationGuard, Meta, authorship_cutover, FinalizedRow,
  Db, Store, Json,
}
use dashboard_quip_network.Store.Meta.{generation, height, network, coverage, save_coverage}

-- The fields of `BlockRecord` that this transaction reads; `data` is the rest.
pub record Winner (D : Type 0) : Type 0 where
  pub substrate_block_number : DecimalString
  pub substrate_block_hash : BlockHash
  pub finalized : Bool
  pub details : D

pub data DifficultySource : Type 0 where
  block poll : DifficultySource

pub record Difficulty (D : Type 0) : Type 0 where
  pub observed_at_block : DecimalString
  pub source : DifficultySource
  pub details : D

pub record AuthorshipRecord : Type 0 where
  pub account_id : Text
  pub block_number : DecimalString
  pub timestamp : ℕ
  pub had_winner : Bool

-- The record tables: a writer returns the tables and the number of rows it wrote.
pub record Tables : Type 1 where
  pub Rows : Type 0
  pub WinnerDetails : Type 0
  pub DifficultyDetails : Type 0
  pub Participant : Type 0
  pub write_winner : Winner WinnerDetails → Rows → Result StoreError (Rows × ℕ)
  pub write_difficulty : Difficulty DifficultyDetails → Rows → Result StoreError (Rows × ℕ)
  pub write_authorship : AuthorshipRecord → Rows → Result StoreError (Rows × ℕ)
  pub write_participant : Participant → Rows → Result StoreError (Rows × ℕ)
  pub recompute : Rows → Result StoreError Rows
  -- what `reindex` leaves of the tables when it drops the rows of a domain
  pub drop_domain : Indexable → Rows → Rows
  -- the hashes that the table `blocks` holds at a substrate height
  pub hashes_at : Text → Rows → List Text

-- The guards that `BTreeMap::insert` finds taken.
unfoldable pub guarded : List GenerationGuard → Indexable → Bool
guarded gs i = any (λ g. same_domain g.indexable i) gs

unfoldable pub duplicate_guard : List GenerationGuard → Bool
duplicate_guard [] = false
duplicate_guard (g ∷ gs) = guarded gs g.indexable || duplicate_guard gs

unfoldable pub stale_guard : Meta → List GenerationGuard → Bool
stale_guard meta gs = any (λ g. not (generation meta g.indexable == g.expected)) gs

unfoldable pub insert_finalized : Text → Text → List FinalizedRow → List FinalizedRow
insert_finalized h x rows =
    if any (λ r. same_text r.height h) rows then rows else record { height = h; hash = x } ∷ rows

-- The hashes that dashboard_finalized holds at a height.
unfoldable pub finalized_at : Text → List FinalizedRow → List Text
finalized_at h [] = []
finalized_at h (r ∷ rows) =
    let rest = finalized_at h rows in if same_text r.height h then r.hash ∷ rest else rest

module _ (codec : Json) (now : Text) (n : ℕ) where
  -- The loop over `batch.completed`: whether some coverage changed, and the new `meta`.
  unfoldable pub complete : List Indexable → Meta → Result StoreError (Meta × Bool)
  complete [] meta = ok (meta, false)
  complete (i ∷ is) meta = do
    cov ← coverage codec meta i (if same_domain i authorship then n else 0)
    (changed, cov') ← cover now cov n n
    (meta', later) ← complete is (if changed then save_coverage codec i cov' meta else meta)
    ok (meta', changed || later)

module _ (tables : Tables) where
  open tables use {
    Rows, WinnerDetails, DifficultyDetails, Participant, write_winner, write_difficulty,
    write_authorship, write_participant, recompute, hashes_at,
  }

  pub record BlockRecords : Type 0 where
    pub winner : Option (Winner WinnerDetails)
    pub difficulty : Option (Difficulty DifficultyDetails)
    pub authorship : Option AuthorshipRecord
    pub participation : List Participant

  pub record BlockCommit : Type 0 where
    pub genesis : BlockHash
    pub hash : BlockHash
    pub height : DecimalString
    pub guards : List GenerationGuard
    pub records : BlockRecords
    pub completed : List Indexable

  abbrev one_if : Bool → Indexable → List Indexable
  one_if test i = if test then i ∷ [] else []

  abbrev is_empty {ℓ} : {A : Type ℓ} → List A → Bool
  is_empty [] = true
  is_empty (x ∷ xs) = false

  unfoldable pub affected : BlockCommit → List Indexable
  affected b =
      b.completed
      ++ one_if (is_some b.records.winner) winners
      ++ one_if (is_some b.records.difficulty) difficulty
      ++ one_if (is_some b.records.authorship) authorship
      ++ one_if (not (is_empty b.records.participation)) participation

  -- The test that every record and completion has a guard.
  unfoldable pub unguarded : BlockCommit → Bool
  unguarded b = is_empty (affected b) || any (λ i. not (guarded b.guards i)) (affected b)

  -- The hashes that the store holds for the height of the batch, from either table.
  unfoldable pub existing_hashes : BlockCommit → Db Rows → List Text
  existing_hashes b db = finalized_at b.height.text db.finalized ++ hashes_at b.height.text db.rows

  abbrev is_poll : DifficultySource → Bool
  is_poll poll = true
  is_poll block = false

  -- The three provenance checks; heights compare as text, hashes by their bytes.
  unfoldable pub check_provenance : BlockCommit → Result StoreError (Unit {0})
  check_provenance b = do
    refuse_if
        (is_some_and b.records.winner (λ w.
          not (same_text w.substrate_block_number.text b.height.text)
          || not (Hash.eq w.substrate_block_hash b.hash)
          || not w.finalized))
        (invalid "winner provenance does not match finalized commit")
    refuse_if
        (is_some_and b.records.difficulty
          (λ d. not (same_text d.observed_at_block.text b.height.text) || is_poll d.source))
        (invalid "difficulty provenance does not match commit")
    refuse_if
        (is_some_and b.records.authorship (λ a. not (same_text a.block_number.text b.height.text)))
        (invalid "authorship height does not match commit")

  -- A write of an optional record; `changed |= written > 0`.
  unfoldable pub write_option {ℓ} :
      {A : Type ℓ}
      → (A → Rows → Result StoreError (Rows × ℕ))
      → Option A
      → Rows × Bool
      → Result StoreError (Rows × Bool)
  write_option write none st = ok st
  write_option write (some a) (rows, changed) = do
    (rows', written) ← write a rows
    ok (rows', changed || ltb 0 written)

  unfoldable pub write_participants :
      List Participant → Rows × Bool → Result StoreError (Rows × Bool)
  write_participants [] st = ok st
  write_participants (p ∷ ps) (rows, changed) = do
    (rows', written) ← write_participant p rows
    write_participants ps (rows', changed || ltb 0 written)

  unfoldable pub write_records : BlockRecords → Rows → Result StoreError (Rows × Bool)
  write_records r rows = do
    after_winner ← write_option write_winner r.winner (rows, false)
    after_difficulty ← write_option write_difficulty r.difficulty after_winner
    after_authorship ← write_option write_authorship r.authorship after_difficulty
    write_participants r.participation after_authorship

  -- The authorship totals follow the facts once the cutover is recorded.
  unfoldable pub recompute_after : BlockCommit → Meta → Rows → Result StoreError Rows
  recompute_after b meta rows =
      if is_some b.records.authorship
        && is_some_and (meta authorship_cutover) (λ v. same_text v (b'1' ∷ []))
      then recompute rows
      else ok rows

  module _ (codec : Json) (now : Text) where
    -- The transaction behind the guards, to COMMIT.
    unfoldable pub apply_block :
        BlockCommit → ℕ → Store Rows → Result StoreError (CommitResult × Store Rows)
    apply_block b n s = do
      refuse_if (any (λ x. not (same_text x b.hash.text)) (existing_hashes b s.db))
          (conflicting_history b.height.text)
      check_provenance b
      (rows, written) ← write_records b.records s.db.rows
      (meta, covered) ← complete codec now n b.completed s.db.meta
      rows' ← recompute_after b meta rows
      ok (
        if written || covered then applied else already_applied,
        record s {
          db = record (s.db) {
            meta = meta;
            rows = rows';
            finalized = insert_finalized b.height.text b.hash.text s.db.finalized;
          };
        },
      )

    unfoldable pub commit_block :
        BlockCommit → Store Rows → Result StoreError (CommitResult × Store Rows)
    commit_block b s = do
      refuse_if (not s.writer) read_only
      refuse_if (duplicate_guard b.guards) (invalid "duplicate generation guard")
      refuse_if (unguarded b) (invalid "every record and completion requires a guard")
      n ← height b.height
      network s.db.meta b.genesis
      if stale_guard s.db.meta b.guards then ok (stale_generation, s) else apply_block b n s
