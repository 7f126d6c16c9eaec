-- ===== src/Store/Scans.antt =====
-- The winner enumerations of coverage.rs: `begin_scan`, `append_scan_page`, `scan_progress` and
-- `commit_range`.
pub mod Ranges
pub mod Pages
use dashboard_quip_network.Prelude.{
  ℕ, Bool, true, false, not, ◌&&◌, ◌||◌, Option, none, some, List, [], ◌∷◌, any, ltb, leb, ◌==◌,
  if◌then◌else◌, length, Result, ok, err, ◌>>=◌, ◌>>◌, refuse_if, ok_or, is_some, is_some_and,
}
use dashboard_quip_network.Prelude.Texts.{same_text}
use dashboard_quip_network.Errors.{
  StoreError, invalid, read_only, network_identity, incomplete_scan, json,
}
use dashboard_quip_network.Decimal.{Text, DecimalString, parse_u64, print_u64}
use dashboard_quip_network.Hash.{BlockHash}
use dashboard_quip_network.Coverage.{Coverage, contains, cover}
use dashboard_quip_network.Store.{
  CommitResult, applied, already_applied, stale_generation, Indexable, authorship, same_domain,
  Meta, ScanRow, ScanWinnerRow, Db, Store, Json,
}
use dashboard_quip_network.Store.Meta.{
  generation, height, network, require_bound, coverage, save_coverage,
}

pub record Scan : Type 0 where
  pub id : Text
  pub genesis : BlockHash
  pub at : BlockHash
  pub finalized_height : DecimalString
  pub indexable : Indexable
  pub expected_generation : ℕ

pub record RangeCompletion : Type 0 where
  pub genesis : BlockHash
  pub indexable : Indexable
  pub expected_generation : ℕ
  pub from : DecimalString
  pub through : DecimalString
  pub scan_id : Text

pub record ScanProgress : Type 0 where
  pub cursor : Option Text
  pub finished : Bool

-- SELECT * FROM dashboard_scans WHERE id=?1; the id is the primary key.
unfoldable pub find_scan : Text → List ScanRow → Option ScanRow
find_scan id [] = none
find_scan id (r ∷ rows) = let rest = find_scan id rows in if same_text r.id id then some r else rest

-- The row keeps its identity, and takes the cursor and perhaps the mark.
unfoldable pub update_scan : Text → Option Text → Bool → List ScanRow → List ScanRow
update_scan id cursor exhausted [] = []
update_scan id cursor exhausted (r ∷ rows) =
    (if same_text r.id id
      then record r { cursor = cursor; finished = r.finished || exhausted }
      else r)
    ∷ update_scan id cursor exhausted rows

-- The tests of `begin_scan` on a row that is already there.
unfoldable pub other_state : Scan → ScanRow → Bool
other_state scan old =
    not (same_text old.at_hash scan.at.text)
    || not (same_text old.genesis scan.genesis.text)
    || not (same_text old.generation (print_u64 scan.expected_generation))
    || not (same_domain old.domain scan.indexable)
    || not (same_text old.finalized_height scan.finalized_height.text)

unfoldable pub new_scan : Scan → ScanRow
new_scan scan = record {
  id = scan.id;
  genesis = scan.genesis.text;
  at_hash = scan.at.text;
  finalized_height = scan.finalized_height.text;
  domain = scan.indexable;
  generation = print_u64 scan.expected_generation;
  cursor = none;
  finished = false;
}

abbrev pub is_empty : Text → Bool
is_empty [] = true
is_empty (c ∷ cs) = false

module _ {R : Type 0} where
  unfoldable pub resume_scan :
      Scan → Option ScanRow → Store R → Result StoreError (CommitResult × Store R)
  resume_scan scan (some old) s = do
    refuse_if (other_state scan old) (invalid "scan cursor reused for different state")
    ok (already_applied, s)
  resume_scan scan none s =
      ok (applied, record s { db = record (s.db) { scans = new_scan scan ∷ s.db.scans } })

  unfoldable pub begin_scan : Scan → Store R → Result StoreError (CommitResult × Store R)
  begin_scan scan s = do
    refuse_if (not s.writer) read_only
    refuse_if (is_empty scan.id) (invalid "empty scan identifier")
    network s.db.meta scan.genesis
    if generation s.db.meta scan.indexable == scan.expected_generation
        then resume_scan scan (find_scan scan.id s.db.scans) s
        else ok (stale_generation, s)

abbrev pub same_option : Option Text → Option Text → Bool
same_option none none = true
same_option (some a) (some b) = same_text a b
same_option _ _ = false

-- INSERT .. ON CONFLICT(scan_id,height) DO NOTHING
unfoldable pub insert_winner : Text → Text → List ScanWinnerRow → List ScanWinnerRow
insert_winner id h rows =
    if any (λ r. same_text r.scan_id id && same_text r.height h) rows
    then rows
    else record { scan_id = id; height = h } ∷ rows

-- The loop over the heights of a page.
unfoldable pub insert_winners :
    Text → ℕ → List DecimalString → List ScanWinnerRow → Result StoreError (List ScanWinnerRow)
insert_winners id ceiling [] rows = ok rows
insert_winners id ceiling (h ∷ hs) rows = do
  n ← height h
  refuse_if (ltb ceiling n) (invalid "winner above pinned finalized state")
  insert_winners id ceiling hs (insert_winner id h.text rows)

abbrev pub encoded : Json → Option Text → Option Text
encoded codec none = none
encoded codec (some c) = some (codec.cursor_text c)

module _ {R : Type 0} (codec : Json) where
  -- The rest of `append_scan_page` once the row of the scan is found current.
  unfoldable pub write_page :
      ScanRow
      → Option Text
      → Option Text
      → List DecimalString
      → Store R
      → Result StoreError (CommitResult × Store R)
  write_page row expected next heights s = do
    refuse_if (row.finished || not (same_option row.cursor (encoded codec expected)))
        incomplete_scan
    ceiling ← ok_or (parse_u64 row.finalized_height) incomplete_scan
    winners ← insert_winners row.id ceiling heights s.db.scan_winners
    ok (
      applied,
      record s {
        db = record (s.db) {
          scan_winners = winners;
          scans = update_scan row.id (encoded codec next) (not (is_some next)) s.db.scans;
        };
      },
    )

  unfoldable pub append_scan_page :
      Text
      → Option Text
      → Option Text
      → List DecimalString
      → Store R
      → Result StoreError (CommitResult × Store R)
  append_scan_page id expected next heights s = do
    refuse_if (not s.writer) read_only
    refuse_if (ltb 1000 (length heights) || (is_some next && same_option next expected))
        (invalid "oversize or non-advancing scan page")
    bound ← require_bound s.db.meta
    row ← ok_or (find_scan id s.db.scans) incomplete_scan
    refuse_if (not (same_text row.genesis bound)) network_identity
    if same_text (print_u64 (generation s.db.meta row.domain)) row.generation
        then write_page row expected next heights s
        else ok (stale_generation, s)

-- `scan_progress`
unfoldable pub scan_progress : Json → Text → List ScanRow → Result StoreError (Option ScanProgress)
scan_progress codec id rows = elim (find_scan id rows) [
  | none ↦ ok none
  | some r ↦ elim r.cursor [
    | none ↦ ok (some (record { cursor = none; finished = r.finished }))
    | some text ↦ do
      bytes ← ok_or (codec.cursor_of text) (json "cursor")
      ok (some (record { cursor = some bytes; finished = r.finished }))
  ]
]

-- The tests of `commit_range` on the scan; an unfinished scan is not selected.
unfoldable pub scan_proves : RangeCompletion → ℕ → ScanRow → Bool
scan_proves r through row =
    row.finished
    && same_text row.genesis r.genesis.text
    && same_domain row.domain r.indexable
    && same_text row.generation (print_u64 r.expected_generation)
    && is_some_and (parse_u64 row.finalized_height) (λ top. leb through top)

-- The loop over the winners of the scan. The source reads them in pages and by height; each refusal
-- is the same error, so neither matters.
unfoldable pub check_winners :
    Text → Coverage → ℕ → ℕ → List ScanWinnerRow → Result StoreError (Unit {0})
check_winners id cov from through [] = ok tt
check_winners id cov from through (w ∷ ws) =
    let rest = check_winners id cov from through ws in
    if same_text w.scan_id id
    then (do
      n ← ok_or (parse_u64 w.height) incomplete_scan
      refuse_if (leb from n && leb n through && not (contains cov n n)) incomplete_scan
      rest)
    else rest

module _ {R : Type 0} (codec : Json) (now : Text) where
  -- The transaction behind the generation guard, to COMMIT.
  unfoldable pub apply_range :
      RangeCompletion → ℕ → ℕ → Store R → Result StoreError (CommitResult × Store R)
  apply_range r from through s = do
    row ← ok_or (find_scan r.scan_id s.db.scans) incomplete_scan
    refuse_if (not (scan_proves r through row)) incomplete_scan
    refuse_if (same_domain r.indexable authorship)
        (invalid "authorship requires per-block evidence")
    cov ← coverage codec s.db.meta r.indexable 0
    check_winners r.scan_id cov from through s.db.scan_winners
    (changed, cov') ← cover now cov from through
    ok (
      if changed then applied else already_applied,
      record s {
        db = record (s.db) {
          meta = if changed then save_coverage codec r.indexable cov' s.db.meta else s.db.meta;
        };
      },
    )

  unfoldable pub commit_range :
      RangeCompletion → Store R → Result StoreError (CommitResult × Store R)
  commit_range r s = do
    refuse_if (not s.writer) read_only
    from ← height r.from
    through ← height r.through
    refuse_if (ltb through from) (invalid "reversed range")
    network s.db.meta r.genesis
    if generation s.db.meta r.indexable == r.expected_generation
        then apply_range r from through s
        else ok (stale_generation, s)
