-- ===== src/Store/Generations.antt =====
-- The operations of coverage.rs on the generation and the floor of a domain: `reindex`,
-- `initialize_coverage` and `set_pruned_floor`.
pub mod Reindex
pub mod Requests
pub mod Reset
use dashboard_quip_network.Prelude.{
  ℕ, ◌+◌, Bool, true, false, not, ◌&&◌, ◌||◌, Option, none, some, List, [], ◌∷◌, any, ltb, leb,
  ◌==◌, if◌then◌else◌, Result, ok, err, ◌>>=◌, ◌>>◌, refuse_if, ok_or, is_some,
}
use dashboard_quip_network.Prelude.Texts.{same_text}
use dashboard_quip_network.Prelude.Words.{checked_add}
use dashboard_quip_network.Errors.{StoreError, invalid, read_only}
use dashboard_quip_network.Decimal.{Text, DecimalString, print_u64}
use dashboard_quip_network.Coverage
use dashboard_quip_network.Coverage.{Coverage}
use dashboard_quip_network.Store.{
  CommitResult, applied, already_applied, stale_generation, Indexable, winners, difficulty,
  participation, authorship, rank, same_domain, GenerationGuard, MetaKey, generation_key,
  coverage_key, authorship_cutover, Meta, ScanRow, ScanWinnerRow, UnavailableRow, Db, Store, Json,
}
use dashboard_quip_network.Store.Meta.{
  set_meta, generation, height, require_bound, coverage, save_coverage,
}
use dashboard_quip_network.Store.Blocks.{Tables}

-- `unique.sort_unstable()` over the derived order of the domains.
unfoldable pub insert_domain : Indexable → List Indexable → List Indexable
insert_domain i [] = i ∷ []
insert_domain i (j ∷ js) = if leb (rank i) (rank j) then i ∷ j ∷ js else j ∷ insert_domain i js

unfoldable pub sort_domains : List Indexable → List Indexable
sort_domains [] = []
sort_domains (i ∷ is) = insert_domain i (sort_domains is)

-- `unique.dedup()`
unfoldable pub dedup_domains : List Indexable → List Indexable
dedup_domains [] = []
dedup_domains (i ∷ []) = i ∷ []
dedup_domains (i ∷ j ∷ js) =
    let rest = dedup_domains (j ∷ js) in if same_domain i j then rest else i ∷ rest

-- DELETE FROM dashboard_unavailable WHERE domain=?1
unfoldable pub drop_unavailable : Indexable → List UnavailableRow → List UnavailableRow
drop_unavailable i [] = []
drop_unavailable i (r ∷ rows) =
    let rest = drop_unavailable i rows in if same_domain r.domain i then rest else r ∷ rest

-- DELETE FROM dashboard_scans WHERE domain=?1
unfoldable pub drop_scans : Indexable → List ScanRow → List ScanRow
drop_scans i [] = []
drop_scans i (r ∷ rows) =
    let rest = drop_scans i rows in if same_domain r.domain i then rest else r ∷ rest

-- DELETE FROM dashboard_scan_winners WHERE scan_id IN (SELECT id .. WHERE domain=?1)
unfoldable pub drop_winners : Indexable → List ScanRow → List ScanWinnerRow → List ScanWinnerRow
drop_winners i scans [] = []
drop_winners i scans (w ∷ ws) =
    let rest = drop_winners i scans ws in
    if any (λ r. same_domain r.domain i && same_text r.id w.scan_id) scans then rest else w ∷ rest

module _ (codec : Json) where
  -- The arm of the domain on `meta`: authorship forgets its cutover and keeps its floor.
  unfoldable pub reset_domain : Indexable → ℕ → Coverage → Meta → Meta
  reset_domain authorship next old meta =
      let cleared = set_meta authorship_cutover none meta in
      if ltb 0 old.start
      then save_coverage codec authorship (Coverage.empty next old.start) cleared
      else cleared
  reset_domain winners next old meta = meta
  reset_domain difficulty next old meta = meta
  reset_domain participation next old meta = meta

  module _ (tables : Tables) where
    open tables use {Rows, drop_domain}

    unfoldable pub reindex_domain :
        Indexable → Db Rows → Result StoreError (GenerationGuard × Db Rows)
    reindex_domain i db = do
      next ← ok_or (checked_add (generation db.meta i) 1) (invalid "generation exhausted")
      old ← coverage codec db.meta i 0
      ok (
        record { indexable = i; expected = next },
        record db {
          meta = reset_domain i next old (
              set_meta (coverage_key i) none
                (set_meta (generation_key i) (some (print_u64 next)) db.meta));
          unavailable = drop_unavailable i db.unavailable;
          rows = drop_domain i db.rows;
          scan_winners = drop_winners i db.scans db.scan_winners;
          scans = drop_scans i db.scans;
        },
      )

    unfoldable pub reindex_loop :
        List Indexable → Db Rows → Result StoreError (List GenerationGuard × Db Rows)
    reindex_loop [] db = ok ([], db)
    reindex_loop (i ∷ is) db = do
      (guard, db') ← reindex_domain i db
      (guards, db'') ← reindex_loop is db'
      ok (guard ∷ guards, db'')

    unfoldable pub reindex :
        List Indexable → Store Rows → Result StoreError (List GenerationGuard × Store Rows)
    reindex indexables s = do
      refuse_if (not s.writer) read_only
      bound ← require_bound s.db.meta
      (guards, db) ← reindex_loop (dedup_domains (sort_domains indexables)) s.db
      ok (guards, record s { db = db })

-- `floor.as_ref().map(height).transpose()`
unfoldable pub floor_height : Option DecimalString → Result StoreError (Option ℕ)
floor_height none = ok none
floor_height (some h) = do n ← height h; ok (some n)

module _ {R : Type 0} (codec : Json) where
  unfoldable pub initialize_coverage :
      Indexable → ℕ → DecimalString → Store R → Result StoreError (CommitResult × Store R)
  initialize_coverage i expected start s = do
    refuse_if (not s.writer) read_only
    bound ← require_bound s.db.meta
    if not (generation s.db.meta i == expected)
        then ok (stale_generation, s)
        else if is_some (s.db.meta (coverage_key i))
        then ok (already_applied, s)
        else (do
          floor ← height start
          ok (
            applied,
            record s {
              db = record (s.db) {
                meta = save_coverage codec i (Coverage.empty expected floor) s.db.meta;
              };
            },
          ))

  unfoldable pub set_pruned_floor :
      Text
      → GenerationGuard
      → Option DecimalString
      → Store R
      → Result StoreError (CommitResult × Store R)
  set_pruned_floor now guard floor s = do
    refuse_if (not s.writer) read_only
    bound ← require_bound s.db.meta
    if not (generation s.db.meta guard.indexable == guard.expected)
        then ok (stale_generation, s)
        else (do
          cov ← coverage codec s.db.meta guard.indexable 0
          pruned ← floor_height floor
          ok (
            applied,
            record s {
              db = record (s.db) {
                meta =
                    save_coverage codec guard.indexable
                      (record cov { pruned_floor = pruned; updated_at = some now }) s.db.meta;
              };
            },
          ))
