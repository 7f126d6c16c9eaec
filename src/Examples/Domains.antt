-- ===== src/Examples/Domains.antt =====
-- Runs of the store's other transactions: ranges, generations, targets, bindings and markers.
use dashboard_quip_network.Prelude.{
  ℕ, ◌≡◌, ◌⊎◌, refl, true, ◌&&◌, ◌||◌, none, some, List, [], ◌∷◌, Result, ok,
}
use dashboard_quip_network.Prelude.Texts.{same_text}
use dashboard_quip_network.Errors.{StoreError}
use dashboard_quip_network.Decimal
use dashboard_quip_network.Decimal.{Text, DecimalString, print_u64}
use dashboard_quip_network.Hash
use dashboard_quip_network.Hash.{BlockHash}
use dashboard_quip_network.Coverage
use dashboard_quip_network.Coverage.{Coverage}
use dashboard_quip_network.Coverage.Points.{within}
use dashboard_quip_network.Store.{
  applied, stale_generation, Indexable, winners, difficulty, same_domain, genesis, generation_key,
  coverage_key, missing_retained_difficulty, GenerationGuard, ScanRow, Store,
}
use dashboard_quip_network.Store.Meta as Table
use dashboard_quip_network.Store.Meta.{save_coverage, set_meta, height, generation, coverage}
use dashboard_quip_network.Store.Views.{covered_at}
use dashboard_quip_network.Store.Blocks
use dashboard_quip_network.Store.Blocks.{finalized_at}
use dashboard_quip_network.Store.Scans
use dashboard_quip_network.Store.Scans.{RangeCompletion, find_scan, scan_proves, commit_range}
use dashboard_quip_network.Store.Scans.Ranges.{WinnersCovered, IsFinishedScan, commit_range-covers}
use dashboard_quip_network.Store.Generations
use dashboard_quip_network.Store.Generations.{reindex, dedup_domains, sort_domains}
use dashboard_quip_network.Store.Generations.Reindex.{
  IsReindexed, guards_after, reindex-IsReindexed,
}
use dashboard_quip_network.Store.Generations.Requests.{Ascending}
use dashboard_quip_network.Store.Targets
use dashboard_quip_network.Store.Targets.{
  RetainedBlock, save_target, set_finalized_target, committed_in,
}
use dashboard_quip_network.Store.Targets.Progress.{
  target_height, raised_to, set_finalized_target-max,
}
use dashboard_quip_network.Store.Network
use dashboard_quip_network.Store.Network.{Records, bind_network_with}
use dashboard_quip_network.Store.Network.Binding.{IsBound, bind_network_with-IsBound}
use dashboard_quip_network.Store.Unavailable
use dashboard_quip_network.Store.Unavailable.{UnavailableBlock, marked, marker, mark_unavailable}
use dashboard_quip_network.Store.Unavailable.Retry.{mark_unavailable-applied}
use dashboard_quip_network.Examples.Values.{upper_hash, upper, forty_two}
use dashboard_quip_network.Examples.Instances.{plain_json, winner_tables}
use dashboard_quip_network.Examples.Commits.{
  Rows, zero_hash, bound_store, clock, at_forty_two, after_batch,
}

abbrev forty : DecimalString
forty = record { text = b'4' ∷ b'0' ∷ [] }

abbrev forty_five : DecimalString
forty_five = record { text = b'4' ∷ b'5' ∷ [] }

abbrev finished_scan : ScanRow
finished_scan = record {
  id = b's' ∷ [];
  genesis = upper;
  at_hash = zero_hash.text;
  finalized_height = forty_five.text;
  domain = winners;
  generation = b'1' ∷ [];
  cursor = none;
  finished = true;
}

-- The height 42 is covered, and a finished scan found it.
abbrev scanned : Store Rows
scanned = record after_batch {
  db = record (after_batch.db) {
    scans = finished_scan ∷ [];
    scan_winners = record { scan_id = b's' ∷ []; height = forty_two.text } ∷ [];
  };
}

abbrev range : RangeCompletion
range = record {
  genesis = upper_hash;
  indexable = winners;
  expected_generation = 1;
  from = forty;
  through = forty_five;
  scan_id = b's' ∷ [];
}

abbrev completed : Store Rows
completed = record scanned {
  db = record (scanned.db) {
    meta =
        save_coverage plain_json winners
          (record at_forty_two { low = some 40; high = some 45; updated_at = some clock })
          after_batch.db.meta;
  };
}

range_commits : commit_range plain_json clock range scanned ≡ ok (applied, completed)
unfolding commit_range Scans.apply_range Scans.check_winners find_scan scan_proves height
    Table.network Table.require_bound Table.generation Table.parsed Table.positive Table.coverage
    Table.decoded save_coverage set_meta same_text Coverage.cover Coverage.contains Coverage.extend
    Coverage.sort_gaps Coverage.subtract_gaps Coverage.push_gaps Coverage.check_persisted
    Coverage.header_invalid Coverage.gaps_invalid Decimal.parse_u64 Decimal.parse_digits print_u64
    Decimal.digits_of
range_commits = refl

commit_range-covers_example :
    ((applied ≡ stale_generation) × (completed ≡ scanned))
    ⊎ ((from : ℕ) × (through : ℕ) × (height forty ≡ ok from)
        × (height forty_five ≡ ok through)
        × ((row : ScanRow) × (find_scan range.scan_id scanned.db.scans ≡ some row)
            × IsFinishedScan range through scanned.db.meta row)
        × WinnersCovered range.scan_id
            (covered_at plain_json scanned.db.meta winners)
            from
            through
            scanned.db.scan_winners
        × ((j : Indexable) (m : ℕ)
            → covered_at plain_json completed.db.meta j m ≡ (
                covered_at plain_json scanned.db.meta j m
                || (same_domain winners j && within from through m))))
commit_range-covers_example =
    commit_range-covers plain_json clock range scanned completed applied range_commits

abbrev requested : List Indexable
requested = difficulty ∷ winners ∷ winners ∷ []

abbrev second : Text
second = b'2' ∷ []

abbrev reindexed : Store Rows
reindexed = record bound_store {
  db = record (after_batch.db) {
    meta = set_meta (coverage_key difficulty) none (
        set_meta (generation_key difficulty) (some second) (
          set_meta (coverage_key winners) none
            (set_meta (generation_key winners) (some second) after_batch.db.meta)));
    scans = [];
    scan_winners = [];
    rows = [];
  };
}

abbrev new_guards : List GenerationGuard
new_guards =
    record { indexable = winners; expected = 2 }
    ∷ record { indexable = difficulty; expected = 2 }
    ∷ []

requested-reindexed :
    reindex plain_json winner_tables requested scanned ≡ ok (new_guards, reindexed)
unfolding reindex dedup_domains sort_domains Generations.insert_domain Generations.reindex_loop
    Generations.reindex_domain Generations.reset_domain Generations.drop_unavailable
    Generations.drop_scans Generations.drop_winners Table.require_bound Table.generation
    Table.parsed Table.positive Table.coverage Table.decoded save_coverage set_meta same_text
    Coverage.empty Coverage.check_persisted Coverage.header_invalid Coverage.gaps_invalid
    Decimal.parse_u64 Decimal.parse_digits print_u64 Decimal.digits_of
requested-reindexed = refl

reindex-IsReindexed_example :
    IsReindexed plain_json requested scanned.db.meta reindexed.db.meta
    × new_guards ≡ guards_after scanned.db.meta (dedup_domains (sort_domains requested))
    × Ascending 0 (dedup_domains (sort_domains requested))
reindex-IsReindexed_example =
    reindex-IsReindexed plain_json winner_tables requested scanned reindexed new_guards
      requested-reindexed

abbrev goal : RetainedBlock
goal = record { height = forty_five; hash = zero_hash }

goal_height : height goal.height ≡ ok 45
unfolding height Decimal.parse_u64 Decimal.parse_digits
goal_height = refl

-- A target at height 42 that is there.
abbrev targeted : Store Rows
targeted = save_target plain_json (record { height = forty_two; hash = zero_hash }) bound_store

goal_accepted :
    set_finalized_target plain_json goal targeted
    ≡ ok (applied, save_target plain_json goal targeted)
unfolding set_finalized_target Targets.advance_target Table.require_bound height set_meta
    Decimal.parse_u64 Decimal.parse_digits
goal_accepted = refl

set_finalized_target-max_example :
    target_height plain_json (save_target plain_json goal targeted).db.meta
    ≡ some (raised_to (target_height plain_json targeted.db.meta) 45)
set_finalized_target-max_example =
    set_finalized_target-max plain_json goal targeted (save_target plain_json goal targeted) applied
      45 goal_height goal_accepted

after_batch_read : coverage plain_json after_batch.db.meta winners 0 ≡ ok at_forty_two
unfolding coverage Table.decoded Table.generation Table.parsed Table.positive save_coverage set_meta
    Coverage.check_persisted Coverage.header_invalid Coverage.gaps_invalid
after_batch_read = refl

after_batch_empty : coverage plain_json after_batch.db.meta difficulty 0 ≡ ok (Coverage.empty 1 0)
unfolding coverage Table.decoded Table.generation Table.parsed Table.positive save_coverage set_meta
after_batch_empty = refl

-- A store with history and no genesis yet.
abbrev unbound : Store Rows
unbound = record after_batch { db = record (after_batch.db) { meta = λ k. none } }

-- The block table and the head agree with the finalized history on height 42.
abbrev some_records : Records Rows
some_records = record {
  block_rows = λ rows. (b'4' ∷ b'2' ∷ [], zero_hash.text) ∷ [];
  head_rows = λ rows. (b'4' ∷ b'2' ∷ [], zero_hash.text) ∷ [];
  has_row = λ t rows. true;
}

abbrev confirm : RetainedBlock → Result StoreError BlockHash
confirm row = ok zero_hash

bind_network_with-IsBound_example :
    (r : Result StoreError (Store Rows)) × (bind_network_with some_records upper_hash confirm
        unbound
      ≡ some r)
    × ((s' : Store Rows)
        → r ≡ ok s'
        → (unbound.writer ≡ true) × IsBound some_records upper_hash confirm unbound s')
bind_network_with-IsBound_example =
    bind_network_with-IsBound some_records upper_hash confirm unbound

abbrev newly_bound : Store Rows
newly_bound = record unbound {
  db = record (unbound.db) { meta = set_meta genesis (some upper) (λ k. none) };
}

unbound_binds : bind_network_with some_records upper_hash confirm unbound ≡ some (ok newly_bound)
unfolding bind_network_with Network.bind_step Network.bind_verified Network.verify_pages
    Network.after_page Network.retained_history Network.history Network.union_rows
    Network.insert_row Network.before_row Network.before_text Network.read_rows Network.read_row
    Network.verify_all same_text Hash.eq Hash.same_bytes Hash.from_str Hash.strip_prefix
    Hash.from_hex Hash.decode_pairs Hash.hex_nibble Decimal.from_str Decimal.classify_digit
    Decimal.classify_rest
unbound_binds = refl

abbrev absent : UnavailableBlock
absent = record {
  guard = record { indexable = difficulty; expected = 1 };
  height = forty;
  hash = zero_hash;
  enrichment_at = upper_hash;
  reason = missing_retained_difficulty;
}

abbrev with_marker : Store Rows
with_marker = record after_batch {
  db = record (after_batch.db) {
    unavailable = marker clock absent 40 ∷ [];
    finalized = record { height = forty.text; hash = zero_hash.text } ∷ after_batch.db.finalized;
  };
}

absent_marked :
    mark_unavailable plain_json winner_tables clock upper_hash absent after_batch
    ≡ ok (applied, with_marker)
unfolding mark_unavailable Unavailable.mark_current Unavailable.record_marker
    Unavailable.valid_domain marked Unavailable.marks Table.network Table.require_bound
    Table.generation Table.parsed Table.positive Table.coverage Table.decoded save_coverage set_meta
    height same_text Coverage.empty Coverage.contains Blocks.insert_finalized finalized_at
    Decimal.parse_u64 Decimal.parse_digits
absent_marked = refl

mark_unavailable-applied_example :
    (with_marker.db.meta ≡ after_batch.db.meta)
    × (applied ≡ applied
        → (generation with_marker.db.meta difficulty ≡ 1)
          × (marked difficulty (print_u64 1) forty.text with_marker.db.unavailable ≡ true))
mark_unavailable-applied_example =
    mark_unavailable-applied plain_json winner_tables clock upper_hash absent after_batch
      with_marker applied absent_marked
