-- ===== src/Examples/Indexing.antt =====
-- Runs of the indexer's workers.
use dashboard_quip_network.Prelude.{
  ℕ, ◌≡◌, ◌↔◌, Bool, true, false, none, some, List, [], ◌∷◌, leb, ok, refl, arith, Result,
}
use dashboard_quip_network.Coverage
use dashboard_quip_network.Coverage.{Coverage, Interval}
use dashboard_quip_network.Store.{Indexable, winners, difficulty, participation, GenerationGuard}
use dashboard_quip_network.Store.Meta as Table
use dashboard_quip_network.Store.Blocks.{guarded, duplicate_guard, stale_guard}
use dashboard_quip_network.Store.Unavailable
use dashboard_quip_network.Indexer.{IndexerError}
use dashboard_quip_network.Indexer.History.{search, rounds}
use dashboard_quip_network.Indexer.History.Search.{
  IsMonotone, IsFirst, search-rounds, search-IsFirst,
}
use dashboard_quip_network.Decimal
use dashboard_quip_network.Decimal.{DecimalString}
use dashboard_quip_network.Indexer.Replay
use dashboard_quip_network.Indexer.Replay.{Replayer, Replay}
use dashboard_quip_network.Indexer.Guards
use dashboard_quip_network.Indexer.Guards.{guards}
use dashboard_quip_network.Indexer.Guards.Needed.{IsWanted, guards-fresh}
use dashboard_quip_network.Examples.Instances.{plain_json}
use dashboard_quip_network.Examples.Commits.{bound_store}

-- Height 5 is covered, and height 2 stays uncovered.
abbrev five_covered : Coverage
five_covered = record {
  v = 1;
  gen = 1;
  start = 0;
  low = some 5;
  high = some 5;
  gaps = [];
  pruned_floor = none;
  updated_at = none;
}

abbrev quiet_calls : Replayer (Unit {0})
quiet_calls = record {
  backfill_block = λ height target s. ok s;
  coverage = λ s. ok (some five_covered);
  finish_range = λ from through s. ok s;
}

abbrev replayed : Replay (Unit {0})
replayed = record {
  store = tt;
  cursor = some 3;
  last = some 5;
  finished = record { first = 1; last = 1 } ∷ record { first = 3; last = 20 } ∷ [];
  skipped = 2 ∷ [];
}

abbrev two_rows : List DecimalString
two_rows = record { text = b'2' ∷ [] } ∷ record { text = b'5' ∷ [] } ∷ []

abbrev twenty : DecimalString
twenty = record { text = b'2' ∷ b'0' ∷ [] }

-- A descriptor that is there from height 5 on.
abbrev from_five : ℕ → Bool
from_five h = leb 5 h

from_five-IsMonotone : IsMonotone from_five
from_five-IsMonotone a b order here = ground arith

search-rounds_example :
    (r : Result IndexerError ℕ) × (search (λ h. ok (from_five h)) rounds 1 9 ≡ some r)
search-rounds_example = search-rounds (λ h. ok (from_five h)) 9 (omega arith)

search-IsFirst_example :
    (first : ℕ) × (search (λ h. ok (from_five h)) rounds 1 9 ≡ some (ok first))
    × IsFirst from_five 1 9 first
search-IsFirst_example =
    search-IsFirst from_five 9 from_five-IsMonotone (omega arith) (omega arith) refl

abbrev sparse_guards : List GenerationGuard
sparse_guards =
    record { indexable = winners; expected = 1 }
    ∷ record { indexable = difficulty; expected = 1 }
    ∷ record { indexable = participation; expected = 1 }
    ∷ []

guards_run : guards plain_json bound_store.db 42 false ≡ ok sparse_guards
unfolding guards Guards.guards_of Guards.guard_needed Guards.stored_coverage Guards.decoded_row
    Unavailable.is_unavailable Unavailable.marked Table.generation Table.parsed Table.positive
guards_run = refl

guards-fresh_example :
    (duplicate_guard sparse_guards ≡ false)
    × (stale_guard bound_store.db.meta sparse_guards ≡ false)
    × ((i : Indexable)
        → (guarded sparse_guards i ≡ true) ↔ IsWanted plain_json bound_store.db 42 false i)
guards-fresh_example = guards-fresh plain_json bound_store.db 42 false sparse_guards guards_run
