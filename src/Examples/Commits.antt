-- ===== src/Examples/Commits.antt =====
-- Runs of `commit_block` on a bound store.
use dashboard_quip_network.Prelude.{
  ℕ, ◌≡◌, ◌≢◌, ◌⊎◌, ◌↔◌, refl, true, false, ◌&&◌, ◌||◌, none, some, List, [], ◌∷◌, any, all, ◌==◌,
  arith, ok,
}
use dashboard_quip_network.Prelude.Texts.{same_text}
use dashboard_quip_network.Decimal
use dashboard_quip_network.Decimal.{Text, DecimalString}
use dashboard_quip_network.Hash
use dashboard_quip_network.Hash.{BlockHash}
use dashboard_quip_network.Coverage
use dashboard_quip_network.Coverage.{Coverage}
use dashboard_quip_network.Store.{
  applied, stale_generation, Indexable, winners, difficulty, same_domain, genesis, generation_key,
  Meta, Store,
}
use dashboard_quip_network.Store.Meta as Table
use dashboard_quip_network.Store.Meta.{save_coverage, height}
use dashboard_quip_network.Store.Views.{covered_at}
use dashboard_quip_network.Store.Blocks
use dashboard_quip_network.Store.Blocks.{BlockCommit, commit_block, stale_guard, finalized_at}
use dashboard_quip_network.Store.Blocks.Stale.{AnyStale, IsGuarded, IsTouched, commit_block-stale}
use dashboard_quip_network.Store.Blocks.Commit.{
  commit_block-coverage, commit_block-other, commit_block-finalized,
}
use dashboard_quip_network.Examples.Values.{upper_hash, upper, forty_two}
use dashboard_quip_network.Examples.Instances.{plain_json, winner_tables}

abbrev pub zeros : List ℕ → List ℕ
zeros rest = 0 ∷ 0 ∷ 0 ∷ 0 ∷ 0 ∷ 0 ∷ 0 ∷ 0 ∷ rest

abbrev pub zero_digits : List ℕ → List ℕ
zero_digits rest = b'0' ∷ b'0' ∷ b'0' ∷ b'0' ∷ b'0' ∷ b'0' ∷ b'0' ∷ b'0' ∷ rest

abbrev pub zero_hash : BlockHash
zero_hash = record {
  bytes = zeros (zeros (zeros (zeros [])));
  text =
      b'0'
      ∷ b'x'
      ∷ zero_digits (
          zero_digits
            (zero_digits (zero_digits (zero_digits (zero_digits (zero_digits (zero_digits [])))))));
}

abbrev pub bound_meta : Meta
bound_meta genesis = some upper
bound_meta _ = none

abbrev pub Rows : Type 0
Rows = List (Text × Text)

abbrev pub bound_store : Store Rows
bound_store = record {
  writer = true;
  db = record {
    meta = bound_meta;
    finalized = [];
    scans = [];
    scan_winners = [];
    unavailable = [];
    rows = [];
  };
}

abbrev pub clock : Text
clock = b'T' ∷ []

abbrev batch : BlockCommit winner_tables
batch = record {
  genesis = upper_hash;
  hash = zero_hash;
  height = forty_two;
  guards = record { indexable = winners; expected = 1 } ∷ [];
  records = record {
    winner = some (record {
      substrate_block_number = forty_two;
      substrate_block_hash = zero_hash;
      finalized = true;
      details = tt;
    });
    difficulty = none;
    authorship = none;
    participation = [];
  };
  completed = winners ∷ [];
}

abbrev pub at_forty_two : Coverage
at_forty_two = record {
  v = 1;
  gen = 1;
  start = 0;
  low = some 42;
  high = some 42;
  gaps = [];
  pruned_floor = none;
  updated_at = some clock;
}

abbrev pub after_batch : Store Rows
after_batch = record bound_store {
  db = record {
    meta = save_coverage plain_json winners at_forty_two bound_meta;
    finalized = record { height = forty_two.text; hash = zero_hash.text } ∷ [];
    scans = [];
    scan_winners = [];
    unavailable = [];
    rows = (forty_two.text, zero_hash.text) ∷ [];
  };
}

batch_commits :
    commit_block winner_tables plain_json clock batch bound_store ≡ ok (applied, after_batch)
unfolding commit_block Blocks.apply_block Blocks.duplicate_guard Blocks.guarded Blocks.unguarded
    Blocks.affected stale_guard Blocks.existing_hashes Blocks.check_provenance Blocks.write_records
    Blocks.write_option Blocks.write_participants Blocks.complete Blocks.recompute_after
    Blocks.insert_finalized finalized_at height Table.network Table.require_bound Table.generation
    Table.parsed Table.positive Table.coverage Table.decoded Table.save_coverage Table.set_meta
    same_text Hash.eq Hash.same_bytes Coverage.cover Coverage.contains Coverage.extend
    Coverage.empty Coverage.sort_gaps Coverage.subtract_gaps Decimal.parse_u64 Decimal.parse_digits
batch_commits = refl

commit_block-coverage_example :
    ((applied ≡ stale_generation) × (after_batch ≡ bound_store))
    ⊎ ((n : ℕ) × (height forty_two ≡ ok n)
        × (applied ≢ stale_generation)
        × ((j : Indexable) (m : ℕ)
            → covered_at plain_json after_batch.db.meta j m ≡ (
                covered_at plain_json bound_meta j m
                || (any (λ i. same_domain i j) (winners ∷ []) && m == n))))
commit_block-coverage_example =
    commit_block-coverage winner_tables plain_json clock batch bound_store after_batch applied
      batch_commits

commit_block-other_example :
    after_batch.db.meta (generation_key difficulty) ≡ bound_meta (generation_key difficulty)
commit_block-other_example =
    commit_block-other winner_tables plain_json clock batch bound_store after_batch applied
      (generation_key difficulty) (omega arith) batch_commits

commit_block-finalized_example :
    (finalized_at forty_two.text after_batch.db.finalized ≢ [])
    × (all (λ x. same_text x zero_hash.text) (finalized_at forty_two.text after_batch.db.finalized)
        ≡ true)
    × ((h : Text)
        → same_text forty_two.text h ≡ false
        → finalized_at h after_batch.db.finalized ≡ finalized_at h [])
commit_block-finalized_example =
    commit_block-finalized winner_tables plain_json clock batch bound_store after_batch applied
      batch_commits (λ e. cc e)

-- The same batch with the guard of a generation that has not come.
abbrev late_batch : BlockCommit winner_tables
late_batch = record batch { guards = record { indexable = winners; expected = 2 } ∷ [] }

late_batch_returns :
    commit_block winner_tables plain_json clock late_batch bound_store
    ≡ ok (stale_generation, bound_store)
unfolding commit_block Blocks.duplicate_guard Blocks.guarded Blocks.unguarded Blocks.affected
    stale_guard height Table.network Table.require_bound Table.generation Table.parsed
    Table.positive same_text Decimal.parse_u64 Decimal.parse_digits
late_batch_returns = refl

commit_block-stale_example :
    ((stale_generation ≡ stale_generation) ↔ AnyStale bound_meta late_batch.guards)
    × (AnyStale bound_meta late_batch.guards → bound_store ≡ bound_store)
    × (stale_generation ≢ stale_generation
        → IsTouched winner_tables late_batch (IsGuarded bound_meta late_batch.guards))
commit_block-stale_example =
    commit_block-stale winner_tables plain_json clock late_batch bound_store bound_store
      stale_generation late_batch_returns
