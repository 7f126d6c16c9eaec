-- ===== src/Indexer/Replay.antt =====
-- crates/quip-dashboard/src/indexer/backfill.rs: the loop of `sparse_chunk` over the winners of a scan,
-- which fetches them and completes the ranges between those that stay uncovered. `finished` and
-- `skipped` are the ranges that were given to `finish_range` and the heights found uncovered.
pub mod Loop
pub mod Rows
pub mod Settled
pub mod Ranges
use dashboard_quip_network.Prelude.{
  ℕ, ◌+◌, ◌-◌, Bool, true, false, Option, none, some, List, [], ◌∷◌, ◌++◌, leb, ltb, ◌==◌, not,
  length, if◌then◌else◌, Result, ok, err, ◌>>=◌, is_some_and, is_none_or,
}
use dashboard_quip_network.Prelude.Words.{checked_add}
use dashboard_quip_network.Coverage.{Coverage, Interval, contains}
use dashboard_quip_network.Decimal
use dashboard_quip_network.Decimal.{DecimalString}
use dashboard_quip_network.Indexer.{IndexerError, invalid_data}

-- `to_u64` with the error of the indexer; its message is without the value here.
unfoldable pub row_height : DecimalString → Result IndexerError ℕ
row_height row = elim (Decimal.to_u64 row) [
  | ok n ↦ ok n
  | err e ↦ err (invalid_data "decimal string does not fit in u64")
]

-- What the loop calls: `backfill_block` with a height and the height of the target, the stored coverage
-- of the domain, and `finish_range`.
pub record Replayer (S : Type 0) : Type 0 where
  pub backfill_block : ℕ → ℕ → S → Result IndexerError S
  pub coverage : S → Result IndexerError (Option Coverage)
  pub finish_range : ℕ → ℕ → S → Result IndexerError S

-- The locals of the loop, and the store.
pub record Replay (S : Type 0) : Type 0 where
  pub store : S
  pub cursor : Option ℕ
  pub last : Option ℕ
  pub finished : List Interval
  pub skipped : List ℕ

abbrev pub new_replay : {S : Type 0} → ℕ → S → Replay S
new_replay from s = record {
  store = s;
  cursor = some from;
  last = none;
  finished = [];
  skipped = [];
}

abbrev pub replay_limit : ℕ
replay_limit = 16

module _ {S : Type 0} (calls : Replayer S) where
  unfoldable pub finish : ℕ → ℕ → Replay S → Result IndexerError (Replay S)
  finish from through st = calls.finish_range from through st.store >>= (λ s'. ok (record st {
    store = s';
    finished = st.finished ++ record { first = from; last = through } ∷ [];
  }))

  -- The range before an uncovered height, if the cursor stands below it.
  unfoldable pub finish_before : Option ℕ → ℕ → Replay S → Result IndexerError (Replay S)
  finish_before none height st = ok st
  finish_before (some start) height st =
      if ltb start height then finish start (height - 1) st else ok st

  unfoldable pub skip_height : ℕ → Replay S → Result IndexerError (Replay S)
  skip_height height st =
      finish_before st.cursor height st
      >>= (λ st'. ok (record st' { cursor = checked_add height 1; skipped = height ∷ st'.skipped }))

  unfoldable pub settle_height : Bool → ℕ → Replay S → Result IndexerError (Replay S)
  settle_height true height st = ok (record st { last = some height })
  settle_height false height st =
      skip_height height st >>= (λ st'. ok (record st' { last = some height }))

  -- `false` where the generation has changed, and then the chunk ends. `finalized` is the pinned
  -- height of the scan.
  unfoldable pub replay_rows :
      DecimalString → ℕ → ℕ → List DecimalString → Replay S → Result IndexerError (Bool × Replay S)
  replay_rows finalized ceiling generation [] st = ok (true, st)
  replay_rows finalized ceiling generation (row ∷ rest) st = do
    height ← row_height row
    if ltb ceiling height then ok (true, record st { last = some ceiling }) else (do
      target ← row_height finalized
      fetched ← calls.backfill_block height target st.store
      current ← calls.coverage fetched
      if is_none_or current (λ c. not (c.gen == generation))
          then ok (false, record st { store = fetched })
          else (do
            st' ←
                settle_height (is_some_and current (λ c. contains c height height)) height
                  (record st { store = fetched })
            replay_rows finalized ceiling generation rest st'))

  -- Up to where the rows prove the winners: all of the scan, or the last of a full page.
  unfoldable pub replay_end : ℕ → ℕ → Replay S → Option ℕ
  replay_end ceiling count st = if ltb count replay_limit then some ceiling else st.last

  unfoldable pub finish_after : Option ℕ → Option ℕ → Replay S → Result IndexerError (Replay S)
  finish_after none last st = ok st
  finish_after (some start) none st = ok st
  finish_after (some start) (some last) st = if leb start last then finish start last st else ok st

  unfoldable pub replay_close : ℕ → ℕ → Bool × Replay S → Result IndexerError (Bool × Replay S)
  replay_close ceiling count (false, st) = ok (false, st)
  replay_close ceiling count (true, st) =
      finish_after st.cursor (replay_end ceiling count st) st >>= (λ st'. ok (true, st'))

  unfoldable pub replay :
      DecimalString → ℕ → ℕ → ℕ → List DecimalString → S → Result IndexerError (Bool × Replay S)
  replay finalized from ceiling generation rows s =
      replay_rows finalized ceiling generation rows (new_replay from s)
      >>= (λ end. replay_close ceiling (length rows) end)
