-- ===== src/Indexer/Replay/Loop.antt =====
-- backfill.rs: the loop of a replay, whose ranges hold no winner that it left uncovered.
use dashboard_quip_network.Prelude.{ℕ}
use dashboard_quip_network.Indexer.Replay.{Replayer, Replay}
use dashboard_quip_network.Indexer.Replay.Ranges.{position, IsReplayed, IsBehind}

module _ {S : Type 0} (calls : Replayer S) where
  -- The state after the rows.
  abbrev IsDone : ℕ → ℕ → Replay S → Type 0
  IsDone from ceiling st =
      IsReplayed from st.cursor st.finished st.skipped
      × IsBehind from ceiling st.last (position st.cursor)
