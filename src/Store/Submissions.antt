-- ===== src/Store/Submissions.antt =====
-- crates/dashboard-store/src/miners.rs: the submissions of the local miners and the checkpoint of each
-- miner, which is a row of the table meta under `mining_checkpoint:<miner>`.
pub mod Checkpoints
pub mod Commit
use dashboard_quip_network.Prelude.{
  ℕ, Bool, true, false, ◌&&◌, ◌||◌, not, Option, none, some, List, [], ◌∷◌, ltb, leb, ◌==◌,
  if◌then◌else◌, Result, ok, err, ◌>>=◌, ◌>>◌, refuse_if, ok_or,
}
use dashboard_quip_network.Prelude.Texts.{same_text}
use dashboard_quip_network.Errors.{StoreError, invalid, read_only, network_identity}
use dashboard_quip_network.Decimal.{Text, parse_u64, print_u64}

-- The fields that these operations read; `details` is the rest.
pub record Submission (D : Type 0) : Type 0 where
  pub miner_id : Text
  pub solution_number : ℕ
  pub observed_at : Text
  pub details : D

-- The table mining_submissions, the bound genesis, and the checkpoints by miner.
pub record MiningDb (D : Type 0) : Type 0 where
  pub genesis : Option Text
  pub submissions : List (Submission D)
  pub checkpoint : Text → Option Text

pub record MiningStore (D : Type 0) : Type 0 where
  pub writer : Bool
  pub db : MiningDb D

-- The stored checkpoint, 0 where there is none.
unfoldable pub parsed_checkpoint : Option Text → Result StoreError ℕ
parsed_checkpoint none = ok 0
parsed_checkpoint (some t) = ok_or (parse_u64 t) (invalid "checkpoint")

unfoldable pub set_checkpoint : Text → Option Text → (Text → Option Text) → Text → Option Text
set_checkpoint miner value table other = if same_text other miner then value else table other

unfoldable pub advance : Text → ℕ → ℕ → (Text → Option Text) → Text → Option Text
advance miner old checkpoint table =
    if leb old checkpoint then set_checkpoint miner (some (print_u64 checkpoint)) table else table

module _ {D : Type 0} where
  abbrev pub same_key : Submission D → Submission D → Bool
  same_key x r = same_text x.miner_id r.miner_id && x.solution_number == r.solution_number

  -- The upsert by miner and number, which keeps `observed_at` of the row that is there.
  unfoldable pub upsert_submission : Submission D → List (Submission D) → List (Submission D)
  upsert_submission r [] = r ∷ []
  upsert_submission r (x ∷ xs) =
      let rest = upsert_submission r xs in
      if same_key x r then record r { observed_at = x.observed_at } ∷ xs else x ∷ rest

  -- The loop of `commit_mining_submissions`.
  unfoldable pub commit_rows :
      Text → ℕ → List (Submission D) → List (Submission D) → Result StoreError (List (Submission D))
  commit_rows miner checkpoint [] rows = ok rows
  commit_rows miner checkpoint (r ∷ rs) rows = do
    refuse_if (not (same_text r.miner_id miner) || ltb checkpoint r.solution_number)
        (invalid "submission does not belong to checkpoint")
    commit_rows miner checkpoint rs (upsert_submission r rows)

  unfoldable pub commit_mining_submissions :
      Text → List (Submission D) → ℕ → MiningStore D → Result StoreError (MiningStore D)
  commit_mining_submissions miner records checkpoint s = do
    refuse_if (not s.writer) read_only
    bound ← ok_or s.db.genesis network_identity
    rows ← commit_rows miner checkpoint records s.db.submissions
    old ← parsed_checkpoint (s.db.checkpoint miner)
    ok (record s {
      db = record (s.db) {
        submissions = rows;
        checkpoint = advance miner old checkpoint s.db.checkpoint;
      };
    })

  unfoldable pub drop_miner : Text → List (Submission D) → List (Submission D)
  drop_miner miner [] = []
  drop_miner miner (x ∷ xs) =
      let rest = drop_miner miner xs in if same_text x.miner_id miner then rest else x ∷ rest

  unfoldable pub reset_mining_history : Text → MiningStore D → Result StoreError (MiningStore D)
  reset_mining_history miner s = do
    refuse_if (not s.writer) read_only
    bound ← ok_or s.db.genesis network_identity
    ok (record s {
      db = record (s.db) {
        submissions = drop_miner miner s.db.submissions;
        checkpoint = set_checkpoint miner none s.db.checkpoint;
      };
    })

  unfoldable pub get_mining_checkpoint : Text → MiningStore D → Result StoreError (Option ℕ)
  get_mining_checkpoint miner s = elim (s.db.checkpoint miner) [
    | none ↦ ok none
    | some t ↦ ok_or (parse_u64 t) (invalid "checkpoint") >>= (λ n. ok (some n))
  ]
