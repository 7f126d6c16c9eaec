-- ===== src/Store/Submissions/Commit.antt =====
-- miners.rs: the commit and the reset of the submissions of a miner.
use dashboard_quip_network.Prelude.{
  ℕ, ◌≡◌, ◌≤◌, false, ◌||◌, not, none, List, [], ◌∷◌, ltb, max, ok, >>=-eq-ok, ok-injective,
  refuse_if-false, ok_or, All, All-map, arith, Bool-cases, inl, inr, sym, subst,
}
use dashboard_quip_network.Prelude.Words.{u64_max}
use dashboard_quip_network.Prelude.Texts.{same_text, same_text-eq}
use dashboard_quip_network.Errors.{network_identity}
use dashboard_quip_network.Decimal.{Text}
use dashboard_quip_network.Store.Submissions.{
  Submission, MiningStore, same_key, upsert_submission, commit_rows, parsed_checkpoint,
  set_checkpoint, advance, commit_mining_submissions, drop_miner, reset_mining_history,
}
use dashboard_quip_network.Store.Submissions.Checkpoints.{
  IsReached, IsCheckpoint, parsed_checkpoint-IsCheckpoint, advance-other, advance-IsReached,
  advance-keeps, advance-IsCheckpoint, IsCheckpoint-unique, set_checkpoint_self, reset_other,
}

module _ {D : Type 0} (Q : Text → ℕ → Type 0) where
  abbrev Holds : Submission D → Type 0
  Holds x = Q x.miner_id x.solution_number

  upsert-Holds :
      (r : Submission D) (rows : List (Submission D))
      → Holds r
      → All Holds rows
      → All Holds (upsert_submission r rows)
  unfolding upsert_submission
  upsert-Holds r [] hr h = (hr, tt)
  upsert-Holds r (x ∷ xs) hr h = elim (Bool-cases (same_key x r)) [
    | inl same ↦ rw same (hr, h.1)
    | inr apart ↦ rw apart (h.0, upsert-Holds r xs hr h.1)
  ]

  commit_rows-Holds :
      (miner : Text) (checkpoint : ℕ) (rs rows after : List (Submission D))
      → ((n : ℕ) → n ≤ checkpoint → Q miner n)
      → commit_rows miner checkpoint rs rows ≡ ok after
      → All Holds rows
      → All Holds after
  unfolding commit_rows
  commit_rows-Holds miner checkpoint [] rows after new e h = subst (All Holds) (ok-injective e) h
  commit_rows-Holds miner checkpoint (r ∷ rs) rows after new e h =
      let (taken, rest) =
        refuse_if-false (not (same_text r.miner_id miner) || ltb checkpoint r.solution_number) _ _
          e in
      let at : r.miner_id ≡ miner = same_text-eq r.miner_id miner (ground arith) in
      commit_rows-Holds miner checkpoint rs (upsert_submission r rows) after new rest (
        upsert-Holds r rows
          (subst (λ m. Q m r.solution_number) (sym at) (new r.solution_number (ground arith))) h)

  drop_miner-Holds :
      (miner : Text) (rows : List (Submission D))
      → All Holds rows
      → All (λ x. Holds x × (same_text x.miner_id miner ≡ false)) (drop_miner miner rows)
  unfolding drop_miner
  drop_miner-Holds miner [] h = tt
  drop_miner-Holds miner (x ∷ xs) h = elim (Bool-cases (same_text x.miner_id miner)) [
    | inl same ↦ rw same (drop_miner-Holds miner xs h.1)
    | inr apart ↦ rw apart ((h.0, apart), drop_miner-Holds miner xs h.1)
  ]

-- Every submission is at or below the checkpoint of its miner.
abbrev pub IsCheckpointed : {D : Type 0} → MiningStore D → Type 0
IsCheckpointed s =
    All (λ x. IsReached s.db.checkpoint x.miner_id x.solution_number) s.db.submissions

abbrev pub IsCommitted : {D : Type 0} → Text → ℕ → MiningStore D → MiningStore D → Type 0
IsCommitted miner checkpoint s s' =
    (IsCheckpointed s → IsCheckpointed s')
    × ((old : ℕ)
        → IsCheckpoint (s.db.checkpoint miner) old
        → IsCheckpoint (s'.db.checkpoint miner) (max old checkpoint))
    × ((other : Text)
        → same_text other miner ≡ false
        → s'.db.checkpoint other ≡ s.db.checkpoint other)

module _ {D : Type 0} where
  commit-IsCheckpointed :
      (miner : Text) (records rows : List (Submission D)) (checkpoint old : ℕ) (s : MiningStore D)
      → checkpoint ≤ u64_max
      → commit_rows miner checkpoint records s.db.submissions ≡ ok rows
      → IsCheckpoint (s.db.checkpoint miner) old
      → IsCheckpointed s
      → All
          (λ x.
            IsReached (advance miner old checkpoint s.db.checkpoint) x.miner_id x.solution_number)
          rows
  commit-IsCheckpointed miner records rows checkpoint old s fits e stored h =
      commit_rows-Holds (IsReached (advance miner old checkpoint s.db.checkpoint)) miner checkpoint
        records s.db.submissions rows
        (λ n below.
          advance-IsReached miner old checkpoint n s.db.checkpoint fits stored (omega arith))
        e
        (All-map (λ x. IsReached s.db.checkpoint x.miner_id x.solution_number)
          (λ x.
            IsReached (advance miner old checkpoint s.db.checkpoint) x.miner_id x.solution_number)
          (λ x reached.
            advance-keeps miner x.miner_id old checkpoint x.solution_number s.db.checkpoint fits
              stored reached)
          s.db.submissions h)

  -- A successful commit of submissions with a u64 checkpoint keeps every submission at or below
  -- the checkpoint of its miner, raises the checkpoint of the miner to the greater of the stored
  -- one and the one given, and leaves those of other miners.
  pub commit_mining_submissions-IsCommitted :
      (miner : Text) (records : List (Submission D)) (checkpoint : ℕ) (s s' : MiningStore D)
      → checkpoint ≤ u64_max
      → commit_mining_submissions miner records checkpoint s ≡ ok s'
      → IsCommitted miner checkpoint s s'
  unfolding commit_mining_submissions
  commit_mining_submissions-IsCommitted miner records checkpoint s s' fits e =
      let (_, e1) = refuse_if-false (not s.writer) _ _ e in
      let (_, _, e2) = >>=-eq-ok (ok_or s.db.genesis network_identity) _ e1 in
      let (rows, run, e3) =
        >>=-eq-ok (commit_rows miner checkpoint records s.db.submissions) _ e2 in
      let (old, read, e4) = >>=-eq-ok (parsed_checkpoint (s.db.checkpoint miner)) _ e3 in
      let stored = parsed_checkpoint-IsCheckpoint (s.db.checkpoint miner) old read in
      subst (IsCommitted miner checkpoint s) (ok-injective e4) (
        commit-IsCheckpointed miner records rows checkpoint old s fits run stored,
        λ old' stored'.
            subst
              (λ k.
                IsCheckpoint (advance miner old checkpoint s.db.checkpoint miner)
                  (max k checkpoint))
              (IsCheckpoint-unique (s.db.checkpoint miner) old old' stored stored')
              (advance-IsCheckpoint miner old checkpoint s.db.checkpoint fits stored),
        λ other apart. advance-other miner other old checkpoint s.db.checkpoint apart,
      )

  -- A reset of a miner keeps the other submissions below their checkpoints, and drops its own.
  pub reset_mining_history-IsCheckpointed :
      (miner : Text) (s s' : MiningStore D)
      → reset_mining_history miner s ≡ ok s'
      → IsCheckpointed s
      → IsCheckpointed s' × (s'.db.checkpoint miner ≡ none)
  unfolding reset_mining_history
  reset_mining_history-IsCheckpointed miner s s' e h =
      let (_, e1) = refuse_if-false (not s.writer) _ _ e in
      let (_, _, e2) = >>=-eq-ok (ok_or s.db.genesis network_identity) _ e1 in
      subst (λ r. IsCheckpointed r × (r.db.checkpoint miner ≡ none)) (ok-injective e2)
        (
          All-map
              (λ x.
                IsReached s.db.checkpoint x.miner_id x.solution_number
                × (same_text x.miner_id miner ≡ false))
              (λ x.
                IsReached (set_checkpoint miner none s.db.checkpoint) x.miner_id x.solution_number)
              (λ x kept. reset_other miner x.miner_id x.solution_number s.db.checkpoint kept)
              (drop_miner miner s.db.submissions)
              (drop_miner-Holds (IsReached s.db.checkpoint) miner s.db.submissions h),
          set_checkpoint_self miner s.db.checkpoint,
        )
