-- ===== src/Indexer/History.antt =====
-- crates/quip-dashboard/src/indexer/reconcile.rs: `reconstruct_first_seen`, which searches the history
-- for the first block of each descriptor. The pages of the chain are an argument, and so are the reads
-- of the chain and the operations of the store.
pub mod Search
use dashboard_quip_network.Prelude.{
  ℕ, zero, suc, ◌+◌, ◌-◌, ◌/◌, Bool, true, false, Option, none, some, List, [], ◌∷◌, ltb, ◌==◌,
  if◌then◌else◌, Result, ok, err, ◌>>=◌, ok_or,
}
use dashboard_quip_network.Prelude.Words.{checked_add}
use dashboard_quip_network.Indexer.{IndexerError, invalid_data}

abbrev pub middle_of : ℕ → ℕ → ℕ
middle_of low high = low + (high - low) / 2

-- One round: whether there is a range left, what the chain answers at its middle, and the next round.
abbrev pub round :
    Bool
    → Result IndexerError Bool
    → (Bool → Option (Result IndexerError ℕ))
    → ℕ
    → Option (Result IndexerError ℕ)
round false answer next low = some (ok low)
round true (err e) next low = some (err e)
round true (ok found) next low = next found

-- The loop of the search; `present` reads the hash of a block and the descriptor at it. It has no
-- result when the fuel is used up.
unfoldable pub search : (ℕ → Result IndexerError Bool) → ℕ → ℕ → ℕ → Option (Result IndexerError ℕ)
search present zero low high = none
search present (suc fuel) low high =
    round (ltb low high) (present (middle_of low high))
      (λ found. elim found [
        | true ↦ search present fuel low (middle_of low high)
        | false ↦ search present fuel (middle_of low high + 1) high
      ])
      low

-- The operations on a descriptor: whether the store has it, the reads of the chain at a height, and the
-- write of the time of the block found.
pub record Archive (A S : Type 0) : Type 0 where
  pub known : A → S → Result IndexerError Bool
  pub present : A → ℕ → Result IndexerError Bool
  pub timestamp : ℕ → Result IndexerError ℕ
  pub record_first_seen : A → ℕ → S → Result IndexerError S

-- 64 rounds, enough for a `u64`.
abbrev pub rounds : ℕ
rounds = 65

abbrev pub search_result : Option (Result IndexerError ℕ) → Result IndexerError ℕ
search_result none = err (invalid_data "search did not end")
search_result (some r) = r

module _ {A S : Type 0} (archive : Archive A S) where
  -- One known descriptor: its first block, the time of it, the write, and the count.
  unfoldable pub reconstruct_known : ℕ → A → ℕ × S → Result IndexerError (ℕ × S)
  reconstruct_known height account (processed, s) = do
    low ← search_result (search (archive.present account) rounds 1 height)
    time ← archive.timestamp low
    s' ← archive.record_first_seen account time s
    count ← ok_or (checked_add processed 1) (invalid_data "descriptor count overflow")
    ok (count, s')

  unfoldable pub reconstruct_one : ℕ → A → ℕ × S → Result IndexerError (ℕ × S)
  reconstruct_one height account (processed, s) = do
    has ← archive.known account s
    if has then reconstruct_known height account (processed, s) else ok (processed, s)

  unfoldable pub reconstruct_page : ℕ → List A → ℕ × S → Result IndexerError (ℕ × S)
  reconstruct_page height [] state = ok state
  reconstruct_page height (account ∷ rest) state = do
    next ← reconstruct_one height account state
    reconstruct_page height rest next

  -- The loop over the pages of the traversal, which ends where a page has no continuation.
  unfoldable pub reconstruct_pages :
      ℕ → List (Result IndexerError (List A)) → ℕ × S → Result IndexerError (ℕ × S)
  reconstruct_pages height [] state = ok state
  reconstruct_pages height (page ∷ pages) state = do
    entries ← page
    next ← reconstruct_page height entries state
    reconstruct_pages height pages next

  unfoldable pub reconstruct_first_seen :
      ℕ → List (Result IndexerError (List A)) → S → Result IndexerError (ℕ × S)
  reconstruct_first_seen height pages s =
      if height == 0 then ok (0, s) else reconstruct_pages height pages (0, s)
