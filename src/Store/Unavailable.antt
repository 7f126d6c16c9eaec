-- ===== src/Store/Unavailable.antt =====
-- The absence markers of coverage.rs: `mark_unavailable`, `is_unavailable` and `retryable_range`.
pub mod Retry
use dashboard_quip_network.Prelude.{
  ℕ, ◌-◌, Bool, true, false, not, ◌&&◌, ◌||◌, Option, none, some, List, [], ◌∷◌, ◌++◌, any, ltb,
  leb, ◌==◌, if◌then◌else◌, Result, ok, err, ◌>>=◌, ◌>>◌, refuse_if, ok_or, is_some_and, compare,
  Ordering,
}
use dashboard_quip_network.Prelude.Texts.{same_text}
use dashboard_quip_network.Prelude.Words.{checked_add}
use dashboard_quip_network.Errors.{StoreError, invalid, read_only, conflicting_history}
use dashboard_quip_network.Decimal.{
  Text, DecimalString, parse_u64, print_u64, utf8_len, compare_text, then_with,
}
use dashboard_quip_network.Hash.{BlockHash}
use dashboard_quip_network.Coverage.{Coverage, contains}
use dashboard_quip_network.Store.{
  CommitResult, applied, already_applied, stale_generation, Indexable, winners, difficulty,
  same_domain, GenerationGuard, UnavailableReason, missing_retained_nonce,
  missing_retained_difficulty, UnavailableRow, Meta, Db, Store, Json,
}
use dashboard_quip_network.Store.Meta.{generation, height, network, coverage}
use dashboard_quip_network.Store.Blocks.{Tables, insert_finalized, finalized_at}

pub record UnavailableBlock : Type 0 where
  pub guard : GenerationGuard
  pub height : DecimalString
  pub hash : BlockHash
  pub enrichment_at : BlockHash
  pub reason : UnavailableReason

unfoldable pub valid_domain : UnavailableReason → Indexable
valid_domain missing_retained_nonce = winners
valid_domain missing_retained_difficulty = difficulty

-- The primary key of dashboard_unavailable.
unfoldable pub marks : Indexable → Text → Text → UnavailableRow → Bool
marks i gen h r = same_domain r.domain i && same_text r.generation gen && same_text r.height h

unfoldable pub marked : Indexable → Text → Text → List UnavailableRow → Bool
marked i gen h rows = any (marks i gen h) rows

-- `n.checked_add(1)`, as text or NULL
unfoldable pub successor : ℕ → Option Text
successor n = elim (checked_add n 1) [ none ↦ none | some m ↦ some (print_u64 m) ]

unfoldable pub marker : Text → UnavailableBlock → ℕ → UnavailableRow
marker now b n = record {
  domain = b.guard.indexable;
  generation = print_u64 b.guard.expected;
  height = b.height.text;
  block_hash = b.hash.text;
  enrichment_hash = b.enrichment_at.text;
  reason = b.reason;
  observed_at = now;
  next_height = successor n;
}

module _ (codec : Json) (tables : Tables) (now : Text) where
  open tables use {Rows, hashes_at}

  -- The insertions, DO NOTHING where the key is taken, and COMMIT.
  unfoldable pub record_marker : UnavailableBlock → ℕ → Store Rows → CommitResult × Store Rows
  record_marker b n s =
      let known =
        marked b.guard.indexable (print_u64 b.guard.expected) b.height.text s.db.unavailable in
      (
        if known then already_applied else applied,
        record s {
          db = record (s.db) {
            unavailable = if known then s.db.unavailable else marker now b n ∷ s.db.unavailable;
            finalized = insert_finalized b.height.text b.hash.text s.db.finalized;
          };
        },
      )

  unfoldable pub mark_current :
      UnavailableBlock → ℕ → Store Rows → Result StoreError (CommitResult × Store Rows)
  mark_current b n s = do
    refuse_if
        (any (λ x. not (same_text x b.hash.text))
          (finalized_at b.height.text s.db.finalized ++ hashes_at b.height.text s.db.rows))
        (conflicting_history b.height.text)
    cov ← coverage codec s.db.meta b.guard.indexable 0
    if contains cov n n then ok (already_applied, s) else ok (record_marker b n s)

  unfoldable pub mark_unavailable :
      BlockHash → UnavailableBlock → Store Rows → Result StoreError (CommitResult × Store Rows)
  mark_unavailable g b s = do
    refuse_if (not (same_domain b.guard.indexable (valid_domain b.reason)))
        (invalid "unavailable reason does not match domain")
    n ← height b.height
    refuse_if (not s.writer) read_only
    network s.db.meta g
    if generation s.db.meta b.guard.indexable == b.guard.expected
        then mark_current b n s
        else ok (stale_generation, s)

-- `is_unavailable`
unfoldable pub is_unavailable : Indexable → ℕ → ℕ → List UnavailableRow → Bool
is_unavailable i expected height rows = marked i (print_u64 expected) (print_u64 height) rows

-- `decimal_gt`, and the order of ORDER BY length(x),x.
unfoldable pub decimal_gt : Text → Text → Bool
decimal_gt a b = elim (then_with (compare (utf8_len a) (utf8_len b)) (compare_text a b)) [
  | Ordering.gt ↦ true
  | _ ↦ false
]

-- ORDER BY length(x),x LIMIT 1
unfoldable pub first_decimal : List Text → Option Text
first_decimal [] = none
first_decimal (a ∷ others) = elim (first_decimal others) [
  | none ↦ some a
  | some b ↦ if decimal_gt a b then some b else some a
]

-- The rows of the domain's generation.
unfoldable pub of_generation : Indexable → Text → UnavailableRow → Bool
of_generation i gen r = same_domain r.domain i && same_text r.generation gen

-- The heights selected after `from`, at most `through`.
unfoldable pub marked_heights : Indexable → Text → Text → Text → List UnavailableRow → List Text
marked_heights i gen from through [] = []
marked_heights i gen from through (r ∷ rows) =
    let rest = marked_heights i gen from through rows in
    if of_generation i gen r && decimal_gt r.height from && not (decimal_gt r.height through)
    then r.height ∷ rest
    else rest

-- The candidate successors; `table` is the whole table that NOT EXISTS asks.
unfoldable pub candidates :
    Indexable → Text → Text → Text → List UnavailableRow → List UnavailableRow → List Text
candidates i gen from through table [] = []
candidates i gen from through table (r ∷ rows) =
    let rest = candidates i gen from through table rows in
    elim r.next_height [
      | none ↦ rest
      | some h ↦
          if of_generation i gen r
            && decimal_gt h from
            && not (decimal_gt h through)
            && not (marked i gen h table)
          then h ∷ rest
          else rest
    ]

-- Where the retry starts, if it can.
unfoldable pub retry_start :
    Indexable → ℕ → ℕ → ℕ → List UnavailableRow → Result StoreError (Option ℕ)
retry_start i expected from through rows =
    if is_unavailable i expected from rows
    then elim (first_decimal
        (candidates i (print_u64 expected) (print_u64 from) (print_u64 through) rows rows)) [
          | none ↦ ok none
          | some h ↦ do
            n ← ok_or (parse_u64 h) (invalid "invalid unavailable successor")
            ok (some n)
        ]
    else ok (some from)

-- `checked_sub(1)`
abbrev before : ℕ → Option ℕ
before n = if n == 0 then none else some (n - 1)

unfoldable pub retry_end : Indexable → ℕ → ℕ → ℕ → List UnavailableRow → Result StoreError ℕ
retry_end i expected start through rows =
    elim (first_decimal
      (marked_heights i (print_u64 expected) (print_u64 start) (print_u64 through) rows)) [
        | none ↦ ok through
        | some h ↦ do
          n ← ok_or (parse_u64 h) (invalid "invalid unavailable height")
          ok_or (before n) (invalid "invalid retry boundary")
      ]

unfoldable pub retryable_range :
    Indexable → ℕ → ℕ → ℕ → List UnavailableRow → Result StoreError (Option (ℕ × ℕ))
retryable_range i expected from through rows = do
  refuse_if (ltb through from) (invalid "reversed retry range")
  start ← retry_start i expected from through rows
  elim start [
    | none ↦ ok none
    | some a ↦ do b ← retry_end i expected a through rows; ok (some (a, b))
  ]
