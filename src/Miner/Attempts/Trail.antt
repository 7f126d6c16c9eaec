-- ===== src/Miner/Attempts/Trail.antt =====
-- miner/parse.rs: what the fold over the rows of a solution keeps and counts.
use dashboard_quip_network.Prelude.{
  ℕ, ◌+◌, ◌*◌, ◌≡◌, ◌≤◌, ◌<◌, Bool, true, Option, none, some, List, [], ◌∷◌, ◌++◌, leb, length, All,
  All-map, Bool-cases, inl, inr, arith, refl, min, length-append, ◌∙◌, ap, sym, subst,
}
use dashboard_quip_network.Prelude.Ints.{ℤ, pos, saturating_add_i64, i64_max}
use dashboard_quip_network.Miner.Json.{
  Value, null, boolean, number, string, array, object, Items, no_items, item, Fields,
}
use dashboard_quip_network.Miner.Attempts.{
  attempt_trail_limit, MiningAttempt, key_le, parse_attempt, AttemptTrail, default, push_newest,
  push_attempt, push_parsed, push_summary, push, push_all, into_newest, least,
}
use dashboard_quip_network.Miner.Attempts.Newest.{
  count_of, count_of-append, count_of-le, length-count_of, AllAfter, AllAfter-count_of, IsTrimmed,
  keep_newest_attempts-IsTrimmed, length-keep_newest_attempts,
}

-- The row that a value is read as, and the rows of all of them, in their order.
abbrev pub parsed_row : Value → Option MiningAttempt
parsed_row (object obj) = parse_attempt obj
parsed_row null = none
parsed_row (boolean b) = none
parsed_row (number n) = none
parsed_row (string s) = none
parsed_row (array xs) = none

abbrev pub add_row : Option MiningAttempt → List MiningAttempt → List MiningAttempt
add_row none rows = rows
add_row (some a) rows = rows ++ a ∷ []

abbrev pub parsed_rows : List MiningAttempt → Items → List MiningAttempt
parsed_rows rows no_items = rows
parsed_rows rows (item v rest) = parsed_rows (add_row (parsed_row v) rows) rest

abbrev pub least_of : Option ℤ → List MiningAttempt → Option ℤ
least_of best [] = best
least_of best (a ∷ bs) = least_of (some (least best a.best_energy_milli)) bs

abbrev pub counted : ℕ → ℤ
counted n = pos (min n i64_max)

-- The state of the fold after some rows.
pub record IsFolded (rows : List MiningAttempt) (trail : AttemptTrail) : Type 0 where
  pub count : trail.count ≡ counted (length rows)
  pub best : trail.best_energy_milli ≡ least_of none rows
  pub bounded : length trail.newest < 2 * attempt_trail_limit
  pub trimmed : (dropped : List MiningAttempt) × IsTrimmed rows trail.newest dropped

least_of-append :
    (best : Option ℤ) (rows : List MiningAttempt) (a : MiningAttempt)
    → least_of best (rows ++ a ∷ []) ≡ some (least (least_of best rows) a.best_energy_milli)
least_of-append best [] a = refl
least_of-append best (b ∷ bs) a = least_of-append (some (least best b.best_energy_milli)) bs a

push-IsTrimmed :
    (rows kept dropped : List MiningAttempt) (a : MiningAttempt)
    → IsTrimmed rows kept dropped
    → IsTrimmed (rows ++ a ∷ []) (kept ++ a ∷ []) dropped
push-IsTrimmed rows kept dropped a h = record {
  counts = λ p.
      omega (arith, h.counts p, count_of-append p rows (a ∷ []), count_of-append p kept (a ∷ []));
  newer =
      All-map (λ d. attempt_trail_limit ≤ count_of (key_le d) kept)
        (λ d. attempt_trail_limit ≤ count_of (key_le d) (kept ++ a ∷ []))
        (λ d enough. omega (arith, count_of-append (key_le d) kept (a ∷ []))) dropped h.newer;
}

push_newest-IsTrimmed :
    (rows kept dropped : List MiningAttempt) (a : MiningAttempt)
    → IsTrimmed rows kept dropped
    → (dropped' : List MiningAttempt) × IsTrimmed (rows ++ a ∷ []) (push_newest kept a) dropped'
unfolding push_newest
push_newest-IsTrimmed rows kept dropped a h =
    elim (Bool-cases (leb (2 * attempt_trail_limit) (length (kept ++ a ∷ [])))) [
      | inl many ↦ rw many (
          keep_newest_attempts-IsTrimmed (rows ++ a ∷ []) (kept ++ a ∷ []) dropped
            (push-IsTrimmed rows kept dropped a h))
      | inr few ↦ rw few (dropped, push-IsTrimmed rows kept dropped a h)
    ]

length-push_newest :
    (kept : List MiningAttempt) (a : MiningAttempt)
    → length kept < 2 * attempt_trail_limit
    → length (push_newest kept a) < 2 * attempt_trail_limit
unfolding push_newest
length-push_newest kept a h =
    ground (arith, length-append kept (a ∷ []), length-keep_newest_attempts (kept ++ a ∷ []))

counted-suc : (n : ℕ) → saturating_add_i64 (counted n) (pos 1) ≡ counted (n + 1)
counted-suc n = ap pos (omega arith)

push_attempt-IsFolded :
    (rows : List MiningAttempt) (trail : AttemptTrail) (a : MiningAttempt)
    → IsFolded rows trail
    → IsFolded (rows ++ a ∷ []) (push_attempt a trail)
unfolding push_attempt
push_attempt-IsFolded rows trail a h = record {
  count =
      subst (λ n. saturating_add_i64 n (pos 1) ≡ counted (length (rows ++ a ∷ []))) (sym h.count)
        (counted-suc (length rows) ∙ ap counted (omega (arith, length-append rows (a ∷ []))));
  best = ap (λ o. some (least o a.best_energy_milli)) h.best ∙ sym (least_of-append none rows a);
  bounded = length-push_newest trail.newest a h.bounded;
  trimmed = push_newest-IsTrimmed rows trail.newest h.trimmed.0 a h.trimmed.1;
}

push_summary-IsFolded :
    (rows : List MiningAttempt) (trail : AttemptTrail) (obj : Fields)
    → IsFolded rows trail
    → IsFolded rows (push_summary obj trail)
unfolding push_summary
push_summary-IsFolded rows trail obj h = record {
  count = h.count;
  best = h.best;
  bounded = h.bounded;
  trimmed = h.trimmed;
}

push_parsed-IsFolded :
    (rows : List MiningAttempt) (trail : AttemptTrail) (o : Option MiningAttempt)
    → IsFolded rows trail
    → IsFolded (add_row o rows) (push_parsed o trail)
unfolding push_parsed
push_parsed-IsFolded rows trail none h = h
push_parsed-IsFolded rows trail (some a) h = push_attempt-IsFolded rows trail a h

push-IsFolded :
    (rows : List MiningAttempt) (trail : AttemptTrail) (v : Value)
    → IsFolded rows trail
    → IsFolded (add_row (parsed_row v) rows) (push v trail)
unfolding push
push-IsFolded rows trail (object obj) h =
    push_parsed-IsFolded rows (push_summary obj trail) (parse_attempt obj)
      (push_summary-IsFolded rows trail obj h)
push-IsFolded rows trail null h = h
push-IsFolded rows trail (boolean b) h = h
push-IsFolded rows trail (number n) h = h
push-IsFolded rows trail (string s) h = h
push-IsFolded rows trail (array xs) h = h

push_all_from-IsFolded :
    (rows : List MiningAttempt) (trail : AttemptTrail) (values : Items)
    → IsFolded rows trail
    → IsFolded (parsed_rows rows values) (push_all values trail)
unfolding push_all
push_all_from-IsFolded rows trail no_items h = h
push_all_from-IsFolded rows trail (item v rest) h =
    push_all_from-IsFolded (add_row (parsed_row v) rows) (push v trail) rest
      (push-IsFolded rows trail v h)

default-IsFolded : IsFolded [] default
default-IsFolded = record {
  count = refl;
  best = refl;
  bounded = omega arith;
  trimmed = ([], record { counts = λ p. omega arith; newer = tt });
}

-- After any rows the trail holds fewer than twice the limit of parsed rows, its count is the
-- number of rows parsed up to the largest i64, its best energy is the least of theirs, and each
-- row it dropped has as many newer or equal rows kept as the limit.
pub push_all-IsFolded :
    (values : Items) → IsFolded (parsed_rows [] values) (push_all values default)
push_all-IsFolded values = push_all_from-IsFolded [] default values default-IsFolded

trimmed-length :
    (rows kept dropped : List MiningAttempt)
    → length kept ≤ attempt_trail_limit
    → IsTrimmed rows kept dropped
    → length kept ≡ min (length rows) attempt_trail_limit
trimmed-length rows kept [] small h =
    omega (arith, h.counts (λ a. true), length-count_of rows, length-count_of kept)
trimmed-length rows kept (d ∷ ds) small h = omega (
  arith,
  h.counts (λ a. true),
  h.newer.0,
  count_of-le (key_le d) kept,
  length-count_of rows,
  length-count_of kept,
)

trimmed-AllAfter :
    (rows kept dropped : List MiningAttempt)
    → length kept ≤ attempt_trail_limit
    → IsTrimmed rows kept dropped
    → All (λ d. AllAfter d kept) dropped
trimmed-AllAfter rows kept dropped small h =
    All-map (λ d. attempt_trail_limit ≤ count_of (key_le d) kept) (λ d. AllAfter d kept)
      (λ d enough. AllAfter-count_of d kept (omega arith)) dropped h.newer

into_newest-IsTrimmed :
    (values : Items)
    → (dropped : List MiningAttempt) × IsTrimmed
        (parsed_rows [] values)
        (into_newest (push_all values default))
        dropped
unfolding into_newest
into_newest-IsTrimmed values =
    let (dropped, trimmed) = (push_all-IsFolded values).trimmed in
    keep_newest_attempts-IsTrimmed (parsed_rows [] values) (push_all values default).newest dropped
      trimmed

length-into_newest : (trail : AttemptTrail) → length (into_newest trail) ≤ attempt_trail_limit
unfolding into_newest
length-into_newest trail = omega (arith, length-keep_newest_attempts trail.newest)

-- The rows kept of a trail are as many as were parsed, or the limit if that is less; with those
-- dropped they are all the parsed rows, and no dropped row is newer than a kept one.
pub into_newest-newest :
    (values : Items)
    → let kept = into_newest (push_all values default) in
      let rows = parsed_rows [] values in
      (length kept ≡ min (length rows) attempt_trail_limit)
      × ((dropped : List MiningAttempt) × ((p : MiningAttempt → Bool)
            → count_of p rows ≡ count_of p kept + count_of p dropped)
          × All (λ d. AllAfter d kept) dropped)
into_newest-newest values =
    let kept = into_newest (push_all values default) in
    let small = length-into_newest (push_all values default) in
    let (dropped, h) = into_newest-IsTrimmed values in
    (
      trimmed-length (parsed_rows [] values) kept dropped small h,
      (dropped, h.counts, trimmed-AllAfter (parsed_rows [] values) kept dropped small h),
    )
