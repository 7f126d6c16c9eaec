-- ===== src/Examples/Mining.antt =====
-- Runs of the readers of miner answers, and of the commit of submissions.
use dashboard_quip_network.Prelude.{
  ℕ, ◌+◌, ◌≡◌, ◌≤◌, ◌↔◌, Bool, true, none, some, List, [], ◌∷◌, ok, refl, arith, All, length, min,
}
use dashboard_quip_network.Prelude.Ints.{pos, negsuc, unsigned_abs}
use dashboard_quip_network.Decimal.{Text}
use dashboard_quip_network.Miner.Json
use dashboard_quip_network.Miner.Json.{
  max_safe_integer, Number, Value, number, string, object, array, Items, no_items, item, Fields,
  no_fields, field, get, trim, parse_i128, parse_decimal_i64,
}
use dashboard_quip_network.Miner.Json.Bounds.{parse_decimal_i64_iff}
use dashboard_quip_network.Miner.Attempts
use dashboard_quip_network.Miner.Attempts.{
  MiningAttempt, attempt_trail_limit, default, push_all, into_newest,
}
use dashboard_quip_network.Miner.Attempts.Newest.{count_of, AllAfter}
use dashboard_quip_network.Miner.Attempts.Trail.{
  parsed_rows, IsFolded, push_all-IsFolded, into_newest-newest,
}
use dashboard_quip_network.Miner.Submission
use dashboard_quip_network.Miner.Submission.{
  MiningAttemptsResponse, parse_mining_attempts_api_response,
}
use dashboard_quip_network.Miner.Submission.Fields.{
  items_of, IsRead, parse_mining_attempts_api_response-IsRead,
}
use dashboard_quip_network.Store.Submissions
use dashboard_quip_network.Store.Submissions.{
  Submission, MiningDb, MiningStore, commit_mining_submissions,
}
use dashboard_quip_network.Store.Submissions.Commit.{
  IsCommitted, commit_mining_submissions-IsCommitted,
}
use dashboard_quip_network.Prelude.Texts.{same_text}

abbrev whole : ℕ → Value
whole n = number (record { as_i64 = some (pos n); as_u64 = some n; as_f64 = none; text = "" })

abbrev row : ℕ → ℕ → Value
row n energy = object (field "iter" (whole n) (field "best_energy_milli" (whole energy) no_fields))

abbrev two_rows : Items
two_rows = item (row 1 30) (item (row 2 20) no_items)

push_all-IsFolded_example : IsFolded (parsed_rows [] two_rows) (push_all two_rows default)
push_all-IsFolded_example = push_all-IsFolded two_rows

into_newest-newest_example :
    let kept = into_newest (push_all two_rows default) in
    let rows = parsed_rows [] two_rows in
    (length kept ≡ min (length rows) attempt_trail_limit)
    × ((dropped : List MiningAttempt) × ((p : MiningAttempt → Bool)
          → count_of p rows ≡ count_of p kept + count_of p dropped)
        × All (λ d. AllAfter d kept) dropped)
into_newest-newest_example = into_newest-newest two_rows

-- ` -42`
abbrev minus_forty_two : List ℕ
minus_forty_two = 32 ∷ b'-' ∷ b'4' ∷ b'2' ∷ []

parse_decimal_i64_iff_example : (parse_decimal_i64 minus_forty_two ≡ some (negsuc 41)) ↔ (
    (parse_i128 (trim minus_forty_two) ≡ some (negsuc 41))
    × (unsigned_abs (negsuc 41) ≤ max_safe_integer))
parse_decimal_i64_iff_example = parse_decimal_i64_iff minus_forty_two (negsuc 41)

abbrev submission_fields : Fields
submission_fields = field "solution_number" (whole 5) (
    field "miner_id" (string "m") (
      field "energy_milli" (whole 25) (
        field "diversity_milli" (whole 1) (
          field "threshold_milli" (whole 2) (
            field "last_proof_block_hash" (string "h")
              (field "outcome" (string "won") no_fields))))))

abbrev envelope : Fields
envelope =
    field "submission" (object submission_fields) (field "attempts" (array two_rows) no_fields)

abbrev response : MiningAttemptsResponse
response = record {
  submission = record {
    solution_number = pos 5;
    miner_id = "m";
    miner_type = "";
    ts_ns = "0";
    energy_milli = pos 25;
    diversity_milli = pos 1;
    threshold_milli = pos 2;
    last_proof_block_hash = "h";
    extrinsic_hash = none;
    chain_block_hash = none;
    chain_block_number = none;
    pow_sequence = none;
    outcome = "won";
    attempt_count = pos 2;
    best_energy_milli = pos 20;
    num_valid = pos 0;
    qpu_access_time_us = pos 0;
    observed_at = "";
  };
  attempts =
      record {
        iter = pos 1;
        best_energy_milli = pos 30;
        result_kind = "";
        miner_type = "";
        extra = no_fields;
      }
      ∷ record {
        iter = pos 2;
        best_energy_milli = pos 20;
        result_kind = "";
        miner_type = "";
        extra = no_fields;
      }
      ∷ [];
}

response_parsed : parse_mining_attempts_api_response (object envelope) ≡ ok response
unfolding parse_mining_attempts_api_response Submission.mining_attempts_from_parts
    Submission.submission_parts Submission.submission_record Submission.required_fields
    Submission.require_num Submission.require_str Submission.block_number_text get Json.safe_number
    Json.json_to_i64 Json.number_to_i64 Json.numeric_extra Json.optional_num Json.optional_string
    Json.json_to_string Json.codes Attempts.from_raw push_all Attempts.push Attempts.push_parsed
    Attempts.push_summary Attempts.push_attempt Attempts.push_newest Attempts.keep_newest_attempts
    Attempts.parse_attempt Attempts.attempt_from Attempts.text_or_empty Attempts.extra_fields
    Attempts.is_hoisted Attempts.is_submit Attempts.contains Attempts.starts_with Attempts.lower
    Attempts.fallback_num_valid_of Attempts.nested_number Attempts.productivity_from_raw
    Attempts.least into_newest
response_parsed = refl

parse_mining_attempts_api_response-IsRead_example :
    IsRead (parsed_rows [] (items_of (get envelope "attempts"))) response
parse_mining_attempts_api_response-IsRead_example =
    parse_mining_attempts_api_response-IsRead envelope response response_parsed

-- A miner that has one submission and then commits another.
abbrev miner : Text
miner = b'm' ∷ []

abbrev sent : ℕ → Submission Unit
sent n = record { miner_id = miner; solution_number = n; observed_at = []; details = tt }

abbrev mining_store : MiningStore Unit
mining_store = record {
  writer = true;
  db = record { genesis = some []; submissions = []; checkpoint = λ m. none };
}

abbrev mined_store : MiningStore Unit
mined_store = record mining_store {
  db = record {
    genesis = some [];
    submissions = sent 3 ∷ [];
    checkpoint = Submissions.advance miner 0 4 (λ m. none);
  };
}

mined : commit_mining_submissions miner (sent 3 ∷ []) 4 mining_store ≡ ok mined_store
unfolding commit_mining_submissions Submissions.commit_rows Submissions.upsert_submission
    Submissions.parsed_checkpoint same_text
mined = refl

commit_mining_submissions-IsCommitted_example : IsCommitted miner 4 mining_store mined_store
commit_mining_submissions-IsCommitted_example =
    commit_mining_submissions-IsCommitted miner (sent 3 ∷ []) 4 mining_store mined_store
      (omega arith) mined
