-- ===== src/Miner/Submission.antt =====
-- crates/quip-dashboard/src/miner/parse.rs: the submission that a lookup of the miner returns, the
-- envelope around it, and the choice of the current dispatch. An error is what went wrong with which
-- field; the text that the source quotes from the value is left out.
pub mod Fields
use Prim.Native.String.{String}
use text.Mathlib.Text
use dashboard_quip_network.Prelude.{
  ℕ, ◌-◌, Bool, true, false, Option, none, some, List, [], ◌∷◌, if◌then◌else◌, Result, ok, err,
  ◌>>=◌, unwrap_or,
}
use dashboard_quip_network.Prelude.Ints.{ℤ, pos, negsuc, ◌+ℤ◌, clamp_i64}
use dashboard_quip_network.Miner.Json.{
  Value, null, boolean, number, string, array, object, Fields as Object, get, safe_number,
  optional_num, optional_string, json_to_string,
}
use dashboard_quip_network.Miner.Attempts.{
  MiningAttempt, text_or_empty, AttemptTrail, from_raw, into_newest, or_else_int,
}

-- Why an answer cannot become a row; the strings are keys.
pub data Unparsable : Type 0 where
  not_an_object missing_submission : Unparsable
  missing_string bad_number : String → Unparsable

pub data MinerError : Type 0 where
  not_found : ℕ → MinerError
  rate_limited : MinerError
  unparsable : Unparsable → MinerError
  upstream_status : ℕ → MinerError
  unreachable envelope_failure http : String → MinerError
  missing_local_url : MinerError
  body_too_large : ℕ → MinerError
  invalid_solution_number : MinerError

pub record MiningSubmissionRecord : Type 0 where
  pub solution_number : ℤ
  pub miner_id : String
  pub miner_type : String
  pub ts_ns : String
  pub energy_milli : ℤ
  pub diversity_milli : ℤ
  pub threshold_milli : ℤ
  pub last_proof_block_hash : String
  pub extrinsic_hash : Option String
  pub chain_block_hash : Option String
  pub chain_block_number : Option String
  pub pow_sequence : Option ℤ
  pub outcome : String
  pub attempt_count : ℤ
  pub best_energy_milli : ℤ
  pub num_valid : ℤ
  pub qpu_access_time_us : ℤ
  pub observed_at : String

pub record MiningAttemptsResponse : Type 0 where
  pub submission : MiningSubmissionRecord
  pub attempts : List MiningAttempt

abbrev pub string_or : Option Value → Option String
string_or none = none
string_or (some null) = none
string_or (some (boolean b)) = none
string_or (some (number n)) = none
string_or (some (string s)) = if Text.◌==◌ s "" then none else some s
string_or (some (array xs)) = none
string_or (some (object entries)) = none

abbrev pub string_result : Option String → String → Result MinerError String
string_result none name = err (unparsable (missing_string name))
string_result (some s) name = ok s

unfoldable pub require_str : Option Value → String → Result MinerError String
require_str v name = string_result (string_or v) name

abbrev pub number_result : Option ℤ → String → Result MinerError ℤ
number_result none name = err (unparsable (bad_number name))
number_result (some n) name = ok n

unfoldable pub require_num : Option Value → String → Result MinerError ℤ
require_num v name = number_result (safe_number v) name

-- `chain_block_number`: any value but null as text.
unfoldable pub block_number_text : Option Value → Option String
block_number_text none = none
block_number_text (some null) = none
block_number_text (some v) = some (json_to_string (some v) "")

-- The fields of the submission that must be there.
pub record Required : Type 0 where
  pub energy_milli : ℤ
  pub solution_number : ℤ
  pub miner_id : String
  pub diversity_milli : ℤ
  pub threshold_milli : ℤ
  pub last_proof_block_hash : String
  pub outcome : String

-- They are read in the order of the source, and the first that fails is the error.
unfoldable pub required_fields : Object → Result MinerError Required
required_fields s = require_num (get s "energy_milli") "energy_milli" >>= (λ energy.
    require_num (get s "solution_number") "solution_number" >>= (λ solution.
      require_str (get s "miner_id") "miner_id" >>= (λ miner.
        require_num (get s "diversity_milli") "diversity_milli" >>= (λ diversity.
          require_num (get s "threshold_milli") "threshold_milli" >>= (λ threshold.
            require_str (get s "last_proof_block_hash") "last_proof_block_hash" >>= (λ hash.
              require_str (get s "outcome") "outcome" >>= (λ outcome_text. ok (record {
                energy_milli = energy;
                solution_number = solution;
                miner_id = miner;
                diversity_milli = diversity;
                threshold_milli = threshold;
                last_proof_block_hash = hash;
                outcome = outcome_text;
              }))))))))

unfoldable pub submission_record : Object → AttemptTrail → Required → MiningSubmissionRecord
submission_record s trail r = record {
  solution_number = r.solution_number;
  miner_id = r.miner_id;
  miner_type = text_or_empty (get s "miner_type");
  ts_ns = json_to_string (get s "ts_ns") "0";
  energy_milli = r.energy_milli;
  diversity_milli = r.diversity_milli;
  threshold_milli = r.threshold_milli;
  last_proof_block_hash = r.last_proof_block_hash;
  extrinsic_hash = optional_string (get s "extrinsic_hash");
  chain_block_hash = optional_string (get s "chain_block_hash");
  chain_block_number = block_number_text (get s "chain_block_number");
  pow_sequence = optional_num (get s "pow_sequence");
  outcome = r.outcome;
  attempt_count = trail.count;
  best_energy_milli = unwrap_or trail.best_energy_milli r.energy_milli;
  num_valid =
      unwrap_or
        (or_else_int (optional_num (get s "num_valid"))
          (or_else_int trail.submitted_num_valid trail.fallback_num_valid))
        (pos 0);
  qpu_access_time_us = trail.qpu_access_time_us;
  observed_at = "";
}

unfoldable pub submission_parts : Object → AttemptTrail → Result MinerError MiningAttemptsResponse
submission_parts s trail = required_fields s >>= (λ r.
    ok (record { submission = submission_record s trail r; attempts = into_newest trail }))

unfoldable pub mining_attempts_from_parts :
    Option Value → AttemptTrail → Result MinerError MiningAttemptsResponse
mining_attempts_from_parts none trail = err (unparsable missing_submission)
mining_attempts_from_parts (some (object s)) trail = submission_parts s trail
mining_attempts_from_parts (some null) trail = err (unparsable missing_submission)
mining_attempts_from_parts (some (boolean b)) trail = err (unparsable missing_submission)
mining_attempts_from_parts (some (number n)) trail = err (unparsable missing_submission)
mining_attempts_from_parts (some (string s)) trail = err (unparsable missing_submission)
mining_attempts_from_parts (some (array xs)) trail = err (unparsable missing_submission)

unfoldable pub parse_mining_attempts_api_response : Value → Result MinerError MiningAttemptsResponse
parse_mining_attempts_api_response (object env) =
    mining_attempts_from_parts (get env "submission") (from_raw (get env "attempts"))
parse_mining_attempts_api_response null = err (unparsable not_an_object)
parse_mining_attempts_api_response (boolean b) = err (unparsable not_an_object)
parse_mining_attempts_api_response (number n) = err (unparsable not_an_object)
parse_mining_attempts_api_response (string s) = err (unparsable not_an_object)
parse_mining_attempts_api_response (array xs) = err (unparsable not_an_object)

-- `unwrap_envelope`
abbrev pub is_false : Option Value → Bool
is_false none = false
is_false (some null) = false
is_false (some (boolean true)) = false
is_false (some (boolean false)) = true
is_false (some (number n)) = false
is_false (some (string s)) = false
is_false (some (array xs)) = false
is_false (some (object entries)) = false

unfoldable pub unwrap_envelope : Value → Result MinerError Value
unwrap_envelope (object obj) =
    if is_false (get obj "success")
    then err (envelope_failure (json_to_string (get obj "error") "envelope reported failure"))
    else ok (unwrap_or (get obj "data") (object obj))
unwrap_envelope null = ok null
unwrap_envelope (boolean b) = ok (boolean b)
unwrap_envelope (number n) = ok (number n)
unwrap_envelope (string s) = ok (string s)
unwrap_envelope (array xs) = ok (array xs)

pub data DispatchStatus : Type 0 where
  in_flight completed : DispatchStatus

pub record CurrentDispatch : Type 0 where
  pub solution_number : ℤ
  pub attempts : List MiningAttempt
  pub status : DispatchStatus

unfoldable pub select_current_dispatch :
    ℤ → List MiningAttempt → List MiningAttempt → Option CurrentDispatch
select_current_dispatch current (a ∷ bs) previous =
    some (record { solution_number = current; attempts = a ∷ bs; status = in_flight })
select_current_dispatch current [] (a ∷ bs) = some (record {
  solution_number = clamp_i64 (current +ℤ negsuc 0);
  attempts = a ∷ bs;
  status = completed;
})
select_current_dispatch current [] [] = none
