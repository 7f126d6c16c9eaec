-- ===== src/Miner/Submission/Fields.antt =====
-- miner/parse.rs: what a submission that was read holds.
use Prim.Native.String.{String}
use dashboard_quip_network.Prelude.{
  ◌≡◌, ◌≤◌, Option, none, some, List, ok, >>=-eq-ok, ok-injective, unwrap_or, refl, ap, subst, [],
  length, min,
}
use dashboard_quip_network.Prelude.Ints.{ℤ, unsigned_abs}
use dashboard_quip_network.Miner.Json.{
  max_safe_integer, Value, null, boolean, number, string, array, object, Fields as Object, get,
  safe_number, Items, no_items,
}
use dashboard_quip_network.Miner.Json.Bounds.{safe_number-IsSafe}
use dashboard_quip_network.Miner.Attempts.{
  MiningAttempt, attempt_trail_limit, from_raw, push_all, default,
}
use dashboard_quip_network.Miner.Attempts.Trail.{
  counted, least_of, parsed_rows, push_all-IsFolded, into_newest-newest,
}
use dashboard_quip_network.Miner.Submission.{
  MiningAttemptsResponse, Required, required_fields, require_num, require_str, number_result,
  submission_record, submission_parts, mining_attempts_from_parts,
  parse_mining_attempts_api_response,
}

abbrev pub IsSafe : ℤ → Type 0
IsSafe n = unsigned_abs n ≤ max_safe_integer

number_result-ok : (o : Option ℤ) (name : String) (n : ℤ) → number_result o name ≡ ok n → o ≡ some n
number_result-ok none name n e = cc e
number_result-ok (some m) name n e = ap some (cc e)

require_num-IsSafe :
    (v : Option Value) (name : String) (n : ℤ) → require_num v name ≡ ok n → IsSafe n
unfolding require_num
require_num-IsSafe v name n e = safe_number-IsSafe v n (number_result-ok (safe_number v) name n e)

abbrev AreSafe : Required → Type 0
AreSafe r =
    IsSafe r.energy_milli
    × IsSafe r.solution_number
    × IsSafe r.diversity_milli
    × IsSafe r.threshold_milli

required_fields-AreSafe : (s : Object) (r : Required) → required_fields s ≡ ok r → AreSafe r
unfolding required_fields
required_fields-AreSafe s r e =
    let (energy, p0, e0) = >>=-eq-ok (require_num (get s "energy_milli") "energy_milli") _ e in
    let (solution, p1, e1) =
      >>=-eq-ok (require_num (get s "solution_number") "solution_number") _ e0 in
    let (miner, p2, e2) = >>=-eq-ok (require_str (get s "miner_id") "miner_id") _ e1 in
    let (diversity, p3, e3) =
      >>=-eq-ok (require_num (get s "diversity_milli") "diversity_milli") _ e2 in
    let (threshold, p4, e4) =
      >>=-eq-ok (require_num (get s "threshold_milli") "threshold_milli") _ e3 in
    let (hash, p5, e5) =
      >>=-eq-ok (require_str (get s "last_proof_block_hash") "last_proof_block_hash") _ e4 in
    let (text, p6, e6) = >>=-eq-ok (require_str (get s "outcome") "outcome") _ e5 in
    subst AreSafe (ok-injective e6) (
      require_num-IsSafe (get s "energy_milli") "energy_milli" energy p0,
      require_num-IsSafe (get s "solution_number") "solution_number" solution p1,
      require_num-IsSafe (get s "diversity_milli") "diversity_milli" diversity p3,
      require_num-IsSafe (get s "threshold_milli") "threshold_milli" threshold p4,
    )

-- The items of the field `attempts`.
abbrev pub items_of : Option Value → Items
items_of none = no_items
items_of (some (array xs)) = xs
items_of (some null) = no_items
items_of (some (boolean b)) = no_items
items_of (some (number n)) = no_items
items_of (some (string s)) = no_items
items_of (some (object entries)) = no_items

from_raw-push_all : (v : Option Value) → from_raw v ≡ push_all (items_of v) default
unfolding from_raw push_all
from_raw-push_all none = refl
from_raw-push_all (some (array xs)) = refl
from_raw-push_all (some null) = refl
from_raw-push_all (some (boolean b)) = refl
from_raw-push_all (some (number n)) = refl
from_raw-push_all (some (string s)) = refl
from_raw-push_all (some (object entries)) = refl

-- What a response says of the rows it was read from.
abbrev pub IsRead : List MiningAttempt → MiningAttemptsResponse → Type 0
IsRead rows r =
    (r.submission.attempt_count ≡ counted (length rows))
    × (r.submission.best_energy_milli ≡ unwrap_or (least_of none rows) r.submission.energy_milli)
    × (length r.attempts ≡ min (length rows) attempt_trail_limit)
    × IsSafe r.submission.energy_milli
    × IsSafe r.submission.solution_number
    × IsSafe r.submission.diversity_milli
    × IsSafe r.submission.threshold_milli

submission_parts-IsRead :
    (s : Object) (values : Items) (r : MiningAttemptsResponse)
    → submission_parts s (push_all values default) ≡ ok r
    → IsRead (parsed_rows [] values) r
unfolding submission_parts submission_record
submission_parts-IsRead s values r e =
    let (req, found, built) = >>=-eq-ok (required_fields s) _ e in
    let (energy, solution, diversity, threshold) = required_fields-AreSafe s req found in
    let folded = push_all-IsFolded values in
    subst (IsRead (parsed_rows [] values)) (ok-injective built) (
      folded.count,
      ap (λ o. unwrap_or o req.energy_milli) folded.best,
      (into_newest-newest values).0,
      energy,
      solution,
      diversity,
      threshold,
    )

from_parts-IsRead :
    (v : Option Value) (values : Items) (r : MiningAttemptsResponse)
    → mining_attempts_from_parts v (push_all values default) ≡ ok r
    → IsRead (parsed_rows [] values) r
unfolding mining_attempts_from_parts
from_parts-IsRead none values r e = cc e
from_parts-IsRead (some (object s)) values r e = submission_parts-IsRead s values r e
from_parts-IsRead (some null) values r e = cc e
from_parts-IsRead (some (boolean b)) values r e = cc e
from_parts-IsRead (some (number n)) values r e = cc e
from_parts-IsRead (some (string s)) values r e = cc e
from_parts-IsRead (some (array xs)) values r e = cc e

-- A lookup that is parsed reports the count of the parsed rows, the least of their energies or
-- its own where there is none, as many rows as were parsed up to the limit, and safe integers for
-- its energy, solution number, diversity and threshold.
pub parse_mining_attempts_api_response-IsRead :
    (env : Object) (r : MiningAttemptsResponse)
    → parse_mining_attempts_api_response (object env) ≡ ok r
    → IsRead (parsed_rows [] (items_of (get env "attempts"))) r
unfolding parse_mining_attempts_api_response
parse_mining_attempts_api_response-IsRead env r e =
    from_parts-IsRead (get env "submission") (items_of (get env "attempts")) r (
      subst (λ trail. mining_attempts_from_parts (get env "submission") trail ≡ ok r)
        (from_raw-push_all (get env "attempts")) e)
