-- ===== src/Miner/Attempts.antt =====
-- crates/quip-dashboard/src/miner/parse.rs: the trail of attempts, and the submission it belongs to.
pub mod Newest
pub mod Trail
use Prim.Native.String.{String}
use Prim.Native.Nat.{◌*◌}
use dashboard_quip_network.Prelude.{
  ℕ, zero, suc, ◌+◌, ◌-◌, Bool, true, false, ◌&&◌, ◌||◌, not, Option, none, some, List, [], ◌∷◌,
  ◌++◌, map, leb, ltb, length, ◌==◌, if◌then◌else◌, Result, ok, err, ◌>>=◌, unwrap_or,
}
use text.Mathlib.Text
use dashboard_quip_network.Prelude.Ints.{
  ℤ, pos, negsuc, leb_int, min_int, saturating_add_i64, i64_max,
}
use dashboard_quip_network.Miner.Json.{
  Value, null, boolean, number, string, array, object, Items, no_items, item, Fields, no_fields,
  field, get, codes, digits, digits_value, numeric_extra, safe_number, optional_num,
  optional_string, json_to_string,
}

abbrev pub attempt_trail_limit : ℕ
attempt_trail_limit = 500

pub record MiningAttempt : Type 0 where
  pub iter : ℤ
  pub best_energy_milli : ℤ
  pub result_kind : String
  pub miner_type : String
  pub extra : Fields

-- `Some(Value::String(s)) => s.clone(), _ => String::new()`
unfoldable pub text_or_empty : Option Value → String
text_or_empty none = ""
text_or_empty (some null) = ""
text_or_empty (some (boolean b)) = ""
text_or_empty (some (number n)) = ""
text_or_empty (some (string s)) = s
text_or_empty (some (array xs)) = ""
text_or_empty (some (object entries)) = ""

-- The keys that `parse_attempt` takes out of the other fields.
unfoldable pub is_hoisted : String → Bool
is_hoisted k =
    Text.◌==◌ k "type"
    || Text.◌==◌ k "iter"
    || Text.◌==◌ k "best_energy_milli"
    || Text.◌==◌ k "result_kind"
    || Text.◌==◌ k "miner_type"

unfoldable pub extra_fields : Fields → Fields
extra_fields no_fields = no_fields
extra_fields (field k v rest) =
    let others = extra_fields rest in if is_hoisted k then others else field k v others

-- `parse_attempt` with its two numbers.
unfoldable pub attempt_from : Option ℤ → Option ℤ → Fields → Option MiningAttempt
attempt_from none best obj = none
attempt_from (some iter_n) none obj = none
attempt_from (some iter_n) (some best_n) obj = some (record {
  iter = iter_n;
  best_energy_milli = best_n;
  result_kind = text_or_empty (get obj "result_kind");
  miner_type = text_or_empty (get obj "miner_type");
  extra = extra_fields obj;
})

unfoldable pub parse_attempt : Fields → Option MiningAttempt
parse_attempt obj =
    attempt_from (safe_number (get obj "iter")) (safe_number (get obj "best_energy_milli")) obj

-- `raw.parse::<u128>()`: an optional plus sign and at least one decimal digit.
abbrev pub u128_max : ℕ
u128_max = 340282366920938463463374607431768211455

abbrev pub fits_u128 : Option ℕ → Option ℕ
fits_u128 none = none
fits_u128 (some n) = if leb n u128_max then some n else none

unfoldable pub parse_u128 : List ℕ → Option ℕ
parse_u128 [] = none
parse_u128 (c ∷ cs) = if c == b'+' then fits_u128 (digits cs) else fits_u128 (digits (c ∷ cs))

unfoldable pub ts_ns_of : Option Value → Option ℕ
ts_ns_of none = none
ts_ns_of (some null) = none
ts_ns_of (some (boolean b)) = none
ts_ns_of (some (number n)) = n.as_u64
ts_ns_of (some (string s)) = parse_u128 (codes s)
ts_ns_of (some (array xs)) = none
ts_ns_of (some (object entries)) = none

unfoldable pub attempt_ts_ns : MiningAttempt → Option ℕ
attempt_ts_ns attempt = ts_ns_of (get attempt.extra "ts_ns")

-- The derived order of `Option`: `None` comes first.
abbrev pub ts_rank : Option ℕ → ℕ
ts_rank none = 0
ts_rank (some n) = suc n

-- The order of the sort keys `(attempt_ts_ns(attempt), attempt.iter)`.
unfoldable pub key_le : MiningAttempt → MiningAttempt → Bool
key_le a b =
    ltb (ts_rank (attempt_ts_ns a)) (ts_rank (attempt_ts_ns b))
    || (ts_rank (attempt_ts_ns a) == ts_rank (attempt_ts_ns b) && leb_int a.iter b.iter)

-- `sort_by_key`, which is stable.
unfoldable pub insert_attempt : MiningAttempt → List MiningAttempt → List MiningAttempt
insert_attempt a [] = a ∷ []
insert_attempt a (b ∷ bs) =
    let rest = insert_attempt a bs in if key_le a b then a ∷ b ∷ bs else b ∷ rest

unfoldable pub sort_attempts : List MiningAttempt → List MiningAttempt
sort_attempts [] = []
sort_attempts (a ∷ bs) = insert_attempt a (sort_attempts bs)

-- `drain(..n)`
unfoldable pub drop_first : ℕ → List MiningAttempt → List MiningAttempt
drop_first n [] = []
drop_first zero (a ∷ bs) = a ∷ bs
drop_first (suc n) (a ∷ bs) = drop_first n bs

unfoldable pub keep_newest_attempts : List MiningAttempt → List MiningAttempt
keep_newest_attempts attempts =
    if leb (length attempts) attempt_trail_limit
    then attempts
    else drop_first (length attempts - attempt_trail_limit) (sort_attempts attempts)

pub record AttemptTrail : Type 0 where
  pub count : ℤ
  pub best_energy_milli : Option ℤ
  pub qpu_access_time_us : ℤ
  pub submitted_num_valid : Option ℤ
  pub fallback_num_valid : Option ℤ
  pub newest : List MiningAttempt

abbrev pub default : AttemptTrail
default = record {
  count = pos 0;
  best_energy_milli = none;
  qpu_access_time_us = pos 0;
  submitted_num_valid = none;
  fallback_num_valid = none;
  newest = [];
}

unfoldable pub nested_number : Option Value → String → Option ℤ
nested_number none key = none
nested_number (some null) key = none
nested_number (some (boolean b)) key = none
nested_number (some (number n)) key = none
nested_number (some (string s)) key = none
nested_number (some (array xs)) key = none
nested_number (some (object entries)) key = numeric_extra (get entries key)

abbrev pub or_else_int : Option ℤ → Option ℤ → Option ℤ
or_else_int none later = later
or_else_int (some n) later = some n

unfoldable pub fallback_num_valid_of : Fields → Option ℤ
fallback_num_valid_of extra = or_else_int (numeric_extra (get extra "n_unique_total")) (
    or_else_int (numeric_extra (get extra "num_valid"))
      (nested_number (get extra "solution_meta") "n_unique_total"))

unfoldable pub productivity_from_raw : Fields → Option ℤ
productivity_from_raw r =
    or_else_int (nested_number (get r "solution_meta") "n_unique_total")
      (numeric_extra (get r "num_valid"))

-- `to_ascii_lowercase` and `contains("submit")`
unfoldable pub lower : ℕ → ℕ
lower c = if leb b'A' c && leb c b'Z' then c + 32 else c

unfoldable pub starts_with : List ℕ → List ℕ → Bool
starts_with s [] = true
starts_with [] (p ∷ ps) = false
starts_with (c ∷ s) (p ∷ ps) = c == p && starts_with s ps

unfoldable pub contains : List ℕ → List ℕ → Bool
contains [] pattern = starts_with [] pattern
contains (c ∷ s) pattern = starts_with (c ∷ s) pattern || contains s pattern

unfoldable pub is_submit : Fields → Bool
is_submit obj =
    contains (map lower (codes (text_or_empty (get obj "result_kind")))) (codes "submit")

-- Device time above zero is added.
abbrev pub add_device_time : Option ℤ → ℤ → ℤ
add_device_time none total = total
add_device_time (some us) total = if leb_int us (pos 0) then total else saturating_add_i64 total us

unfoldable pub least : Option ℤ → ℤ → ℤ
least none n = n
least (some best) n = min_int best n

unfoldable pub push_newest : List MiningAttempt → MiningAttempt → List MiningAttempt
push_newest newest attempt =
    let pushed = newest ++ attempt ∷ [] in
    if leb (2 * attempt_trail_limit) (length pushed) then keep_newest_attempts pushed else pushed

-- The part of `push` after a row was parsed.
unfoldable pub push_attempt : MiningAttempt → AttemptTrail → AttemptTrail
push_attempt attempt trail = record trail {
  count = saturating_add_i64 trail.count (pos 1);
  best_energy_milli = some (least trail.best_energy_milli attempt.best_energy_milli);
  fallback_num_valid = or_else_int (fallback_num_valid_of attempt.extra) trail.fallback_num_valid;
  newest = push_newest trail.newest attempt;
}

unfoldable pub push_parsed : Option MiningAttempt → AttemptTrail → AttemptTrail
push_parsed none trail = trail
push_parsed (some attempt) trail = push_attempt attempt trail

-- The part of `push` before it.
unfoldable pub push_summary : Fields → AttemptTrail → AttemptTrail
push_summary obj trail = record trail {
  qpu_access_time_us =
      add_device_time (numeric_extra (get obj "qpu_access_time_us")) trail.qpu_access_time_us;
  submitted_num_valid =
      if is_submit obj
      then or_else_int (productivity_from_raw obj) trail.submitted_num_valid
      else trail.submitted_num_valid;
}

unfoldable pub push : Value → AttemptTrail → AttemptTrail
push (object obj) trail = push_parsed (parse_attempt obj) (push_summary obj trail)
push null trail = trail
push (boolean b) trail = trail
push (number n) trail = trail
push (string s) trail = trail
push (array xs) trail = trail

unfoldable pub push_all : Items → AttemptTrail → AttemptTrail
push_all no_items trail = trail
push_all (item v rest) trail = push_all rest (push v trail)

unfoldable pub from_raw : Option Value → AttemptTrail
from_raw none = default
from_raw (some (array xs)) = push_all xs default
from_raw (some null) = default
from_raw (some (boolean b)) = default
from_raw (some (number n)) = default
from_raw (some (string s)) = default
from_raw (some (object entries)) = default

unfoldable pub into_newest : AttemptTrail → List MiningAttempt
into_newest trail = keep_newest_attempts trail.newest
