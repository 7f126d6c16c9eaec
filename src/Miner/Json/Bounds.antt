-- ===== src/Miner/Json/Bounds.antt =====
-- miner/parse.rs: the numbers that are read are safe integers.
use dashboard_quip_network.Prelude.{ℕ, ◌≡◌, ◌≤◌, ◌↔◌, Option, none, some, arith, List, ap}
use mathlib.Core.Option.{some-injective}
use dashboard_quip_network.Prelude.Ints.{ℤ, pos, negsuc, unsigned_abs}
use dashboard_quip_network.Miner.Json.{
  max_safe_integer, Value, null, boolean, number, string, array, object, trim, parse_i128,
  keep_safe, parsed_to_i64, parse_decimal_i64, json_to_i64, safe_number, numeric_extra,
}

keep_safe-IsSafe : (o : Option ℤ) (n : ℤ) → keep_safe o ≡ some n → unsigned_abs n ≤ max_safe_integer
keep_safe-IsSafe none n e = cc e
keep_safe-IsSafe (some m) n e = ground arith

parsed_to_i64_iff :
    (parsed n : ℤ)
    → (parsed_to_i64 (some parsed) ≡ some n) ↔ ((parsed ≡ n) × (unsigned_abs n ≤ max_safe_integer))
unfolding parsed_to_i64
parsed_to_i64_iff (pos m) n = ground arith
parsed_to_i64_iff (negsuc m) n = ground arith

parsed_option :
    (o : Option ℤ) (n : ℤ)
    → (parsed_to_i64 o ≡ some n) ↔ ((o ≡ some n) × (unsigned_abs n ≤ max_safe_integer))
unfolding parsed_to_i64
parsed_option none n = (λ e. cc e, λ (e, small). cc e)
parsed_option (some m) n =
    let (forth, back) = parsed_to_i64_iff m n in
    (
      λ e. let (same, small) = forth e in (ap some same, small),
      λ (e, small). back (some-injective m n e, small),
    )

-- A text is read as a number exactly if, trimmed, it is the decimal of that number as an i128 and
-- the magnitude is at most 2^53 - 1.
pub parse_decimal_i64_iff :
    (s : List ℕ) (n : ℤ)
    → (parse_decimal_i64 s ≡ some n)
      ↔ ((parse_i128 (trim s) ≡ some n) × (unsigned_abs n ≤ max_safe_integer))
unfolding parse_decimal_i64
parse_decimal_i64_iff s n = parsed_option (parse_i128 (trim s)) n

pub safe_number-IsSafe :
    (v : Option Value) (n : ℤ) → safe_number v ≡ some n → unsigned_abs n ≤ max_safe_integer
unfolding safe_number
safe_number-IsSafe v n e = keep_safe-IsSafe (json_to_i64 v) n e

pub numeric_extra-IsSafe :
    (v : Option Value) (n : ℤ) → numeric_extra v ≡ some n → unsigned_abs n ≤ max_safe_integer
unfolding numeric_extra
numeric_extra-IsSafe none n e = cc e
numeric_extra-IsSafe (some null) n e = cc e
numeric_extra-IsSafe (some (boolean b)) n e = cc e
numeric_extra-IsSafe (some (number m)) n e = safe_number-IsSafe (some (number m)) n e
numeric_extra-IsSafe (some (string s)) n e = safe_number-IsSafe (some (string s)) n e
numeric_extra-IsSafe (some (array xs)) n e = cc e
numeric_extra-IsSafe (some (object entries)) n e = cc e
