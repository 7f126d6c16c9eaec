-- ===== src/Miner/Json.antt =====
-- crates/quip-dashboard/src/miner/parse.rs: reading numbers and text out of JSON. `Value` is the enum
-- of serde_json, whose maps have each key once; a `Number` is what the source asks of it.
pub mod Bounds
use Prim.Native.String.{String}
use Prim.Native.Char.{code}
use text.Mathlib.Text
use dashboard_quip_network.Prelude.{
  ℕ, zero, suc, ◌+◌, ◌-◌, ◌*◌, Bool, true, false, ◌&&◌, ◌||◌, not, Option, none, some, List, [],
  ◌∷◌, leb, ltb, ◌==◌, if◌then◌else◌, Result, ok, err, unwrap_or,
}
use dashboard_quip_network.Prelude.Words.{u64_max}
use dashboard_quip_network.Prelude.Ints.{ℤ, pos, negsuc, is_i64, unsigned_abs, i64_max}

abbrev pub max_safe_integer : ℕ
max_safe_integer = 9007199254740991

-- `as_f64` of a number: whether it is finite, whether its magnitude is above 2^53 - 1, and `trunc`.
pub record Float : Type 0 where
  pub is_finite : Bool
  pub too_large : Bool
  pub trunc : ℤ
  pub nonzero : Bool

pub record Number : Type 0 where
  pub as_i64 : Option ℤ
  pub as_u64 : Option ℕ
  pub as_f64 : Option Float
  pub text : String

mutual
  pub data Fields : Type 0 where
    no_fields : Fields
    field : String → Value → Fields → Fields

  pub data Value : Type 0 where
    null : Value
    boolean : Bool → Value
    number : Number → Value
    object : Fields → Value
    array : Items → Value
    string : String → Value

  pub data Items : Type 0 where
    no_items : Items
    item : Value → Items → Items

-- `map.get(key)`
unfoldable pub get : Fields → String → Option Value
get no_fields key = none
get (field k v rest) key = if Text.◌==◌ k key then some v else get rest key

-- `value.get(key)`, which is none of anything but an object.
unfoldable pub get_in : Value → String → Option Value
get_in (object entries) key = get entries key
get_in null key = none
get_in (boolean b) key = none
get_in (number n) key = none
get_in (string s) key = none
get_in (array xs) key = none

-- The code points of a text.
unfoldable pub codes : String → List ℕ
codes String.[] = []
codes (String.◌∷◌ c s) = code c ∷ codes s

-- Unicode's `White_Space`, which `trim` takes away.
unfoldable pub is_whitespace : ℕ → Bool
is_whitespace c =
    (leb 9 c && leb c 13)
    || c == 32
    || c == 133
    || c == 160
    || c == 5760
    || (leb 8192 c && leb c 8202)
    || c == 8232
    || c == 8233
    || c == 8239
    || c == 8287
    || c == 12288

unfoldable pub trim_start : List ℕ → List ℕ
trim_start [] = []
trim_start (c ∷ cs) = let rest = trim_start cs in if is_whitespace c then rest else c ∷ cs

abbrev pub trim_end_step : ℕ → List ℕ → List ℕ
trim_end_step c [] = if is_whitespace c then [] else c ∷ []
trim_end_step c (d ∷ ds) = c ∷ d ∷ ds

unfoldable pub trim_end : List ℕ → List ℕ
trim_end [] = []
trim_end (c ∷ cs) = trim_end_step c (trim_end cs)

unfoldable pub trim : List ℕ → List ℕ
trim cs = trim_end (trim_start cs)

-- Rust's standard parser of an `i128`: a sign, and at least one decimal digit.
unfoldable pub digits_value : ℕ → List ℕ → Option ℕ
digits_value acc [] = some acc
digits_value acc (c ∷ cs) =
    let rest = digits_value (acc * 10 + (c - b'0')) cs in
    if leb b'0' c && leb c b'9' then rest else none

unfoldable pub digits : List ℕ → Option ℕ
digits [] = none
digits (c ∷ cs) = digits_value 0 (c ∷ cs)

abbrev pub i128_max : ℕ
i128_max = 170141183460469231731687303715884105727

abbrev pub non_negative : Option ℕ → Option ℤ
non_negative none = none
non_negative (some n) = if leb n i128_max then some (pos n) else none

abbrev pub negative : Option ℕ → Option ℤ
negative none = none
negative (some zero) = some (pos 0)
negative (some (suc n)) = if leb n i128_max then some (negsuc n) else none

unfoldable pub parse_i128 : List ℕ → Option ℤ
parse_i128 [] = none
parse_i128 (c ∷ cs) =
    if c == b'-'
    then negative (digits cs)
    else if c == b'+'
    then non_negative (digits cs)
    else non_negative (digits (c ∷ cs))

-- `parsed.abs()` as it wraps around: the least `i128` is its own `abs`.
abbrev pub abs_i128 : ℤ → ℤ
abs_i128 (pos n) = pos n
abs_i128 (negsuc n) = if n == i128_max then negsuc n else pos (n + 1)

abbrev pub above : ℤ → ℕ → Bool
above (pos n) bound = ltb bound n
above (negsuc n) bound = false

-- `i64::try_from(n).ok()`
abbrev pub to_i64 : ℤ → Option ℤ
to_i64 n = if is_i64 n then some n else none

abbrev pub is_safe : ℤ → Bool
is_safe n = leb (unsigned_abs n) max_safe_integer

-- `filter(|n| n.unsigned_abs() <= MAX_SAFE_INTEGER)`
abbrev pub keep_safe : Option ℤ → Option ℤ
keep_safe none = none
keep_safe (some n) = if is_safe n then some n else none

unfoldable pub parsed_to_i64 : Option ℤ → Option ℤ
parsed_to_i64 none = none
parsed_to_i64 (some parsed) =
    if above (abs_i128 parsed) max_safe_integer
    then if above (abs_i128 parsed) i64_max then none else keep_safe (to_i64 parsed)
    else to_i64 parsed

-- `parse_decimal_i64`; `parse` of an empty text is an error as well.
unfoldable pub parse_decimal_i64 : List ℕ → Option ℤ
parse_decimal_i64 s = parsed_to_i64 (parse_i128 (trim s))

-- The three ways of `json_to_i64` to read a number, in their order.
unfoldable pub float_to_i64 : Option Float → Option ℤ
float_to_i64 none = none
float_to_i64 (some f) = if not f.is_finite || f.too_large then none else some f.trunc

unfoldable pub unsigned_to_i64 : Option ℕ → Option Float → Option ℤ
unsigned_to_i64 none f = float_to_i64 f
unsigned_to_i64 (some u) f = to_i64 (pos u)

unfoldable pub number_to_i64 : Option ℤ → Option ℕ → Option Float → Option ℤ
number_to_i64 none u f = unsigned_to_i64 u f
number_to_i64 (some i) u f = some i

unfoldable pub json_to_i64 : Option Value → Option ℤ
json_to_i64 none = none
json_to_i64 (some null) = none
json_to_i64 (some (boolean true)) = some (pos 1)
json_to_i64 (some (boolean false)) = some (pos 0)
json_to_i64 (some (number n)) = number_to_i64 n.as_i64 n.as_u64 n.as_f64
json_to_i64 (some (string s)) = parse_decimal_i64 (codes s)
json_to_i64 (some (array xs)) = none
json_to_i64 (some (object entries)) = none

unfoldable pub safe_number : Option Value → Option ℤ
safe_number v = keep_safe (json_to_i64 v)

unfoldable pub numeric_extra : Option Value → Option ℤ
numeric_extra none = none
numeric_extra (some null) = none
numeric_extra (some (boolean b)) = none
numeric_extra (some (number n)) = safe_number (some (number n))
numeric_extra (some (string s)) = safe_number (some (string s))
numeric_extra (some (array xs)) = none
numeric_extra (some (object entries)) = none

-- `numeric_extra` is none of null as well.
unfoldable pub optional_num : Option Value → Option ℤ
optional_num none = none
optional_num (some null) = none
optional_num (some v) = numeric_extra (some v)

unfoldable pub json_to_string : Option Value → String → String
json_to_string none default = default
json_to_string (some null) default = default
json_to_string (some (boolean true)) default = "true"
json_to_string (some (boolean false)) default = "false"
json_to_string (some (number n)) default = n.text
json_to_string (some (string s)) default = s
json_to_string (some (array xs)) default = default
json_to_string (some (object entries)) default = default

unfoldable pub optional_string : Option Value → Option String
optional_string none = none
optional_string (some null) = none
optional_string (some v) = some (json_to_string (some v) "")
