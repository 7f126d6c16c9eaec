-- ===== src/Decimal.antt =====
-- crates/dashboard-model/src/decimal.rs: canonical decimal text. A `str` is the list of its code
-- points, and its length and indices count the bytes of UTF-8. The order of `str` by bytes is the
-- order by code points. Parsing a u64 and printing it are Rust's standard library, written out.
pub mod Parse
pub mod Value
pub mod Order
pub mod Print
use dashboard_quip_network.Prelude.{
  ℕ, zero, suc, ◌+◌, ◌-◌, ◌*◌, ◌/◌, ◌%◌, Bool, true, false, ◌&&◌, ◌||◌, List, [], ◌∷◌, Option, none,
  some, compare, Ordering, leb, ltb, ◌==◌, if◌then◌else◌, Result, ok, err, ◌>>◌, ◌>>=◌, refuse_if,
  ok_or,
}
use dashboard_quip_network.Prelude.Words.{u64_max}

abbrev pub Text : Type 0
Text = List ℕ

pub data DecimalStringError : Type 0 where
  empty signed leading_zero : DecimalStringError
  whitespace : ℕ → DecimalStringError
  invalid_character : ℕ → ℕ → DecimalStringError

pub record DecimalString : Type 0 where
  pub text : Text

pub record DecimalToU64Error : Type 0 where
  pub value : DecimalString

-- How many bytes UTF-8 takes for a code point.
abbrev pub utf8_width : ℕ → ℕ
utf8_width c = if ltb c 128 then 1 else if ltb c 2048 then 2 else if ltb c 65536 then 3 else 4

unfoldable pub utf8_len : Text → ℕ
utf8_len [] = 0
utf8_len (c ∷ cs) = utf8_width c + utf8_len cs

abbrev pub is_ascii_digit : ℕ → Bool
is_ascii_digit c = leb b'0' c && leb c b'9'

abbrev pub is_ascii_whitespace : ℕ → Bool
is_ascii_whitespace c = c == 9 || c == 10 || c == 12 || c == 13 || c == 32

unfoldable pub classify_digit : ℕ → ℕ → Result DecimalStringError (Unit {0})
classify_digit index found =
    if is_ascii_whitespace found
    then err (whitespace index)
    else if is_ascii_digit found
    then ok tt
    else err (invalid_character index found)

-- The loop of `from_str` over the other characters.
unfoldable pub classify_rest : ℕ → Text → Result DecimalStringError (Unit {0})
classify_rest index [] = ok tt
classify_rest index (c ∷ cs) = do classify_digit index c; classify_rest (index + utf8_width c) cs

unfoldable pub from_str : Text → Result DecimalStringError DecimalString
from_str [] = err empty
from_str (c ∷ cs) = do
  refuse_if (c == b'+' || c == b'-') signed
  classify_digit 0 c
  classify_rest (utf8_width c) cs
  refuse_if (c == b'0' && ltb 1 (utf8_len (c ∷ cs))) leading_zero
  ok (record { text = c ∷ cs })

-- The order of `str`.
unfoldable pub compare_text : Text → Text → Ordering
compare_text [] [] = Ordering.eq
compare_text [] (d ∷ ds) = Ordering.lt
compare_text (c ∷ cs) [] = Ordering.gt
compare_text (c ∷ cs) (d ∷ ds) =
    let rest = compare_text cs ds in
    elim (compare c d) [
      | Ordering.lt ↦ Ordering.lt
      | Ordering.eq ↦ rest
      | Ordering.gt ↦ Ordering.gt
    ]

-- `Ordering::then_with`
abbrev pub then_with : Ordering → Ordering → Ordering
then_with Ordering.eq o = o
then_with Ordering.lt o = Ordering.lt
then_with Ordering.gt o = Ordering.gt

unfoldable pub cmp : DecimalString → DecimalString → Ordering
cmp a b = then_with (compare (utf8_len a.text) (utf8_len b.text)) (compare_text a.text b.text)

-- The loop of `str::parse::<u64>` with its checked multiplication and addition.
unfoldable pub parse_digits : ℕ → Text → Option ℕ
parse_digits acc [] = some acc
parse_digits acc (c ∷ cs) =
    let next = acc * 10 + (c - b'0') in
    let rest = parse_digits next cs in if is_ascii_digit c && leb next u64_max then rest else none

-- `str::parse::<u64>`: a leading `+` is accepted, the empty text is not.
unfoldable pub parse_u64 : Text → Option ℕ
parse_u64 [] = none
parse_u64 (c ∷ []) = parse_digits 0 (c ∷ [])
parse_u64 (c ∷ d ∷ ds) = if c == b'+' then parse_digits 0 (d ∷ ds) else parse_digits 0 (c ∷ d ∷ ds)

unfoldable pub to_u64 : DecimalString → Result DecimalToU64Error ℕ
to_u64 d = ok_or (parse_u64 d.text) (record { value = d })

-- The digits of a number before `rest`; `fuel` bounds their count.
unfoldable pub digits_of : ℕ → ℕ → Text → Text
digits_of zero n rest = rest
digits_of (suc fuel) n rest =
    let more = digits_of fuel (n / 10) ((b'0' + n % 10) ∷ rest) in
    if ltb n 10 then (b'0' + n) ∷ rest else more

-- `u64::to_string`: a u64 has at most twenty digits.
unfoldable pub print_u64 : ℕ → Text
print_u64 n = digits_of 20 n []

unfoldable pub from_u64 : ℕ → DecimalString
from_u64 n = record { text = print_u64 n }
