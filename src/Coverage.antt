-- ===== src/Coverage.antt =====
-- crates/dashboard-store/src/coverage.rs, the interval arithmetic of `Coverage` and the check of
-- its persisted form, over the record in crates/dashboard-store/src/types.rs. A `u64` is a number;
-- the theorems bound it where the code relies on the bound. The clock is an argument.
pub mod Gaps
pub mod Valid
pub mod Points
use dashboard_quip_network.Prelude.{
  ℕ, ◌+◌, ◌-◌, Bool, true, false, ◌&&◌, ◌||◌, not, Option, none, some, List, [], ◌∷◌, ◌++◌, min,
  max, leb, ltb, ◌==◌, if◌then◌else◌, any, differ, Result, ok, err, ◌>>◌, ◌>>=◌, refuse_if, is_some,
  is_some_and, is_none_or,
}
use dashboard_quip_network.Prelude.Words.{saturating_add}
use dashboard_quip_network.Errors.{StoreError, invalid}

-- An inclusive interval `[u64; 2]`.
pub record Interval : Type 0 where
  pub first : ℕ
  pub last : ℕ

pub record Coverage : Type 0 where
  pub v : ℕ
  pub gen : ℕ
  pub start : ℕ
  pub low : Option ℕ
  pub high : Option ℕ
  pub gaps : List Interval
  pub pruned_floor : Option ℕ
  pub updated_at : Option (List ℕ)

unfoldable pub empty : ℕ → ℕ → Coverage
empty gen start = record {
  v = 1;
  gen = gen;
  start = start;
  low = none;
  high = none;
  gaps = [];
  pruned_floor = none;
  updated_at = none;
}

-- `*a <= through && *b >= from`
abbrev pub meets : ℕ → ℕ → Interval → Bool
meets from through g = leb g.first through && leb from g.last

unfoldable pub contains : Coverage → ℕ → ℕ → Bool
contains c from through =
    leb from through
    && is_some_and c.low (λ n. leb n from)
    && is_some_and c.high (λ n. leb through n)
    && not (any (meets from through) c.gaps)

-- The body of the loop over `self.gaps`: what is left of one gap outside `[a, b]`.
unfoldable pub split_gap : ℕ → ℕ → Interval → List Interval
split_gap a b g =
    if ltb g.last a || ltb b g.first
    then g ∷ []
    else (if ltb g.first a then record { first = g.first; last = a - 1 } ∷ [] else [])
      ++ (if ltb b g.last then record { first = b + 1; last = g.last } ∷ [] else [])

unfoldable pub subtract_gaps : ℕ → ℕ → List Interval → List Interval
subtract_gaps a b [] = []
subtract_gaps a b (g ∷ gs) = split_gap a b g ++ subtract_gaps a b gs

-- The two `self.gaps.push(..)` for an interval that does not touch the covered range.
unfoldable pub push_gaps : ℕ → ℕ → ℕ → ℕ → List Interval → List Interval
push_gaps low high a b gaps =
    (if ltb (saturating_add high 1) a
      then gaps ++ record { first = high + 1; last = a - 1 } ∷ []
      else gaps)
    ++ (if ltb (saturating_add b 1) low then record { first = b + 1; last = low - 1 } ∷ [] else [])

-- The order of `[u64; 2]` is lexicographic.
abbrev pub le_interval : Interval → Interval → Bool
le_interval g h = ltb g.first h.first || (g.first == h.first && leb g.last h.last)

unfoldable pub insert_gap : Interval → List Interval → List Interval
insert_gap g [] = g ∷ []
insert_gap g (h ∷ hs) = if le_interval g h then g ∷ h ∷ hs else h ∷ insert_gap g hs

-- `gaps.sort_unstable()`: equal intervals are the same value, so any sort gives this list.
unfoldable pub sort_gaps : List Interval → List Interval
sort_gaps [] = []
sort_gaps (g ∷ gs) = insert_gap g (sort_gaps gs)

-- The branches of `cover` that change the coverage, but for `updated_at`.
unfoldable pub extend : Option ℕ → Option ℕ → ℕ → ℕ → Coverage → Coverage
extend (some low) (some high) a b c = record c {
  low = some (min low a);
  high = some (max high b);
  gaps = sort_gaps (subtract_gaps a b (push_gaps low high a b c.gaps));
}
extend _ _ a b c = record c { low = some a; high = some b }

unfoldable pub cover : List ℕ → Coverage → ℕ → ℕ → Result StoreError (Bool × Coverage)
cover now c a b = do
  refuse_if (ltb b a || ltb a c.start) (invalid "coverage outside domain floor")
  if contains c a b
      then ok (false, c)
      else ok (true, record (extend c.low c.high a b c) { updated_at = some now })

-- The first test of `coverage`: version, generation, both bounds or none, and their order.
unfoldable pub header_invalid : ℕ → Coverage → Bool
header_invalid gen c =
    not (c.v == 1)
    || not (c.gen == gen)
    || differ (is_some c.low) (is_some c.high)
    || is_some_and c.low (λ l. is_some_and c.high (λ h. ltb h l))

-- The test of one gap against the bounds and the end of the gap before it.
unfoldable pub gap_invalid : Option ℕ → Option ℕ → Option ℕ → Interval → Bool
gap_invalid low high previous g =
    ltb g.last g.first
    || is_none_or low (λ l. leb g.first l)
    || is_none_or high (λ h. leb h g.last)
    || is_some_and previous (λ p. leb g.first (saturating_add p 1))

unfoldable pub gaps_invalid : Option ℕ → Option ℕ → Option ℕ → List Interval → Bool
gaps_invalid low high previous [] = false
gaps_invalid low high previous (g ∷ gs) =
    gap_invalid low high previous g || gaps_invalid low high (some g.last) gs

-- What `coverage` accepts of a decoded record at the current generation.
unfoldable pub check_persisted : ℕ → Coverage → Result StoreError Coverage
check_persisted gen c = do
  refuse_if (header_invalid gen c) (invalid "invalid persisted coverage")
  refuse_if (gaps_invalid c.low c.high none c.gaps) (invalid "invalid persisted coverage gaps")
  ok c
