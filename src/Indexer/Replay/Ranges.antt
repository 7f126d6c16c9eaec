-- ===== src/Indexer/Replay/Ranges.antt =====
-- backfill.rs: the ranges that a replay completes, by the heights that they hold.
use dashboard_quip_network.Prelude.{
  ℕ, ◌+◌, ◌-◌, ◌≡◌, ◌≤◌, ◌<◌, Bool, true, ◌&&◌, not, Option, none, some, List, [], ◌∷◌, ◌++◌, leb,
  ltb, ◌==◌, any, any-append, if◌then◌else◌, arith, ◌∙◌, ok,
}
use dashboard_quip_network.Prelude.Words.{u64_max, checked_add}
use dashboard_quip_network.Decimal
use dashboard_quip_network.Decimal.{DecimalString}
use dashboard_quip_network.Decimal.Value.{parse_u64-le}
use dashboard_quip_network.Indexer.Replay.{row_height}
use dashboard_quip_network.Coverage.{Interval, meets}
use dashboard_quip_network.Coverage.Points.{within, in_gaps}

-- The height is one of these.
abbrev pub among : ℕ → List ℕ → Bool
among n hs = any (λ h. h == n) hs

-- Where the cursor stands; past the last height there is no cursor.
abbrev pub position : Option ℕ → ℕ
position none = u64_max + 1
position (some start) = start

-- Rows that are read as heights in ascending order, from `next` on.
abbrev pub IsAscending : ℕ → List DecimalString → Type 0
IsAscending next [] = Unit
IsAscending next (row ∷ rest) =
    (h : ℕ) × (row_height row ≡ ok h) × (next ≤ h) × IsAscending (h + 1) rest

pub row_height-le : (row : DecimalString) (h : ℕ) → row_height row ≡ ok h → h ≤ u64_max
unfolding row_height Decimal.to_u64
row_height-le row h e = ground (arith, parse_u64-le row.text h)

-- The finished ranges are the heights before the cursor that were not skipped.
abbrev pub IsReplayed : ℕ → Option ℕ → List Interval → List ℕ → Type 0
IsReplayed from cursor finished skipped =
    (from ≤ position cursor)
    × ((n : ℕ) → among n skipped ≡ true → n < position cursor)
    × ((n : ℕ)
        → in_gaps n finished ≡ (leb from n && ltb n (position cursor) && not (among n skipped)))

-- The last height, if any, bounds the cursor, and the ceiling bounds it.
abbrev pub IsBehind : ℕ → ℕ → Option ℕ → ℕ → Type 0
IsBehind from ceiling none at = at ≡ from
IsBehind from ceiling (some last) at = (at ≤ last + 1) × (last ≤ ceiling)

-- The range that is finished before an uncovered height, and at the end.
abbrev pub range_before : Option ℕ → ℕ → List Interval
range_before none height = []
range_before (some start) height =
    if ltb start height then record { first = start; last = height - 1 } ∷ [] else []

abbrev pub range_after : Option ℕ → Option ℕ → List Interval
range_after none last = []
range_after (some start) none = []
range_after (some start) (some last) =
    if leb start last then record { first = start; last = last } ∷ [] else []

in_gaps-before :
    (n height : ℕ) (cursor : Option ℕ)
    → position cursor ≤ height
    → height ≤ u64_max
    → in_gaps n (range_before cursor height) ≡ (leb (position cursor) n && ltb n height)
in_gaps-before n height none h fits = ground arith
in_gaps-before n height (some start) h fits = ground arith

pub position-next : (height : ℕ) → height ≤ u64_max → position (checked_add height 1) ≡ height + 1
position-next height fits = ground arith

pub IsReplayed-skip :
    (from height : ℕ) (cursor : Option ℕ) (finished : List Interval) (skipped : List ℕ)
    → IsReplayed from cursor finished skipped
    → position cursor ≤ height
    → height ≤ u64_max
    → IsReplayed from
        (checked_add height 1)
        (finished ++ range_before cursor height)
        (height ∷ skipped)
IsReplayed-skip from height cursor finished skipped (starts, below, exactly) behind fits = (
  omega (arith, position-next height fits),
  λ n e. ground (arith, below n, position-next height fits),
  λ n.
      any-append (meets n n) finished (range_before cursor height)
      ∙ ground (
        arith,
        exactly n,
        below n,
        in_gaps-before n height cursor behind fits,
        position-next height fits,
      ),
)

in_gaps-after :
    (n from : ℕ) (cursor : Option ℕ) (end : ℕ)
    → position cursor ≤ end + 1
    → end ≤ u64_max
    → in_gaps n (range_after cursor (some end)) ≡ (leb (position cursor) n && leb n end)
in_gaps-after n from none end h fits = ground arith
in_gaps-after n from (some start) end h fits = ground arith

pub IsReplayed-close :
    (from end : ℕ) (cursor : Option ℕ) (finished : List Interval) (skipped : List ℕ)
    → IsReplayed from cursor finished skipped
    → position cursor ≤ end + 1
    → end ≤ u64_max
    → (n : ℕ)
    → in_gaps n (finished ++ range_after cursor (some end))
      ≡ (within from end n && not (among n skipped))
IsReplayed-close from end cursor finished skipped (starts, below, exactly) behind fits n =
    any-append (meets n n) finished (range_after cursor (some end))
    ∙ ground (arith, exactly n, below n, in_gaps-after n from cursor end behind fits)
