-- ===== src/Plan.antt =====
-- crates/quip-dashboard/src/indexer/coverage.rs: which height intervals are still to be indexed.
pub mod Points
use dashboard_quip_network.Prelude.{
  ℕ, ◌+◌, ◌-◌, Bool, true, false, ◌||◌, Option, none, some, List, [], ◌∷◌, ◌++◌, min, max, leb, ltb,
  ◌==◌, if◌then◌else◌,
}
use dashboard_quip_network.Prelude.Words.{u64_max, checked_add}
use dashboard_quip_network.Coverage.{Interval, Coverage}

-- The first height to plan; `none` where everything up to the largest u64 is pruned.
unfoldable pub planned_start : Coverage → Option ℕ
planned_start c = elim c.pruned_floor [
  | none ↦ some c.start
  | some floor ↦ if floor == u64_max then none else some (max c.start (floor + 1))
]

-- The loop over the gaps, clipped to `[start, head]`.
unfoldable pub clip_gaps : ℕ → ℕ → List Interval → List Interval
clip_gaps start head [] = []
clip_gaps start head (g ∷ gs) =
    (if leb (max g.first start) (min g.last head)
      then record { first = max g.first start; last = min g.last head } ∷ []
      else [])
    ++ clip_gaps start head gs

unfoldable pub tail_range : ℕ → ℕ → Option ℕ → List Interval
tail_range start head none = []
tail_range start head (some tail) =
    if leb (max tail start) head then record { first = max tail start; last = head } ∷ [] else []

unfoldable pub ranges_from : ℕ → ℕ → Option ℕ → Option ℕ → List Interval → List Interval
ranges_from start head (some low) (some high) gaps =
    (if ltb start low then record { first = start; last = min head (low - 1) } ∷ [] else [])
    ++ clip_gaps start head gaps
    ++ tail_range start head (checked_add high 1)
ranges_from start head _ _ gaps = record { first = start; last = head } ∷ []

unfoldable pub uncovered : Coverage → ℕ → List Interval
uncovered c head = elim (planned_start c) [
  | none ↦ []
  | some start ↦ if ltb head start then [] else ranges_from start head c.low c.high c.gaps
]

unfoldable pub insert_point : ℕ → List ℕ → List ℕ
insert_point p [] = p ∷ []
insert_point p (q ∷ qs) = if leb p q then p ∷ q ∷ qs else q ∷ insert_point p qs

-- `points.sort_unstable()`
unfoldable pub sort_points : List ℕ → List ℕ
sort_points [] = []
sort_points (p ∷ ps) = insert_point p (sort_points ps)

-- `points.dedup()`: of equal neighbours the first stays.
unfoldable pub dedup : List ℕ → List ℕ
dedup [] = []
dedup (p ∷ []) = p ∷ []
dedup (p ∷ q ∷ qs) = let rest = dedup (q ∷ qs) in if p == q then rest else p ∷ rest

-- The loop over the points with its cursor, and the last interval pushed behind it.
unfoldable pub subtract_loop : ℕ → Option ℕ → List ℕ → List Interval
subtract_loop through none ps = []
subtract_loop through (some start) [] =
    if leb start through then record { first = start; last = through } ∷ [] else []
subtract_loop through (some start) (p ∷ ps) =
    let skip = ltb p start || ltb through p in
    (if skip then [] else if ltb start p then record { first = start; last = p - 1 } ∷ [] else [])
    ++ subtract_loop through (if skip then some start else checked_add p 1) ps

unfoldable pub subtract_points : Interval → List ℕ → List Interval
subtract_points range points =
    if ltb range.last range.first
    then []
    else subtract_loop range.last (some range.first) (dedup (sort_points points))
