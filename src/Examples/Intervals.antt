-- ===== src/Examples/Intervals.antt =====
-- Runs of the coverage of a domain and of the plans made from it.
use dashboard_quip_network.Prelude.{
  ◌≡◌, ◌↔◌, refl, true, not, ◌&&◌, ◌||◌, none, some, [], ◌∷◌, leb, arith, ok,
}
use dashboard_quip_network.Coverage
use dashboard_quip_network.Coverage.{Interval, Coverage, contains, cover, check_persisted}
use dashboard_quip_network.Coverage.Valid.{IsValid, check_persisted-ok_iff, cover-IsValid}
use dashboard_quip_network.Coverage.Points.{covers, within, in_gaps, cover-points, cover-contains}
use dashboard_quip_network.Plan.{uncovered}
use dashboard_quip_network.Plan.Points.{above_floor, uncovered-points}

-- Heights 10 to 30 without 14 to 20.
abbrev gapped : Coverage
gapped = record {
  v = 1;
  gen = 2;
  start = 5;
  low = some 10;
  high = some 30;
  gaps = record { first = 14; last = 20 } ∷ [];
  pruned_floor = some 7;
  updated_at = none;
}

gapped_accepted : check_persisted 2 gapped ≡ ok gapped
unfolding check_persisted Coverage.header_invalid Coverage.gaps_invalid Coverage.gap_invalid
gapped_accepted = refl

gapped-IsValid : IsValid 2 gapped
gapped-IsValid = (check_persisted-ok_iff 2 gapped (omega arith)).0 gapped_accepted

check_persisted-ok_iff_example : (check_persisted 2 gapped ≡ ok gapped) ↔ IsValid 2 gapped
check_persisted-ok_iff_example = check_persisted-ok_iff 2 gapped (omega arith)

-- The same with 16 and 17 covered: the gap is split.
abbrev split : Coverage
split = record gapped {
  gaps = record { first = 14; last = 15 } ∷ record { first = 18; last = 20 } ∷ [];
  updated_at = some [];
}

gapped-split : cover [] gapped 16 17 ≡ ok (true, split)
unfolding cover contains Coverage.extend Coverage.subtract_gaps Coverage.split_gap
    Coverage.push_gaps Coverage.sort_gaps Coverage.insert_gap
gapped-split = refl

cover-points_example : covers split 15 ≡ (covers gapped 15 || within 16 17 15)
cover-points_example =
    cover-points [] 2 16 17 15 gapped split true (omega arith) gapped-IsValid gapped-split

cover-IsValid_example : IsValid 2 split
cover-IsValid_example =
    cover-IsValid [] 2 16 17 gapped split true (omega arith) gapped-IsValid gapped-split

cover-contains_example :
    (c' : Coverage) × (cover [] gapped 16 35 ≡ ok (not (contains gapped 16 35), c'))
    × (contains c' 16 35 ≡ true)
cover-contains_example =
    cover-contains [] 2 16 35 gapped (omega arith) (omega arith) (omega arith) gapped-IsValid

uncovered-points_example :
    in_gaps 9 (uncovered gapped 40)
    ≡ (leb gapped.start 9 && leb 9 40 && above_floor gapped.pruned_floor 9 && not (covers gapped 9))
uncovered-points_example = uncovered-points 2 40 9 gapped (omega arith) gapped-IsValid
