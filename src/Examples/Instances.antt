-- ===== src/Examples/Instances.antt =====
-- One encoding of the values kept as JSON, and one choice of the record tables.
use dashboard_quip_network.Prelude.{
  ℕ, suc, zero, ◌≡◌, refl, Bool, true, Option, none, some, List, [], ◌∷◌, ◌++◌, leb, if◌then◌else◌,
  arith, ok, length, ap,
}
use dashboard_quip_network.Prelude.Texts.{same_text}
use dashboard_quip_network.Prelude.Words.{u64_max}
use dashboard_quip_network.Decimal.{Text}
use dashboard_quip_network.Coverage.{Interval, Coverage}
use dashboard_quip_network.Coverage.Valid.{FitsU64}
use dashboard_quip_network.Store.{Indexable, winners, difficulty, participation, authorship, Json}
use dashboard_quip_network.Store.Blocks.{Tables}

abbrev number : Option ℕ → ℕ
number none = 0
number (some n) = suc n

abbrev option_of : ℕ → Option ℕ
option_of zero = none
option_of (suc n) = some n

abbrev pairs : List Interval → List ℕ
pairs [] = []
pairs (g ∷ gs) = g.first ∷ g.last ∷ pairs gs

abbrev pairs_of : List ℕ → List Interval
pairs_of (a ∷ b ∷ rest) = record { first = a; last = b } ∷ pairs_of rest
pairs_of _ = []

abbrev first_of : ℕ → List ℕ → List ℕ
first_of zero xs = []
first_of (suc k) [] = []
first_of (suc k) (x ∷ xs) = x ∷ first_of k xs

abbrev rest_of : ℕ → List ℕ → List ℕ
rest_of zero xs = xs
rest_of (suc k) [] = []
rest_of (suc k) (x ∷ xs) = rest_of k xs

pairs_of-pairs : (gs : List Interval) → pairs_of (pairs gs) ≡ gs
pairs_of-pairs [] = refl
pairs_of-pairs (g ∷ gs) = ap (λ hs. g ∷ hs) (pairs_of-pairs gs)

pub first_of-append : (xs ys : List ℕ) → first_of (length xs) (xs ++ ys) ≡ xs
first_of-append [] ys = refl
first_of-append (x ∷ xs) ys = ap (λ zs. x ∷ zs) (first_of-append xs ys)

pub rest_of-append : (xs ys : List ℕ) → rest_of (length xs) (xs ++ ys) ≡ ys
rest_of-append [] ys = refl
rest_of-append (x ∷ xs) ys = rest_of-append xs ys

-- The optional time stamp, then the gaps.
abbrev tail_text : Option (List ℕ) → List Interval → List ℕ
tail_text none gs = 0 ∷ pairs gs
tail_text (some t) gs = suc (length t) ∷ t ++ pairs gs

abbrev encode_coverage : Coverage → Text
encode_coverage c =
    c.v
    ∷ c.gen
    ∷ c.start
    ∷ number c.low
    ∷ number c.high
    ∷ number c.pruned_floor
    ∷ tail_text c.updated_at c.gaps

abbrev stamp_of : ℕ → List ℕ → Option (List ℕ) × List Interval
stamp_of zero rest = (none, pairs_of rest)
stamp_of (suc k) rest = (some (first_of k rest), pairs_of (rest_of k rest))

abbrev fits : Option ℕ → Bool
fits none = true
fits (some n) = leb n u64_max

abbrev decode_coverage : Text → Option Coverage
decode_coverage (v ∷ gen ∷ start ∷ low ∷ high ∷ floor ∷ stamp ∷ rest) =
    if fits (option_of high)
    then some (record {
      v = v;
      gen = gen;
      start = start;
      low = option_of low;
      high = option_of high;
      gaps = (stamp_of stamp rest).1;
      pruned_floor = option_of floor;
      updated_at = (stamp_of stamp rest).0;
    })
    else none
decode_coverage _ = none

option_of-number : (o : Option ℕ) → option_of (number o) ≡ o
option_of-number none = refl
option_of-number (some n) = refl

fits-true : (o : Option ℕ) → FitsU64 o → fits o ≡ true
fits-true none h = refl
fits-true (some n) h = ground arith

pub decode_parts :
    (v gen start : ℕ) (low high floor : Option ℕ) (stamp : Option (List ℕ)) (gs : List Interval)
    → FitsU64 high
    → decode_coverage
        (v ∷ gen ∷ start ∷ number low ∷ number high ∷ number floor ∷ tail_text stamp gs)
      ≡ some (record {
        v = v;
        gen = gen;
        start = start;
        low = low;
        high = high;
        gaps = gs;
        pruned_floor = floor;
        updated_at = stamp;
      })
decode_parts v gen start low high floor none gs h = rw (
  option_of-number low,
  option_of-number high,
  option_of-number floor,
  fits-true high h,
  pairs_of-pairs gs,
)
decode_parts v gen start low high floor (some t) gs h = rw (
  option_of-number low,
  option_of-number high,
  option_of-number floor,
  fits-true high h,
  first_of-append t (pairs gs),
  rest_of-append t (pairs gs),
  pairs_of-pairs gs,
)

fits-FitsU64 : (o : Option ℕ) → fits o ≡ true → FitsU64 o
fits-FitsU64 none e = tt
fits-FitsU64 (some n) e = ground arith

pub decode-fits : (t : Text) (c : Coverage) → decode_coverage t ≡ some c → FitsU64 c.high
decode-fits (v ∷ gen ∷ start ∷ low ∷ high ∷ floor ∷ stamp ∷ rest) c e =
    let same : (fits (option_of high) ≡ true) × (c.high ≡ option_of high) = ground arith in
    rw (same.1) (fits-FitsU64 (option_of high) same.0)
decode-fits [] c e = cc e
decode-fits (a ∷ []) c e = cc e
decode-fits (a ∷ b ∷ []) c e = cc e
decode-fits (a ∷ b ∷ d ∷ []) c e = cc e
decode-fits (a ∷ b ∷ d ∷ f ∷ []) c e = cc e
decode-fits (a ∷ b ∷ d ∷ f ∷ g ∷ []) c e = cc e
decode-fits (a ∷ b ∷ d ∷ f ∷ g ∷ h ∷ []) c e = cc e

abbrev decode_target : Text → Option (Text × Text)
decode_target [] = none
decode_target (k ∷ rest) = some (first_of k rest, rest_of k rest)

abbrev pub plain_json : Json
plain_json = record {
  coverage_text = encode_coverage;
  coverage_of = decode_coverage;
  coverage_law =
      λ c h. decode_parts c.v c.gen c.start c.low c.high c.pruned_floor c.updated_at c.gaps h;
  coverage_fits = decode-fits;
  target_text = λ t. length t.0 ∷ t.0 ++ t.1;
  target_of = decode_target;
  target_law = λ t. rw (first_of-append t.0 t.1, rest_of-append t.0 t.1);
  cursor_text = λ c. c;
  cursor_of = λ t. some t;
  cursor_law = λ c. refl;
}

abbrev hashes_of : Text → List (Text × Text) → List Text
hashes_of h [] = []
hashes_of h (r ∷ rows) = let rest = hashes_of h rows in if same_text r.0 h then r.1 ∷ rest else rest

abbrev dropped : Indexable → List (Text × Text) → List (Text × Text)
dropped winners rows = []
dropped difficulty rows = rows
dropped participation rows = rows
dropped authorship rows = rows

-- Only the winners are stored: their heights and hashes.
abbrev pub winner_tables : Tables
winner_tables = record {
  Rows = List (Text × Text);
  WinnerDetails = Unit {0};
  DifficultyDetails = Unit {0};
  Participant = Unit {0};
  write_winner =
      λ w rows. ok ((w.substrate_block_number.text, w.substrate_block_hash.text) ∷ rows, 1);
  write_difficulty = λ d rows. ok (rows, 1);
  write_authorship = λ a rows. ok (rows, 1);
  write_participant = λ p rows. ok (rows, 1);
  recompute = λ rows. ok rows;
  drop_domain = dropped;
  hashes_at = hashes_of;
}
