-- ===== src/Miner/Attempts/Newest.antt =====
-- miner/parse.rs: what `keep_newest_attempts` keeps.
use dashboard_quip_network.Prelude.{
  ℕ, zero, suc, ◌+◌, ◌-◌, ◌≡◌, ◌≤◌, ◌<◌, Bool, true, false, List, [], ◌∷◌, ◌++◌, leb, length,
  if◌then◌else◌, All, Bool-cases, inl, inr, arith, refl, min, All-map, All-append,
}
use dashboard_quip_network.Prelude.Ints.{leb_int_trans, leb_int_total}
use dashboard_quip_network.Miner.Attempts.{
  attempt_trail_limit, MiningAttempt, key_le, insert_attempt, sort_attempts, drop_first,
  keep_newest_attempts,
}

-- How many rows pass a test.
abbrev pub count_of : (MiningAttempt → Bool) → List MiningAttempt → ℕ
count_of p [] = 0
count_of p (a ∷ bs) = (if p a then 1 else 0) + count_of p bs

pub count_of-append :
    (p : MiningAttempt → Bool) (xs ys : List MiningAttempt)
    → count_of p (xs ++ ys) ≡ count_of p xs + count_of p ys
count_of-append p [] ys = omega arith
count_of-append p (x ∷ xs) ys = ground (arith, count_of-append p xs ys)

count_of-insert :
    (p : MiningAttempt → Bool) (a : MiningAttempt) (bs : List MiningAttempt)
    → count_of p (insert_attempt a bs) ≡ (if p a then 1 else 0) + count_of p bs
unfolding insert_attempt
count_of-insert p a [] = refl
count_of-insert p a (b ∷ bs) = ground (arith, count_of-insert p a bs)

count_of-sort :
    (p : MiningAttempt → Bool) (xs : List MiningAttempt)
    → count_of p (sort_attempts xs) ≡ count_of p xs
unfolding sort_attempts
count_of-sort p [] = refl
count_of-sort p (a ∷ bs) =
    ground (arith, count_of-insert p a (sort_attempts bs), count_of-sort p bs)

pub key_le_trans :
    (a b c : MiningAttempt) → key_le a b ≡ true → key_le b c ≡ true → key_le a c ≡ true
unfolding key_le
key_le_trans a b c p q = ground (arith, leb_int_trans a.iter b.iter c.iter)

key_le_total : (a b : MiningAttempt) → key_le a b ≡ false → key_le b a ≡ true
unfolding key_le
key_le_total a b p = ground (arith, leb_int_total a.iter b.iter)

-- Every row is at or after `a`.
abbrev pub AllAfter : MiningAttempt → List MiningAttempt → Type 0
AllAfter a bs = All (λ b. key_le a b ≡ true) bs

abbrev IsSorted : List MiningAttempt → Type 0
IsSorted [] = Unit
IsSorted (a ∷ bs) = AllAfter a bs × IsSorted bs

AllAfter-trans :
    (a b : MiningAttempt) (cs : List MiningAttempt)
    → key_le a b ≡ true
    → AllAfter b cs
    → AllAfter a cs
AllAfter-trans a b [] p h = tt
AllAfter-trans a b (c ∷ cs) p h = (key_le_trans a b c p h.0, AllAfter-trans a b cs p h.1)

AllAfter-insert :
    (z a : MiningAttempt) (bs : List MiningAttempt)
    → key_le z a ≡ true
    → AllAfter z bs
    → AllAfter z (insert_attempt a bs)
unfolding insert_attempt
AllAfter-insert z a [] p h = (p, tt)
AllAfter-insert z a (b ∷ bs) p h = elim (Bool-cases (key_le a b)) [
  | inl le ↦ rw le (p, h)
  | inr gt ↦ rw gt (h.0, AllAfter-insert z a bs p h.1)
]

insert-IsSorted :
    (a : MiningAttempt) (bs : List MiningAttempt) → IsSorted bs → IsSorted (insert_attempt a bs)
unfolding insert_attempt
insert-IsSorted a [] h = (tt, tt)
insert-IsSorted a (b ∷ bs) h = elim (Bool-cases (key_le a b)) [
  | inl le ↦ rw le ((le, AllAfter-trans a b bs le h.0), h)
  | inr gt ↦ rw gt (AllAfter-insert b a bs (key_le_total a b gt) h.0, insert-IsSorted a bs h.1)
]

sort-IsSorted : (xs : List MiningAttempt) → IsSorted (sort_attempts xs)
unfolding sort_attempts
sort-IsSorted [] = tt
sort-IsSorted (a ∷ bs) = insert-IsSorted a (sort_attempts bs) (sort-IsSorted bs)

-- The rows that `drain` takes away.
abbrev pub take_first : ℕ → List MiningAttempt → List MiningAttempt
take_first n [] = []
take_first zero (a ∷ bs) = []
take_first (suc n) (a ∷ bs) = a ∷ take_first n bs

count_of-take_first :
    (p : MiningAttempt → Bool) (n : ℕ) (xs : List MiningAttempt)
    → count_of p (take_first n xs) + count_of p (drop_first n xs) ≡ count_of p xs
unfolding drop_first
count_of-take_first p n [] = refl
count_of-take_first p zero (a ∷ bs) = omega arith
count_of-take_first p (suc n) (a ∷ bs) = omega (arith, count_of-take_first p n bs)

pub length-count_of : (xs : List MiningAttempt) → length xs ≡ count_of (λ a. true) xs
length-count_of [] = refl
length-count_of (a ∷ bs) = omega (arith, length-count_of bs)

pub length-drop_first : (n : ℕ) (xs : List MiningAttempt) → length (drop_first n xs) ≡ length xs - n
unfolding drop_first
length-drop_first n [] = omega arith
length-drop_first zero (a ∷ bs) = omega arith
length-drop_first (suc n) (a ∷ bs) = omega (arith, length-drop_first n bs)

length-sort : (xs : List MiningAttempt) → length (sort_attempts xs) ≡ length xs
length-sort xs =
    omega
      (arith, length-count_of xs, length-count_of (sort_attempts xs), count_of-sort (λ a. true) xs)

pub count_of-le : (p : MiningAttempt → Bool) (xs : List MiningAttempt) → count_of p xs ≤ length xs
count_of-le p [] = omega arith
count_of-le p (a ∷ bs) = ground (arith, count_of-le p bs)

count_of-AllAfter :
    (d : MiningAttempt) (xs : List MiningAttempt)
    → AllAfter d xs
    → count_of (key_le d) xs ≡ length xs
count_of-AllAfter d [] h = refl
count_of-AllAfter d (a ∷ bs) h = rw h.0 (omega (arith, count_of-AllAfter d bs h.1))

pub AllAfter-count_of :
    (d : MiningAttempt) (xs : List MiningAttempt)
    → length xs ≤ count_of (key_le d) xs
    → AllAfter d xs
AllAfter-count_of d [] h = tt
AllAfter-count_of d (a ∷ bs) h = (
  ground (arith, count_of-le (key_le d) bs),
  AllAfter-count_of d bs (ground (arith, count_of-le (key_le d) bs)),
)

AllAfter-tail :
    (d : MiningAttempt) (n : ℕ) (xs : List MiningAttempt)
    → AllAfter d xs
    → AllAfter d (drop_first n xs)
unfolding drop_first
AllAfter-tail d n [] h = tt
AllAfter-tail d zero (a ∷ bs) h = h
AllAfter-tail d (suc n) (a ∷ bs) h = AllAfter-tail d n bs h.1

-- If no more sorted rows stay than there are at or after `d`, those that stay are.
AllAfter-drop_first :
    (d : MiningAttempt) (n : ℕ) (xs : List MiningAttempt)
    → IsSorted xs
    → length xs ≤ count_of (key_le d) xs + n
    → AllAfter d (drop_first n xs)
unfolding drop_first
AllAfter-drop_first d n [] s h = tt
AllAfter-drop_first d zero (a ∷ bs) s h = AllAfter-count_of d (a ∷ bs) (omega arith)
AllAfter-drop_first d (suc n) (a ∷ bs) s h = elim (Bool-cases (key_le d a)) [
  | inl le ↦ AllAfter-tail d n bs (AllAfter-trans d a bs le s.0)
  | inr gt ↦ AllAfter-drop_first d n bs s.1 (ground arith)
]

take_first-AllAfter :
    (n : ℕ) (xs : List MiningAttempt)
    → IsSorted xs
    → All (λ d. AllAfter d (drop_first n xs)) (take_first n xs)
unfolding drop_first
take_first-AllAfter n [] s = tt
take_first-AllAfter zero (a ∷ bs) s = tt
take_first-AllAfter (suc n) (a ∷ bs) s = (AllAfter-tail a n bs s.0, take_first-AllAfter n bs s.1)

-- All the rows are those kept and those dropped, and for each of these, `attempt_trail_limit` rows are
-- kept that are not older.
pub record IsTrimmed (rows kept dropped : List MiningAttempt) : Type 0 where
  pub counts : (p : MiningAttempt → Bool) → count_of p rows ≡ count_of p kept + count_of p dropped
  pub newer : All (λ d. attempt_trail_limit ≤ count_of (key_le d) kept) dropped

-- Rows that are all at or after each dropped one, as many as the limit.
newer-AllAfter :
    (kept dropped : List MiningAttempt)
    → length kept ≡ attempt_trail_limit
    → All (λ d. AllAfter d kept) dropped
    → All (λ d. attempt_trail_limit ≤ count_of (key_le d) kept) dropped
newer-AllAfter kept dropped full h =
    All-map (λ d. AllAfter d kept) (λ d. attempt_trail_limit ≤ count_of (key_le d) kept)
      (λ d after. omega (arith, count_of-AllAfter d kept after)) dropped h

sorted-newer :
    (kept dropped : List MiningAttempt)
    → attempt_trail_limit < length kept
    → All (λ d. attempt_trail_limit ≤ count_of (key_le d) kept) dropped
    → All
        (λ d. AllAfter d (drop_first (length kept - attempt_trail_limit) (sort_attempts kept)))
        dropped
sorted-newer kept dropped more h =
    All-map (λ d. attempt_trail_limit ≤ count_of (key_le d) kept)
      (λ d. AllAfter d (drop_first (length kept - attempt_trail_limit) (sort_attempts kept)))
      (λ d enough.
        AllAfter-drop_first d (length kept - attempt_trail_limit) (sort_attempts kept)
          (sort-IsSorted kept) (omega (arith, length-sort kept, count_of-sort (key_le d) kept)))
      dropped h

keep_newest-more :
    (rows kept dropped : List MiningAttempt)
    → attempt_trail_limit < length kept
    → IsTrimmed rows kept dropped
    → (dropped' : List MiningAttempt) × IsTrimmed rows
        (drop_first (length kept - attempt_trail_limit) (sort_attempts kept))
        dropped'
keep_newest-more rows kept dropped more h =
    let n = length kept - attempt_trail_limit in
    let sorted = sort_attempts kept in
    (
      take_first n sorted ++ dropped,
      record {
        counts = λ p. omega (
          arith,
          h.counts p,
          count_of-append p (take_first n sorted) dropped,
          count_of-take_first p n sorted,
          count_of-sort p kept,
        );
        newer =
            newer-AllAfter (drop_first n sorted) (take_first n sorted ++ dropped)
              (omega (arith, length-drop_first n sorted, length-sort kept))
              (All-append (λ d. AllAfter d (drop_first n sorted)) (take_first n sorted) dropped
                (take_first-AllAfter n sorted (sort-IsSorted kept))
                (sorted-newer kept dropped more h.newer));
      },
    )

pub keep_newest_attempts-IsTrimmed :
    (rows kept dropped : List MiningAttempt)
    → IsTrimmed rows kept dropped
    → (dropped' : List MiningAttempt) × IsTrimmed rows (keep_newest_attempts kept) dropped'
unfolding keep_newest_attempts
keep_newest_attempts-IsTrimmed rows kept dropped h =
    elim (Bool-cases (leb (length kept) attempt_trail_limit)) [
      | inl few ↦ rw few (dropped, h)
      | inr more ↦ rw more (keep_newest-more rows kept dropped (ground arith) h)
    ]

pub length-keep_newest_attempts :
    (kept : List MiningAttempt)
    → length (keep_newest_attempts kept) ≡ min (length kept) attempt_trail_limit
unfolding keep_newest_attempts
length-keep_newest_attempts kept = ground (
  arith,
  length-sort kept,
  length-drop_first (length kept - attempt_trail_limit) (sort_attempts kept),
)
