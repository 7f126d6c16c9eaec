-- ===== src/Budget/Steps.antt =====
-- budget.rs: the budget while charges are reserved and dropped, one whole operation at a time.
use dashboard_quip_network.Prelude.{
  ℕ, ◌+◌, ◌-◌, ◌≤◌, ◌≡◌, true, some, List, [], ◌∷◌, ◌++◌, ◌==◌, if◌then◌else◌, arith, Option-cases,
  inl, inr, Bool-cases, ◌∙◌,
}
use dashboard_quip_network.Prelude.Words.{wrapping_sub}
use dashboard_quip_network.Budget.{
  Kind, response, metadata, block, active, active_block, limit, Budget, default, Charge, counter,
  set_counter, admitted, raise_peak, reserve, drop,
}

abbrev kind_rank : Kind → ℕ
kind_rank response = 0
kind_rank metadata = 1
kind_rank block = 2
kind_rank active = 3
kind_rank active_block = 4

-- The bytes of the charges of a kind.
abbrev pub held : Kind → List Charge → ℕ
held k [] = 0
held k (c ∷ cs) = (if kind_rank c.kind == kind_rank k then c.bytes else 0) + held k cs

held-append : (k : Kind) (xs ys : List Charge) → held k (xs ++ ys) ≡ held k xs + held k ys
held-append k [] ys = omega arith
held-append k (c ∷ cs) ys = omega (arith, held-append k cs ys)

-- The budget and the charges that are held.
abbrev pub System : Type 0
System = Budget × List Charge

pub data Step : System → System → Type 0 where
  take :
      (k : Kind) (n : ℕ) (b b' : Budget) (c : Charge) (cs : List Charge)
      → reserve k n b ≡ some (c, b')
      → Step (b, cs) (b', c ∷ cs)
  give :
      (b : Budget) (xs ys : List Charge) (c : Charge) → Step (b, xs ++ c ∷ ys) (drop c b, xs ++ ys)

pub data Reach : System → Type 0 where
  start : Reach (default, [])
  next : (s t : System) → Reach s → Step s t → Reach t

-- Each counter is what is held and within its limit, and the peak bounds the first three.
abbrev IsBalanced : System → Type 0
IsBalanced s =
    ((k : Kind) → (counter k s.0 ≡ held k s.1) × (held k s.1 ≤ limit k))
    × (s.0.response + s.0.metadata + s.0.block ≤ s.0.peak)

counter-set_counter :
    (k j : Kind) (n : ℕ) (b : Budget)
    → counter j (set_counter k n b) ≡ (if kind_rank k == kind_rank j then n else counter j b)
unfolding counter set_counter
counter-set_counter k j n b = ground arith

counter-raise_peak : (j : Kind) (b : Budget) → counter j (raise_peak b) ≡ counter j b
unfolding counter raise_peak
counter-raise_peak j b = ground arith

limit-le : (k : Kind) → limit k ≤ 67108864
unfolding limit
limit-le k = ground arith

admitted-eq :
    (k : Kind) (n used m : ℕ) → admitted k n used ≡ some m → (m ≡ used + n) × (m ≤ limit k)
unfolding admitted
admitted-eq k n used m e = ground arith

reserve-inv :
    (k : Kind) (n : ℕ) (b b' : Budget) (c : Charge)
    → reserve k n b ≡ some (c, b')
    → (m : ℕ) × (admitted k n (counter k b) ≡ some m)
      × (c ≡ record { kind = k; bytes = n })
      × (b' ≡ raise_peak (set_counter k m b))
unfolding reserve
reserve-inv k n b b' c e = elim (Option-cases (admitted k n (counter k b))) [
  | inl a ↦ ground arith
  | inr (m, a) ↦ (m, a, ground arith, ground arith)
]

rank-eq : (k j : Kind) → (kind_rank k == kind_rank j) ≡ true → k ≡ j
rank-eq k j e = ground arith

take-IsBalanced :
    (k : Kind) (n m : ℕ) (b : Budget) (cs : List Charge)
    → admitted k n (counter k b) ≡ some m
    → IsBalanced (b, cs)
    → IsBalanced (raise_peak (set_counter k m b), record { kind = k; bytes = n } ∷ cs)
take-IsBalanced k n m b cs e h =
    let (sum, small) = admitted-eq k n (counter k b) m e in
    (
      λ j.
          let step = counter-raise_peak j (set_counter k m b) ∙ counter-set_counter k j m b in
          elim (Bool-cases (kind_rank k == kind_rank j)) [
            | inl d ↦
                let same = rank-eq k j d in rw (step, d, ← same) (ground (arith, h.0 k, sum, small))
            | inr d ↦ rw (step, d) (ground (arith, h.0 j))
          ],
      unfold raise_peak in ground arith,
    )

wrapping_sub-le : (a k : ℕ) → k ≤ a → a ≤ 67108864 → wrapping_sub a k ≡ a - k
wrapping_sub-le a k h m = omega (arith, h, m)

set_counter-sum :
    (k : Kind) (n : ℕ) (b : Budget)
    → n ≤ counter k b
    → ((set_counter k n b).response + (set_counter k n b).metadata + (set_counter k n b).block
        ≤ b.response + b.metadata + b.block)
      × ((set_counter k n b).peak ≡ b.peak)
unfolding set_counter counter
set_counter-sum k n b h = ground arith

give-IsBalanced :
    (b : Budget) (xs ys : List Charge) (c : Charge)
    → IsBalanced (b, xs ++ c ∷ ys)
    → IsBalanced (drop c b, xs ++ ys)
give-IsBalanced b xs ys c h =
    let k = c.kind in
    let own : c.bytes ≤ counter k b = ground (arith, h.0 k, held-append k xs (c ∷ ys)) in
    let fits : counter k b ≤ 67108864 = omega (arith, (h.0 k).0, (h.0 k).1, limit-le k) in
    let less = wrapping_sub-le (counter k b) c.bytes own fits in
    (
      unfold drop in
          λ j.
            let step = counter-set_counter k j (wrapping_sub (counter k b) c.bytes) b in
            elim (Bool-cases (kind_rank k == kind_rank j)) [
              | inl d ↦
                  let same = rank-eq k j d in
                  rw (step, d, less, ← same)
                    (ground (arith, h.0 k, held-append k xs (c ∷ ys), held-append k xs ys))
              | inr d ↦
                  rw (step, d)
                    (ground (arith, h.0 j, held-append j xs (c ∷ ys), held-append j xs ys))
            ],
      unfold drop in
          rw less (ground (arith, h.1, set_counter-sum k (counter k b - c.bytes) b (omega arith))),
    )

Step-IsBalanced : (s t : System) → Step s t → IsBalanced s → IsBalanced t
Step-IsBalanced _ _ (take k n b b' c cs e) h =
    let (m, p, q, r) = reserve-inv k n b b' c e in rw (q, r) (take-IsBalanced k n m b cs p h)
Step-IsBalanced _ _ (give b xs ys c) h = give-IsBalanced b xs ys c h

default-IsBalanced : IsBalanced (default, [])
unfolding default counter limit
default-IsBalanced = (λ k. ground arith, omega arith)

-- Whatever charges are reserved and dropped, in any order, each counter is the sum of the charges
-- of its kind that are held, no more than the limit of the kind, and the peak is at least the
-- response, metadata and block bytes together.
pub Reach-IsBalanced : (s : System) → Reach s → IsBalanced s
Reach-IsBalanced _ start = default-IsBalanced
Reach-IsBalanced _ (next s t r e) = Step-IsBalanced s t e (Reach-IsBalanced s r)
