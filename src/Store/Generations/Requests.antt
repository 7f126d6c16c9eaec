-- ===== src/Store/Generations/Requests.antt =====
-- The domains that a `reindex` is asked for: sorted, and each once.
use dashboard_quip_network.Prelude.{
  ℕ, ◌+◌, ◌≤◌, ◌<◌, ◌≡◌, refl, Bool, false, ◌||◌, List, [], ◌∷◌, any, leb, arith, Bool-cases, inl,
  inr, ◌∙◌,
}
use dashboard_quip_network.Store.{Indexable, rank, same_domain}
use dashboard_quip_network.Store.Views.{same_domain-eq}
use dashboard_quip_network.Store.Generations.{insert_domain, sort_domains, dedup_domains}

-- The domain is one of the list.
abbrev pub named : List Indexable → Indexable → Bool
named is j = any (λ i. same_domain i j) is

-- The ranks never fall, from `n` on.
abbrev pub Rising : ℕ → List Indexable → Type 0
Rising n [] = Unit
Rising n (i ∷ is) = n ≤ rank i × Rising (rank i) is

-- The ranks rise at each step, from `n` on.
abbrev pub Ascending : ℕ → List Indexable → Type 0
Ascending n [] = Unit
Ascending n (i ∷ is) = n ≤ rank i × Ascending (1 + rank i) is

Rising-weaken : (n k : ℕ) (is : List Indexable) → n ≤ k → Rising k is → Rising n is
Rising-weaken n k [] h r = tt
Rising-weaken n k (i ∷ is) h r = (omega (arith, r.0), r.1)

insert_domain-Rising :
    (n : ℕ) (i : Indexable) (is : List Indexable)
    → n ≤ rank i
    → Rising n is
    → Rising n (insert_domain i is)
unfolding insert_domain
insert_domain-Rising n i [] h r = (h, tt)
insert_domain-Rising n i (j ∷ js) h r = elim (Bool-cases (leb (rank i) (rank j))) [
  | inl e ↦ rw e (h, (ground arith, r.1))
  | inr e ↦ rw e (r.0, insert_domain-Rising (rank j) i js (ground arith) r.1)
]

pub sort_domains-Rising : (is : List Indexable) → Rising 0 (sort_domains is)
unfolding sort_domains
sort_domains-Rising [] = tt
sort_domains-Rising (i ∷ is) =
    insert_domain-Rising 0 i (sort_domains is) (omega arith) (sort_domains-Rising is)

pub dedup_domains-Ascending :
    (n : ℕ) (is : List Indexable) → Rising n is → Ascending n (dedup_domains is)
unfolding dedup_domains
dedup_domains-Ascending n [] r = tt
dedup_domains-Ascending n (i ∷ []) r = r
dedup_domains-Ascending n (i ∷ j ∷ js) r = elim (Bool-cases (same_domain i j)) [
  | inl e ↦ rw e (dedup_domains-Ascending n (j ∷ js) (ground arith, r.1.1))
  | inr e ↦ rw e (r.0, dedup_domains-Ascending (1 + rank i) (j ∷ js) (ground arith, r.1.1))
]

insert_domain-named :
    (i j : Indexable) (is : List Indexable)
    → named (insert_domain i is) j ≡ (same_domain i j || named is j)
unfolding insert_domain
insert_domain-named i j [] = refl
insert_domain-named i j (k ∷ ks) = elim (Bool-cases (leb (rank i) (rank k))) [
  | inl e ↦ rw e
  | inr e ↦ rw e (ground (arith, insert_domain-named i j ks))
]

pub sort_domains-named :
    (j : Indexable) (is : List Indexable) → named (sort_domains is) j ≡ named is j
unfolding sort_domains
sort_domains-named j [] = refl
sort_domains-named j (i ∷ is) =
    insert_domain-named i j (sort_domains is) ∙ rw (sort_domains-named j is)

pub dedup_domains-named :
    (j : Indexable) (is : List Indexable) → named (dedup_domains is) j ≡ named is j
unfolding dedup_domains
dedup_domains-named j [] = refl
dedup_domains-named j (i ∷ []) = refl
dedup_domains-named j (i ∷ k ∷ ks) = elim (Bool-cases (same_domain i k)) [
  | inl e ↦ rw (e, dedup_domains-named j (k ∷ ks), same_domain-eq i k e) (ground arith)
  | inr e ↦ rw (e, dedup_domains-named j (k ∷ ks))
]

pub Ascending-named :
    (n : ℕ) (j : Indexable) (is : List Indexable) → Ascending n is → rank j < n → named is j ≡ false
Ascending-named n j [] a h = refl
Ascending-named n j (i ∷ is) a h =
    ground (arith, Ascending-named (1 + rank i) j is a.1 (omega (arith, a.0)))

pub named-cons :
    (i j : Indexable) (is : List Indexable) → (named (i ∷ []) j || named is j) ≡ named (i ∷ is) j
named-cons i j is = elim (Bool-cases (same_domain i j)) [ inl e ↦ rw e | inr e ↦ rw e ]
