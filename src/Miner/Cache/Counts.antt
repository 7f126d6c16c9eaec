-- ===== src/Miner/Cache/Counts.antt =====
-- miner/cache.rs: what each change of the map does to the number of rows of a key and of their holders.
use dashboard_quip_network.Prelude.{
  ℕ, ◌+◌, ◌≡◌, ◌≤◌, ◌<◌, Bool, true, false, Option, none, some, List, [], ◌∷◌, length, leb, ◌==◌,
  if◌then◌else◌, Bool-cases, inl, inr, arith, refl, sym, subst, ◌∙◌, if_true, if_false,
}
use mathlib.Core.Option.{some-injective}
use dashboard_quip_network.Prelude.Texts.{same_text, same_text_refl, same_text-eq}
use dashboard_quip_network.Miner.Cache.{
  Row, retain, older, oldest_idle, contains_key, remove, update, hold, drop,
}

module _ {A : Type 0} where
  -- How many rows have a key, and what the slots of these rows count.
  abbrev pub rows_of : List ℕ → List (Row A) → ℕ
  rows_of k [] = 0
  rows_of k (r ∷ rs) = (if same_text r.key k then 1 else 0) + rows_of k rs

  abbrev pub strong_of : List ℕ → List (Row A) → ℕ
  strong_of k [] = 0
  strong_of k (r ∷ rs) = (if same_text r.key k then r.strong_count else 0) + strong_of k rs

abbrev pub one : List ℕ → List ℕ → ℕ
one j k = if same_text j k then 1 else 0

pub same_text_left : (i j k : List ℕ) → same_text i j ≡ true → same_text i k ≡ same_text j k
same_text_left i j k e = rw (same_text-eq i j e) refl

module _ {A : Type 0} where
  pub strong_of_zero : (j : List ℕ) (rs : List (Row A)) → rows_of j rs ≡ 0 → strong_of j rs ≡ 0
  strong_of_zero j [] e = refl
  strong_of_zero j (r ∷ rs) e = ground (arith, strong_of_zero j rs)

  -- A test that every held row passes.
  abbrev pub KeepsHeld : (Row A → Bool) → Type 0
  KeepsHeld p = (r : Row A) → p r ≡ false → r.strong_count ≤ 1

  pub retain_held :
      (p : Row A → Bool) (h : KeepsHeld p) (k : List ℕ) (rs : List (Row A))
      → rows_of k rs ≤ 1
      → rows_of k rs ≤ strong_of k rs
      → (rows_of k (retain p rs) ≤ rows_of k rs)
        × (strong_of k (retain p rs) + rows_of k rs ≡ strong_of k rs + rows_of k (retain p rs))
  unfolding retain
  retain_held p h k [] u s = ground arith
  retain_held p h k (r ∷ rs) u s = elim (Bool-cases (p r)) [
    | inl e ↦ rw e (ground (arith, retain_held p h k rs, strong_of_zero k rs))
    | inr e ↦ rw e (ground (arith, h r e, retain_held p h k rs, strong_of_zero k rs))
  ]

  pub length-retain : (p : Row A → Bool) (rs : List (Row A)) → length (retain p rs) ≤ length rs
  unfolding retain
  length-retain p [] = omega arith
  length-retain p (r ∷ rs) = ground (arith, length-retain p rs)

  pub rows_of-update :
      (f : Row A → Row A) (h : (r : Row A) → (f r).key ≡ r.key) (j k : List ℕ) (rs : List (Row A))
      → (rows_of k (update j f rs) ≡ rows_of k rs) × (length (update j f rs) ≡ length rs)
  unfolding update
  rows_of-update f h j k [] = (refl, refl)
  rows_of-update f h j k (r ∷ rs) = elim (Bool-cases (same_text r.key j)) [
    | inl e ↦ rw (e, h r) (refl, refl)
    | inr e ↦ rw e (ground (arith, rows_of-update f h j k rs))
  ]

  pub strong_of-update :
      (f : Row A → Row A) (h : (r : Row A) → (f r).key ≡ r.key)
      (c : (r : Row A) → (f r).strong_count ≡ r.strong_count) (j k : List ℕ) (rs : List (Row A))
      → strong_of k (update j f rs) ≡ strong_of k rs
  unfolding update
  strong_of-update f h c j k [] = refl
  strong_of-update f h c j k (r ∷ rs) = elim (Bool-cases (same_text r.key j)) [
    | inl e ↦ rw (e, h r, c r) refl
    | inr e ↦ rw e (ground (arith, strong_of-update f h c j k rs))
  ]

  pub strong_of-hold :
      (now : ℕ) (j k : List ℕ) (rs : List (Row A))
      → contains_key j rs ≡ true
      → strong_of k (update j (hold now) rs) ≡ strong_of k rs + one j k
  unfolding update hold contains_key
  strong_of-hold now j k [] e = cc e
  strong_of-hold now j k (r ∷ rs) m = elim (Bool-cases (same_text r.key j)) [
    | inl e ↦ rw e (ground (arith, same_text_left r.key j k e))
    | inr e ↦ rw e (ground (arith, strong_of-hold now j k rs))
  ]

  pub contains_key-false :
      (j : List ℕ) (rs : List (Row A)) → contains_key j rs ≡ false → rows_of j rs ≡ 0
  unfolding contains_key
  contains_key-false j [] e = refl
  contains_key-false j (r ∷ rs) e = ground (arith, contains_key-false j rs)

  pub strong_of-drop :
      (j k : List ℕ) (rs : List (Row A))
      → rows_of j rs ≤ 1
      → 0 < strong_of j rs
      → strong_of k (update j drop rs) + one j k ≡ strong_of k rs
  unfolding update drop
  strong_of-drop j k [] u s = omega (arith, s)
  strong_of-drop j k (r ∷ rs) u s = elim (Bool-cases (same_text r.key j)) [
    | inl e ↦ rw e (ground (arith, same_text_left r.key j k e, strong_of_zero j rs))
    | inr e ↦ rw e (ground (arith, strong_of-drop j k rs))
  ]

  -- An idle row with the key.
  abbrev pub HasIdle : Row A → List (Row A) → Type 0
  HasIdle q rs = (1 ≤ rows_of q.key rs) × (rows_of q.key rs ≤ 1 → strong_of q.key rs ≡ 1)

  pub remove_held :
      (j k : List ℕ) (rs : List (Row A))
      → rows_of j rs ≡ 1
      → (rows_of k (remove j rs) + one j k ≡ rows_of k rs)
        × (strong_of k (remove j rs) + (if same_text j k then strong_of j rs else 0)
            ≡ strong_of k rs)
        × (length (remove j rs) + 1 ≡ length rs)
  unfolding remove
  remove_held j k [] u = omega (arith, u)
  remove_held j k (r ∷ rs) u = elim (Bool-cases (same_text r.key j)) [
    | inl e ↦ rw e (ground (arith, same_text_left r.key j k e, strong_of_zero j rs))
    | inr e ↦ rw e (ground (arith, remove_held j k rs))
  ]

module _ {A : Type 0} where
  HasIdle-here : (r : Row A) (rs : List (Row A)) → r.strong_count ≡ 1 → HasIdle r (r ∷ rs)
  HasIdle-here r rs c = (
    ground (arith, same_text_refl r.key),
    λ u. ground (arith, same_text_refl r.key, strong_of_zero r.key rs),
  )

  HasIdle-there : (q r : Row A) (rs : List (Row A)) → HasIdle q rs → HasIdle q (r ∷ rs)
  HasIdle-there q r rs h = (ground (arith, h.0), λ u. ground (arith, h.0, h.1))

  older-HasIdle :
      (q r : Row A) (rs : List (Row A)) (rest : Option (Row A))
      → ((i : Row A) → rest ≡ some i → HasIdle i rs)
      → r.strong_count ≡ 1
      → older r rest ≡ q
      → HasIdle q (r ∷ rs)
  unfolding older
  older-HasIdle q r rs none h c e = subst (λ x. HasIdle x (r ∷ rs)) e (HasIdle-here r rs c)
  older-HasIdle q r rs (some i) h c e = elim (Bool-cases (leb r.used i.used)) [
    | inl le ↦ subst (λ x. HasIdle x (r ∷ rs)) (sym (if_true _ r i le) ∙ e) (HasIdle-here r rs c)
    | inr gt ↦
        subst (λ x. HasIdle x (r ∷ rs)) (sym (if_false _ r i gt) ∙ e)
          (HasIdle-there i r rs (h i refl))
  ]

  pub oldest_idle-HasIdle : (q : Row A) (rs : List (Row A)) → oldest_idle rs ≡ some q → HasIdle q rs
  unfolding oldest_idle
  oldest_idle-HasIdle q [] e = cc e
  oldest_idle-HasIdle q (r ∷ rs) e = elim (Bool-cases (r.strong_count == 1)) [
    | inl c ↦
        older-HasIdle q r rs (oldest_idle rs) (λ i m. oldest_idle-HasIdle i rs m) (ground arith)
          (some-injective _ _ (sym (if_true _ _ _ c) ∙ e))
    | inr c ↦ HasIdle-there q r rs (oldest_idle-HasIdle q rs (cc (e, c)))
  ]
