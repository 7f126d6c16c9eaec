-- ===== src/Miner/Cache/Slots.antt =====
-- miner/cache.rs: calls of `get` that share the map of a cache. Every time the map or a slot is locked is
-- one step; `calls` holds the key of each call under way.
use dashboard_quip_network.Prelude.{
  ℕ, ◌+◌, ◌≡◌, ◌≤◌, ◌<◌, Bool, true, false, Option, none, some, List, [], ◌∷◌, length, leb, ltb,
  if◌then◌else◌, ok, Bool-cases, inl, inr, arith, refl, sym, subst, ◌∙◌, ◌⊎◌, if_true, if_false, ap,
  ok-injective,
}
use dashboard_quip_network.Prelude.Texts.{same_text, same_text-eq}
use dashboard_quip_network.Miner.Cache.{
  Row, retain, is_live, prune_expired, evict_idle, oldest_idle, contains_key, remove, update,
  new_row, hold, make_room, insert_slot, acquire, lock, clear, save, unlock, drop, entries_limit,
}
use dashboard_quip_network.Miner.Cache.Counts.{
  rows_of, strong_of, one, same_text_left, strong_of_zero, KeepsHeld, retain_held, length-retain,
  rows_of-update, strong_of-update, strong_of-hold, contains_key-false, strong_of-drop, HasIdle,
  remove_held, oldest_idle-HasIdle,
}

abbrev pub calls_of : List ℕ → List (List ℕ) → ℕ
calls_of k [] = 0
calls_of k (j ∷ js) = (if same_text j k then 1 else 0) + calls_of k js

unfoldable pub end_call : List ℕ → List (List ℕ) → List (List ℕ)
end_call k [] = []
end_call k (j ∷ js) = let rest = end_call k js in if same_text j k then js else j ∷ rest

pub record System (A : Type 0) : Type 0 where
  pub rows : List (Row A)
  pub calls : List (List ℕ)

module _ {A : Type 0} where
  pub data Step (t : System A) : System A → Type 0 where
    acquired :
        (k : List ℕ) (now : ℕ) (rows : List (Row A))
        → acquire k now t.rows ≡ ok rows
        → Step t (record { rows = rows; calls = k ∷ t.calls })
    slot_locked : (k : List ℕ) → Step t (record t { rows = update k lock t.rows })
    cleared : (k : List ℕ) → Step t (record t { rows = update k clear t.rows })
    saved :
        (k : List ℕ) (peer is_ok : Bool) (now : ℕ) (result : A)
        → Step t (record t { rows = update k (save peer is_ok now result) t.rows })
    unlocked : (k : List ℕ) → Step t (record t { rows = update k unlock t.rows })
    dropped :
        (k : List ℕ)
        → 0 < calls_of k t.calls
        → Step t (record { rows = update k drop t.rows; calls = end_call k t.calls })
    pruned : (now : ℕ) → Step t (record t { rows = prune_expired now t.rows })
    evicted : Step t (record t { rows = evict_idle t.rows })

  pub data Reach : System A → Type 0 where
    start : Reach (record { rows = []; calls = [] })
    step : {t u : System A} → Reach t → Step t u → Reach u

  -- One row at most for a key, held by the map and by each call of that key.
  abbrev pub IsHeld : List (Row A) → List (List ℕ) → Type 0
  IsHeld rows calls =
      (k : List ℕ) → (rows_of k rows ≤ 1) × (strong_of k rows ≡ rows_of k rows + calls_of k calls)

  abbrev pub IsConsistent : System A → Type 0
  IsConsistent t = (length t.rows ≤ entries_limit) × IsHeld t.rows t.calls

calls_of-end_call :
    (j k : List ℕ) (js : List (List ℕ))
    → 0 < calls_of j js
    → calls_of k (end_call j js) + one j k ≡ calls_of k js
unfolding end_call
calls_of-end_call j k [] u = omega (arith, u)
calls_of-end_call j k (i ∷ js) u = elim (Bool-cases (same_text i j)) [
  | inl e ↦ rw e (ground (arith, same_text_left i j k e))
  | inr e ↦ rw e (ground (arith, calls_of-end_call j k js))
]

module _ {A : Type 0} where
  insert_slot-IsConsistent :
      (k : List ℕ) (now : ℕ) (rs : List (Row A)) (calls : List (List ℕ))
      → length rs < entries_limit
      → rows_of k rs ≡ 0
      → IsHeld rs calls
      → IsConsistent (record { rows = new_row k now ∷ rs; calls = k ∷ calls })
  unfolding new_row
  insert_slot-IsConsistent k now rs calls l u h =
      (omega (arith, l), λ j. insert_at j (Bool-cases (same_text k j)))
    where
      insert_at :
          (j : List ℕ)
          → (same_text k j ≡ true) ⊎ (same_text k j ≡ false)
          → (one k j + rows_of j rs ≤ 1)
            × ((if same_text k j then 2 else 0) + strong_of j rs
                ≡ one k j + rows_of j rs + (one k j + calls_of j calls))
      insert_at j (inl e) = rw e (
          ground
            (arith, h j, subst (λ x. rows_of x rs ≡ 0) (same_text-eq k j e) u, strong_of_zero j rs))
      insert_at j (inr e) = rw e (ground (arith, h j))

  hold-IsConsistent :
      (k : List ℕ) (now : ℕ) (rs : List (Row A)) (calls : List (List ℕ))
      → contains_key k rs ≡ true
      → length rs ≤ entries_limit
      → IsHeld rs calls
      → IsConsistent (record { rows = update k (hold now) rs; calls = k ∷ calls })
  unfolding hold
  hold-IsConsistent k now rs calls e l h = (
    omega (arith, l, (rows_of-update (hold now) (λ r. refl) k k rs).1),
    λ j. (
      omega (arith, (h j).0, (rows_of-update (hold now) (λ r. refl) k j rs).0),
      omega (
        arith,
        (h j).1,
        (rows_of-update (hold now) (λ r. refl) k j rs).0,
        strong_of-hold now k j rs e,
      ),
    ),
  )

  remove-IsHeld :
      (q : Row A) (k : List ℕ) (rs : List (Row A)) (calls : List (List ℕ))
      → HasIdle q rs
      → IsHeld rs calls
      → IsHeld (remove q.key rs) calls
        × (length (remove q.key rs) < length rs)
        × (rows_of k rs ≡ 0 → rows_of k (remove q.key rs) ≡ 0)
  remove-IsHeld q k rs calls i h =
      let u : rows_of q.key rs ≡ 1 = omega (arith, i.0, (h q.key).0) in
      (
        λ j. ground (arith, h j, i.1 (h q.key).0, remove_held q.key j rs u),
        omega (arith, (remove_held q.key k rs u).2),
        λ z. omega (arith, z, (remove_held q.key k rs u).0),
      )

  make_room-IsConsistent :
      (k : List ℕ) (now : ℕ) (rs rs' : List (Row A)) (calls : List (List ℕ))
      (oldest : Option (Row A))
      → oldest_idle rs ≡ oldest
      → insert_slot k now (make_room oldest rs) ≡ ok rs'
      → length rs ≤ entries_limit
      → rows_of k rs ≡ 0
      → IsHeld rs calls
      → IsConsistent (record { rows = rs'; calls = k ∷ calls })
  unfolding make_room insert_slot
  make_room-IsConsistent k now rs rs' calls none o e l z h = cc e
  make_room-IsConsistent k now rs rs' calls (some q) o e l z h =
      let m = remove-IsHeld q k rs calls (oldest_idle-HasIdle q rs o) h in
      subst (λ x. IsConsistent (record { rows = x; calls = k ∷ calls })) (ok-injective e)
        (insert_slot-IsConsistent k now (remove q.key rs) calls (omega (arith, m.1, l)) (m.2 z) m.0)

  acquire-IsConsistent :
      (k : List ℕ) (now : ℕ) (rs rs' : List (Row A)) (calls : List (List ℕ))
      → acquire k now rs ≡ ok rs'
      → length rs ≤ entries_limit
      → IsHeld rs calls
      → IsConsistent (record { rows = rs'; calls = k ∷ calls })
  unfolding acquire insert_slot
  acquire-IsConsistent k now rs rs' calls e l h = elim (Bool-cases (contains_key k rs)) [
    | inl c ↦
        subst (λ x. IsConsistent (record { rows = x; calls = k ∷ calls }))
          (ok-injective (sym (if_true _ _ _ c) ∙ e)) (hold-IsConsistent k now rs calls c l h)
    | inr c ↦ elim (Bool-cases (leb entries_limit (length rs))) [
      | inl full ↦
          make_room-IsConsistent k now rs rs' calls (oldest_idle rs) refl
            (sym (if_false _ _ _ c ∙ ap (insert_slot k now) (if_true _ _ _ full)) ∙ e) l
            (contains_key-false k rs c) h
      | inr room ↦
          subst (λ x. IsConsistent (record { rows = x; calls = k ∷ calls }))
            (ok-injective
              (sym (if_false _ _ _ c ∙ ap (insert_slot k now) (if_false _ _ _ room)) ∙ e))
            (insert_slot-IsConsistent k now rs calls (ground (arith, room))
              (contains_key-false k rs c) h)
    ]
  ]

  -- Rows replaced by rows of the same key and as many holders.
  update-IsConsistent :
      (f : Row A → Row A) (key : (r : Row A) → (f r).key ≡ r.key)
      (count : (r : Row A) → (f r).strong_count ≡ r.strong_count) (j : List ℕ) (t : System A)
      → IsConsistent t
      → IsConsistent (record t { rows = update j f t.rows })
  update-IsConsistent f key count j t h = (
    omega (arith, h.0, (rows_of-update f key j j t.rows).1),
    λ k. (
      omega (arith, (h.1 k).0, (rows_of-update f key j k t.rows).0),
      omega (
        arith,
        (h.1 k).1,
        (rows_of-update f key j k t.rows).0,
        strong_of-update f key count j k t.rows,
      ),
    ),
  )

  drop-IsConsistent :
      (j : List ℕ) (t : System A)
      → 0 < calls_of j t.calls
      → IsConsistent t
      → IsConsistent (record { rows = update j drop t.rows; calls = end_call j t.calls })
  unfolding drop
  drop-IsConsistent j t c h = (
    omega (arith, h.0, (rows_of-update drop (λ r. refl) j j t.rows).1),
    λ k. (
      omega (arith, (h.1 k).0, (rows_of-update drop (λ r. refl) j k t.rows).0),
      omega (
        arith,
        (h.1 k).1,
        (rows_of-update drop (λ r. refl) j k t.rows).0,
        calls_of-end_call j k t.calls c,
        strong_of-drop j k t.rows (h.1 j).0 (omega (arith, c, (h.1 j).1)),
      ),
    ),
  )

  retain-IsConsistent :
      (p : Row A → Bool) (held : KeepsHeld p) (t : System A)
      → IsConsistent t
      → IsConsistent (record t { rows = retain p t.rows })
  retain-IsConsistent p held t h = (
    omega (arith, h.0, length-retain p t.rows),
    λ k. retained k (retain_held p held k t.rows (h.1 k).0 (omega (arith, (h.1 k).1))),
  )
    where
      retained :
          (k : List ℕ)
          → (rows_of k (retain p t.rows) ≤ rows_of k t.rows)
            × (strong_of k (retain p t.rows) + rows_of k t.rows
                ≡ strong_of k t.rows + rows_of k (retain p t.rows))
          → (rows_of k (retain p t.rows) ≤ 1)
            × (strong_of k (retain p t.rows) ≡ rows_of k (retain p t.rows) + calls_of k t.calls)
      retained k m = (omega (arith, m.0, (h.1 k).0), omega (arith, m.1, (h.1 k).1))

  is_live-KeepsHeld : (now : ℕ) → KeepsHeld {A = A} (is_live now)
  unfolding is_live
  is_live-KeepsHeld now r e = ground arith

  step-IsConsistent : {t u : System A} → Step t u → IsConsistent t → IsConsistent u
  unfolding prune_expired evict_idle lock unlock clear save
  step-IsConsistent {t} (acquired k now rows e) h =
      acquire-IsConsistent k now t.rows rows t.calls e h.0 h.1
  step-IsConsistent {t} (slot_locked k) h = update-IsConsistent lock (λ r. refl) (λ r. refl) k t h
  step-IsConsistent {t} (cleared k) h = update-IsConsistent clear (λ r. refl) (λ r. refl) k t h
  step-IsConsistent {t} (saved k peer is_ok now result) h =
      update-IsConsistent (save peer is_ok now result) (λ r. refl) (λ r. refl) k t h
  step-IsConsistent {t} (unlocked k) h = update-IsConsistent unlock (λ r. refl) (λ r. refl) k t h
  step-IsConsistent {t} (dropped k c) h = drop-IsConsistent k t c h
  step-IsConsistent {t} (pruned now) h =
      retain-IsConsistent (is_live now) (is_live-KeepsHeld now) t h
  step-IsConsistent {t} evicted h =
      retain-IsConsistent (λ r. ltb 1 r.strong_count) (λ r e. ground arith) t h

  -- In every interleaving of the calls of `get`, the pruning and the eviction of idle slots, a
  -- cache that starts empty has at most 32 rows, one at most for each key, and the holders of the
  -- slot of a key are the map, if it has a row, and the calls of that key under way.
  pub Reach-IsConsistent : {t : System A} → Reach t → IsConsistent t
  Reach-IsConsistent start = (omega arith, λ k. (omega arith, refl))
  Reach-IsConsistent (step r s) = step-IsConsistent s (Reach-IsConsistent r)
