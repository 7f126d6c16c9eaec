-- ===== src/Store/Network/Pages.antt =====
-- The loop over the pages ends, and has every row confirmed.
use dashboard_quip_network.Prelude.{
  ℕ, zero, suc, ◌+◌, ◌<◌, ◌≡◌, refl, Bool, true, not, ◌&&◌, Option, some, List, [], ◌∷◌, All,
  All-take-drop, take, drop, drop-drop, drop-taken, length-drop_le, length, if_true, if_false,
  arith, Result, ok, err, ok-injective, refuse_if-false, Bool-cases, inl, inr, ◌∙◌, sym, ap,
  >>=-eq-ok, subst,
}
use dashboard_quip_network.Prelude.Texts.{same_text, same_text-eq}
use dashboard_quip_network.Errors.{StoreError, network_identity}
use dashboard_quip_network.Decimal.{Text}
use dashboard_quip_network.Hash
use dashboard_quip_network.Hash.{BlockHash}
use dashboard_quip_network.Store.{Db}
use dashboard_quip_network.Store.Targets.{RetainedBlock}
use dashboard_quip_network.Store.Network.{
  Records, before_row, insert_row, union_rows, read_row, read_rows, verify_all, page_size, history,
  retained_history, after_verified, after_page, verify_pages,
}

-- The callback confirms the hash of the retained block.
abbrev pub IsConfirmed : (RetainedBlock → Result StoreError BlockHash) → RetainedBlock → Type 0
IsConfirmed verify row = (x : BlockHash) × (verify row ≡ ok x) × (Hash.eq x row.hash ≡ true)

-- A row of a table that is read as a block, which the callback confirms.
abbrev pub IsConfirmedRow : (RetainedBlock → Result StoreError BlockHash) → Text × Text → Type 0
IsConfirmedRow verify row =
    (block : RetainedBlock) × (read_row row ≡ ok block) × IsConfirmed verify block

module _ (P : Text × Text → Type 0) where
  insert_row-All :
      (r : Text × Text) (qs : List (Text × Text)) → All P (insert_row r qs) → P r × All P qs
  unfolding insert_row
  insert_row-All r [] h = (h.0, tt)
  insert_row-All (h1, x1) ((h2, x2) ∷ qs) h =
      elim (Bool-cases (same_text h1 h2 && same_text x1 x2)) [
        | inl same ↦
            let kept = subst (All P) (if_true _ _ _ same) h in
            let one : h1 ≡ h2 = same_text-eq h1 h2 (ground arith) in
            let two : x1 ≡ x2 = same_text-eq x1 x2 (ground arith) in (rw (one, two) kept.0, kept)
        | inr other ↦
            let put = subst (All P) (if_false _ _ _ other) h in
            elim (Bool-cases (before_row (h1, x1) (h2, x2))) [
              | inl less ↦ subst (All P) (if_true _ _ _ less) put
              | inr more ↦
                  let (first, rest) = subst (All P) (if_false _ _ _ more) put in
                  let (here, later) = insert_row-All (h1, x1) qs rest in (here, (first, later))
            ]
      ]

  pub union_rows-All : (rs : List (Text × Text)) → All P (union_rows rs) → All P rs
  unfolding union_rows
  union_rows-All [] h = tt
  union_rows-All (r ∷ rs) h =
      let (here, rest) = insert_row-All r (union_rows rs) h in (here, union_rows-All rs rest)

module _ (verify : RetainedBlock → Result StoreError BlockHash) where
  verify_all-IsConfirmed :
      (rows : List RetainedBlock) (u : Unit {0})
      → verify_all verify rows ≡ ok u
      → All (IsConfirmed verify) rows
  unfolding verify_all
  verify_all-IsConfirmed [] u e = tt
  verify_all-IsConfirmed (row ∷ rows) u e =
      let (x, p, e1) = >>=-eq-ok (verify row) _ e in
      let (q, e2) = refuse_if-false (not (Hash.eq x row.hash)) network_identity _ e1 in
      ((x, p, ground arith), verify_all-IsConfirmed rows u e2)

  read_rows-IsConfirmedRow :
      (rows : List (Text × Text)) (page : List RetainedBlock)
      → read_rows rows ≡ ok page
      → All (IsConfirmed verify) page
      → All (IsConfirmedRow verify) rows
  unfolding read_rows
  read_rows-IsConfirmedRow [] page e h = tt
  read_rows-IsConfirmedRow (r ∷ rs) page e h =
      let (block, p, e1) = >>=-eq-ok (read_row r) _ e in
      let (rest, q, e2) = >>=-eq-ok (read_rows rs) _ e1 in
      let (here, later) = subst (All (IsConfirmed verify)) (sym (ok-injective e2)) h in
      ((block, p, here), read_rows-IsConfirmedRow rs rest q later)

  length-read_rows :
      (rows : List (Text × Text)) (page : List RetainedBlock)
      → read_rows rows ≡ ok page
      → length page ≡ length rows
  unfolding read_rows
  length-read_rows [] page e = sym (ap length (ok-injective e))
  length-read_rows (r ∷ rs) page e =
      let (block, p, e1) = >>=-eq-ok (read_row r) _ e in
      let (rest, q, e2) = >>=-eq-ok (read_rows rs) _ e1 in
      sym (ap length (ok-injective e2)) ∙ ap suc (length-read_rows rs rest q)

-- What a successful answer of the loop says of the rows that were still to come.
abbrev pub IsVerified :
    (RetainedBlock → Result StoreError BlockHash)
    → List (Text × Text)
    → Bool
    → Result StoreError Bool
    → Type 0
IsVerified verify rows seen (err e) = Unit
IsVerified verify rows seen (ok b) = All (IsConfirmedRow verify) rows × (length rows ≡ 0 → b ≡ seen)

-- The loop has an answer, which says this.
abbrev pub HasAnswer :
    (RetainedBlock → Result StoreError BlockHash)
    → List (Text × Text)
    → Bool
    → Option (Result StoreError Bool)
    → Type 0
HasAnswer verify rows seen o =
    (r : Result StoreError Bool) × (o ≡ some r) × IsVerified verify rows seen r

take_none : (rows : List (Text × Text)) → length (take page_size rows) ≡ 0 → length rows ≡ 0
take_none [] e = refl
take_none (r ∷ rows) e = absurd (omega (arith, e))

take_some : (rows : List (Text × Text)) → 0 < length (take page_size rows) → 0 < length rows
take_some [] e = e
take_some (r ∷ rows) e = omega arith

drop_less :
    (rows : List (Text × Text)) → 0 < length rows → length (drop page_size rows) < length rows
drop_less [] e = absurd (omega (arith, e))
drop_less (r ∷ rows) e = omega (arith, length-drop_le 511 rows)

All-none : (P : Text × Text → Type 0) (rows : List (Text × Text)) → length rows ≡ 0 → All P rows
All-none P [] e = tt
All-none P (r ∷ rows) e = absurd (omega (arith, e))

module _ (verify : RetainedBlock → Result StoreError BlockHash) where
  IsVerified-page :
      (rows : List (Text × Text)) (seen : Bool) (r : Result StoreError Bool)
      → 0 < length rows
      → All (IsConfirmedRow verify) (take page_size rows)
      → IsVerified verify (drop page_size rows) true r
      → IsVerified verify rows seen r
  IsVerified-page rows seen (err e) more here later = tt
  IsVerified-page rows seen (ok b) more here later = (
    All-take-drop (IsConfirmedRow verify) page_size rows here later.0,
    λ e. absurd (omega (arith, e, more)),
  )

  after_verified-HasAnswer :
      (rows : List (Text × Text)) (page : List RetainedBlock) (seen : Bool)
      (o : Result StoreError (Unit {0})) (later : Option (Result StoreError Bool))
      → 0 < length rows
      → read_rows (take page_size rows) ≡ ok page
      → verify_all verify page ≡ o
      → HasAnswer verify (drop page_size rows) true later
      → HasAnswer verify rows seen (after_verified o later)
  after_verified-HasAnswer rows page seen (err e) later more p v h = (err e, refl, tt)
  after_verified-HasAnswer rows page seen (ok u) later more p v (r, answered, rest) = (
    r,
    answered,
    IsVerified-page rows seen r more
        (read_rows-IsConfirmedRow verify (take page_size rows) page p
          (verify_all-IsConfirmed verify page u v))
        rest,
  )

  after_page-HasAnswer :
      (rows : List (Text × Text)) (seen : Bool) (o : Result StoreError (List RetainedBlock))
      (later : ℕ → Option (Result StoreError Bool))
      → read_rows (take page_size rows) ≡ o
      → (0 < length rows
          → HasAnswer verify (drop page_size rows) true (later (length (take page_size rows))))
      → HasAnswer verify rows seen (after_page o verify seen later)
  unfolding after_page
  after_page-HasAnswer rows seen (err e) later p h = (err e, refl, tt)
  after_page-HasAnswer rows seen (ok []) later p h =
      let none_left = take_none rows (sym (length-read_rows verify (take page_size rows) [] p)) in
      (ok seen, refl, (All-none (IsConfirmedRow verify) rows none_left, λ e. refl))
  after_page-HasAnswer rows seen (ok (row ∷ rest)) later p h =
      let read = length-read_rows verify (take page_size rows) (row ∷ rest) p in
      after_verified-HasAnswer rows (row ∷ rest) seen (verify_all verify (row ∷ rest))
        (later (length (row ∷ rest))) (take_some rows (omega (arith, read))) p refl
        (subst (λ n. HasAnswer verify (drop page_size rows) true (later n)) (sym read)
          (h (take_some rows (omega (arith, read)))))

module _ {R : Type 0} (records : Records R) (verify : RetainedBlock → Result StoreError BlockHash)
    (db : Db R) where
  pub verify_pages-HasAnswer :
      (rounds offset : ℕ) (seen : Bool)
      → length (drop offset (history records db)) < rounds
      → HasAnswer verify
          (drop offset (history records db))
          seen
          (verify_pages records rounds verify db offset seen)
  unfolding verify_pages retained_history
  verify_pages-HasAnswer zero offset seen e = absurd (omega (arith, e))
  verify_pages-HasAnswer (suc rounds) offset seen e =
      let rows = drop offset (history records db) in
      after_page-HasAnswer verify rows seen (read_rows (take page_size rows)) _ refl (λ more.
        let taken = length (take page_size rows) in
        let next : drop (offset + taken) (history records db) ≡ drop page_size rows =
          sym (drop-drop offset taken (offset + taken) (history records db) refl)
          ∙ drop-taken page_size rows in
        let fewer : length (drop (offset + taken) (history records db)) < rounds =
          omega (arith, ap length next, drop_less rows more, e) in
        subst
          (λ xs.
            HasAnswer verify xs true (verify_pages records rounds verify db (offset + taken) true))
          next (verify_pages-HasAnswer rounds (offset + taken) true fewer))
