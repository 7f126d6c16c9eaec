-- ===== src/Store/Network/Binding.antt =====
-- What a binding to a network rests on.
use dashboard_quip_network.Prelude.{
  suc, ◌≡◌, ◌⊎◌, refl, Bool, true, false, not, ◌&&◌, Option, none, some, [], ◌++◌, any, All,
  All-split, length, arith, Result, ok, err, ok-injective, refuse_if-false, Bool-cases, inl, inr,
  ◌∙◌, sym, ap, subst,
}
use mathlib.Core.Option.{some-injective}
use dashboard_quip_network.Prelude.Texts.{same_text, same_text-eq}
use dashboard_quip_network.Errors.{StoreError, read_only, network_identity}
use dashboard_quip_network.Decimal.{Text}
use dashboard_quip_network.Hash.{BlockHash}
use dashboard_quip_network.Store.{genesis, Db, Store}
use dashboard_quip_network.Store.Meta.{set_meta}
use dashboard_quip_network.Store.Targets.{RetainedBlock}
use dashboard_quip_network.Store.Network.{
  Table, blocks, difficulty_history, validator_authorship, validator_authorship_blocks,
  node_descriptors, qblock_participation, chain_miners, tables, Records, finalized_rows, union_rows,
  history, bind_verified, bind_step, bind_network_with,
}
use dashboard_quip_network.Store.Network.Pages.{
  IsConfirmedRow, IsVerified, HasAnswer, union_rows-All, verify_pages-HasAnswer,
}

-- A table of the binding is checked.
tables_empty : (has : Table → Bool) (t : Table) → any has tables ≡ false → has t ≡ false
unfolding tables
tables_empty has blocks e = ground arith
tables_empty has difficulty_history e = ground arith
tables_empty has validator_authorship e = ground arith
tables_empty has validator_authorship_blocks e = ground arith
tables_empty has node_descriptors e = ground arith
tables_empty has qblock_participation e = ground arith
tables_empty has chain_miners e = ground arith

module _ {R : Type 0} (records : Records R) where
  open records use {block_rows, head_rows, has_row}

  -- Every retained block is confirmed, and where there is none, no record table has a row.
  abbrev pub IsVouched : (RetainedBlock → Result StoreError BlockHash) → Db R → Type 0
  IsVouched verify db =
      All (IsConfirmedRow verify) (finalized_rows db.finalized)
      × All (IsConfirmedRow verify) (block_rows db.rows)
      × All (IsConfirmedRow verify) (head_rows db.rows)
      × ((finalized_rows db.finalized ++ block_rows db.rows ++ head_rows db.rows ≡ [])
          → (t : Table) → has_row t db.rows ≡ false)

  -- What a success of the binding means.
  abbrev pub IsBound :
      BlockHash → (RetainedBlock → Result StoreError BlockHash) → Store R → Store R → Type 0
  IsBound g verify s s' =
      ((s.db.meta genesis ≡ some g.text) × (s' ≡ s))
      ⊎ ((s.db.meta genesis ≡ none)
          × (s'
              ≡ record s { db = record (s.db) { meta = set_meta genesis (some g.text) s.db.meta } })
          × IsVouched verify s.db)

  history-IsVouched :
      (verify : RetainedBlock → Result StoreError BlockHash) (db : Db R) (seen : Bool)
      → IsVerified verify (history records db) false (ok seen)
      → (not seen && any (λ t. has_row t db.rows) tables) ≡ false
      → IsVouched verify db
  unfolding history
  history-IsVouched verify db seen (confirmed, unseen) empty =
      let fin = finalized_rows db.finalized in
      let every =
        union_rows-All (IsConfirmedRow verify) (fin ++ block_rows db.rows ++ head_rows db.rows)
          confirmed in
      let (two, third) =
        All-split (IsConfirmedRow verify) (fin ++ block_rows db.rows) (head_rows db.rows) every in
      let (first, second) = All-split (IsConfirmedRow verify) fin (block_rows db.rows) two in
      (
        first,
        second,
        third,
        λ no_rows t.
            let not_seen : seen ≡ false =
              unseen (ap (λ rs. length (union_rows rs)) no_rows ∙ unfold union_rows in refl) in
            tables_empty (λ k. has_row k db.rows) t (ground (arith, empty, not_seen)),
      )

  -- How the answer of the loop settles the binding.
  bind_verified-IsBound :
      (g : BlockHash) (verify : RetainedBlock → Result StoreError BlockHash) (s : Store R)
      (o : Option (Result StoreError Bool))
      → s.db.meta genesis ≡ none
      → HasAnswer verify (history records s.db) false o
      → (r : Result StoreError (Store R)) × (bind_verified records g s o ≡ some r)
        × ((s' : Store R) → r ≡ ok s' → IsBound g verify s s')
  unfolding bind_verified
  bind_verified-IsBound g verify s none unbound (r, answered, v) = cc answered
  bind_verified-IsBound g verify s (some (err e)) unbound h = (err e, refl, λ s' f. cc f)
  bind_verified-IsBound g verify s (some (ok seen)) unbound (r, answered, v) = (
    _,
    refl,
    λ s' e.
        let (empty, bound) =
          refuse_if-false (not seen && any (λ t. has_row t s.db.rows) tables) network_identity _
            e in
        inr (
          unbound,
          sym (ok-injective bound),
          history-IsVouched verify s.db seen
              (subst (IsVerified verify (history records s.db) false)
                (sym (some-injective _ _ answered)) v)
              empty,
        ),
  )

  bind_step-IsBound :
      (g : BlockHash) (verify : RetainedBlock → Result StoreError BlockHash) (s : Store R)
      (o : Option Text)
      → s.db.meta genesis ≡ o
      → (r : Result StoreError (Store R)) × (bind_step records g verify s o ≡ some r)
        × ((s' : Store R) → r ≡ ok s' → IsBound g verify s s')
  unfolding bind_step
  bind_step-IsBound g verify s none unbound = bind_verified-IsBound g verify s _ unbound (
      verify_pages-HasAnswer records verify s.db (suc (length (history records s.db))) 0 false
        (omega arith))
  bind_step-IsBound g verify s (some bound) stored = (
    _,
    refl,
    λ s' e.
        let (other, kept) = refuse_if-false (not (same_text bound g.text)) network_identity _ e in
        inl (stored ∙ ap some (same_text-eq bound g.text (ground arith)), sym (ok-injective kept)),
  )

  -- `bind_network_with` always has an answer, its loop over the pages included. If it succeeds,
  -- the store is a writer, and either it was bound to the same genesis and nothing changes, or it
  -- was unbound and only its genesis changes, to the one given; then every row of the finalized
  -- history, of the blocks and of the chain head was read as a block whose hash the callback
  -- confirmed, and where there is no such row, none of the seven record tables has one.
  pub bind_network_with-IsBound :
      (g : BlockHash) (verify : RetainedBlock → Result StoreError BlockHash) (s : Store R)
      → (r : Result StoreError (Store R)) × (bind_network_with records g verify s ≡ some r)
        × ((s' : Store R) → r ≡ ok s' → (s.writer ≡ true) × IsBound g verify s s')
  unfolding bind_network_with
  bind_network_with-IsBound g verify s = elim (Bool-cases (not s.writer)) [
    | inl reader ↦ rw reader (err read_only, refl, λ s' e. cc e)
    | inr writer ↦
        let (r, answered, bound) = bind_step-IsBound g verify s (s.db.meta genesis) refl in
        rw writer (r, answered, λ s' e. (ground (arith, writer), bound s' e))
  ]
