-- ===== src/Store/Targets.antt =====
-- The operations of coverage.rs on the finalized target: `finalized_target`, `set_finalized_target`
-- and `committed_target`.
pub mod Progress
use dashboard_quip_network.Prelude.{
  ℕ, Bool, true, false, not, ◌&&◌, Option, none, some, List, [], ◌∷◌, ltb, ◌==◌, if◌then◌else◌,
  Result, ok, err, ◌>>=◌, ◌>>◌, refuse_if, ok_or,
}
use Prim.Native.String.{String}
use dashboard_quip_network.Prelude.Texts.{same_text}
use dashboard_quip_network.Errors.{
  StoreError, invalid, read_only, network_identity, conflicting_history, json,
}
use dashboard_quip_network.Decimal
use dashboard_quip_network.Decimal.{Text, DecimalString, parse_u64, print_u64}
use dashboard_quip_network.Hash
use dashboard_quip_network.Hash.{BlockHash}
use dashboard_quip_network.Coverage.{Coverage, contains}
use dashboard_quip_network.Store.{
  CommitResult, applied, already_applied, Indexable, winners, difficulty, participation, authorship,
  coverage_key, genesis, finalized_target, Meta, Db, Store, Json,
}
use dashboard_quip_network.Store.Meta.{set_meta, generation, height, require_bound}
use dashboard_quip_network.Store.Blocks.{finalized_at}

pub record RetainedBlock : Type 0 where
  pub height : DecimalString
  pub hash : BlockHash

-- A parse error becomes `StoreError::Invalid` of a message.
abbrev pub invalid_if {ℓ κ} : {E : Type ℓ} {A : Type κ} → String → Result E A → Result StoreError A
invalid_if message (ok a) = ok a
invalid_if message (err e) = err (invalid message)

module _ (codec : Json) where
  open codec use {coverage_of, target_text, target_of}

  unfoldable pub read_target : Option Text → Result StoreError (Option RetainedBlock)
  read_target none = ok none
  read_target (some raw) = do
    (h, x) ← ok_or (target_of raw) (json "target")
    number ← invalid_if "invalid finalized target" (Decimal.from_str h)
    hash ← invalid_if "invalid finalized target hash" (Hash.from_str x)
    ok (some (record { height = number; hash = hash }))

  -- `finalized_target`
  abbrev pub target : {R : Type 0} → Store R → Result StoreError (Option RetainedBlock)
  target s = read_target (s.db.meta finalized_target)

  abbrev pub save_target : {R : Type 0} → RetainedBlock → Store R → Store R
  save_target t s = record s {
    db = record (s.db) {
      meta = set_meta finalized_target (some (target_text (t.height.text, t.hash.text))) s.db.meta;
    };
  }

  -- The comparison with the target that is there.
  unfoldable pub advance_target :
      {R : Type 0}
      → RetainedBlock
      → Option Text
      → Store R
      → Result StoreError (CommitResult × Store R)
  advance_target t none s = ok (applied, save_target t s)
  advance_target t (some raw) s = do
    (old_height, old_hash) ← ok_or (target_of raw) (json "target")
    old ← ok_or (parse_u64 old_height) (invalid "invalid target height")
    n ← height t.height
    if ltb n old
        then ok (already_applied, s)
        else if old == n
        then (do
          refuse_if (not (same_text old_hash t.hash.text)) (conflicting_history (print_u64 n))
          ok (already_applied, s))
        else ok (applied, save_target t s)

  unfoldable pub set_finalized_target :
      {R : Type 0} → RetainedBlock → Store R → Result StoreError (CommitResult × Store R)
  set_finalized_target t s = do
    refuse_if (not s.writer) read_only
    bound ← require_bound s.db.meta
    advance_target t (s.db.meta finalized_target) s

  -- The loop over the domains: some stored coverage of the current generation has the height.
  unfoldable pub committed_in : ℕ → Meta → List Indexable → Result StoreError Bool
  committed_in number meta [] = ok false
  committed_in number meta (i ∷ is) =
      let rest = committed_in number meta is in
      elim (meta (coverage_key i)) [
        | none ↦ rest
        | some raw ↦ do
          cov ← ok_or (coverage_of raw) (json "coverage")
          if cov.gen == generation meta i && contains cov number number then ok true else rest
      ]

  -- What follows for the hash found at the height; the height is a primary key.
  unfoldable pub committed_hash : RetainedBlock → List Text → Meta → Result StoreError Bool
  committed_hash t [] meta = ok false
  committed_hash t (x ∷ xs) meta = do
    hash ← invalid_if "invalid retained hash" (Hash.from_str x)
    refuse_if (not (Hash.eq hash t.hash)) (conflicting_history t.height.text)
    number ← height t.height
    committed_in number meta (winners ∷ difficulty ∷ participation ∷ authorship ∷ [])

  unfoldable pub committed_target : {R : Type 0} → RetainedBlock → Store R → Result StoreError Bool
  committed_target t s = committed_hash t (finalized_at t.height.text s.db.finalized) s.db.meta
