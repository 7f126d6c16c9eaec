-- ===== src/Store/Meta.antt =====
-- The free functions of coverage.rs and store.rs that read and write the table `meta`.
use dashboard_quip_network.Prelude.{
  ℕ, ◌≤◌, ◌≡◌, not, Option, none, some, ◌==◌, if◌then◌else◌, arith, Result, ok, ◌>>=◌, refuse_if,
  ok_or,
}
use dashboard_quip_network.Prelude.Words.{u64_max}
use dashboard_quip_network.Prelude.Texts.{same_text}
use dashboard_quip_network.Errors.{StoreError, invalid, network_identity, json}
use dashboard_quip_network.Decimal.{Text, DecimalString, parse_u64}
use dashboard_quip_network.Decimal.Value.{parse_u64-le}
use dashboard_quip_network.Hash.{BlockHash}
use dashboard_quip_network.Coverage
use dashboard_quip_network.Coverage.{Coverage, check_persisted}
use dashboard_quip_network.Store.{
  Indexable, MetaKey, generation_key, coverage_key, genesis, key_code, Meta, Json,
}

-- INSERT .. ON CONFLICT(key) DO UPDATE, and DELETE for `none`: a NULL value reads as none.
unfoldable pub set_meta : MetaKey → Option Text → Meta → Meta
set_meta k v meta = λ j. if key_code k == key_code j then v else meta j

-- `require_bound`
unfoldable pub require_bound : Meta → Result StoreError Text
require_bound meta = ok_or (meta genesis) network_identity

-- A missing, malformed or zero generation means one.
unfoldable pub positive : Option ℕ → ℕ
positive none = 1
positive (some n) = if n == 0 then 1 else n

unfoldable pub parsed : Option Text → Option ℕ
parsed none = none
parsed (some t) = parse_u64 t

unfoldable pub generation : Meta → Indexable → ℕ
generation meta i = positive (parsed (meta (generation_key i)))

-- `height`: the text is parsed again as a u64.
unfoldable pub height : DecimalString → Result StoreError ℕ
height h = ok_or (parse_u64 h.text) (invalid "height exceeds u64")

pub height-le : (h : DecimalString) (n : ℕ) → height h ≡ ok n → n ≤ u64_max
unfolding height
height-le h n e = parse_u64-le h.text n (ground arith)

-- `network`: the bound genesis is compared as text.
unfoldable pub network : Meta → BlockHash → Result StoreError (Unit {0})
network meta g = do
  bound ← require_bound meta
  refuse_if (not (same_text bound g.text)) network_identity

module _ (codec : Json) where
  open codec use {coverage_text, coverage_of}

  unfoldable pub decoded : ℕ → ℕ → Option Text → Result StoreError Coverage
  decoded gen start none = ok (Coverage.empty gen start)
  decoded gen start (some raw) = do
    cov ← ok_or (coverage_of raw) (json "coverage")
    check_persisted gen cov

  -- `coverage`: the stored coverage at the current generation, or an empty one.
  unfoldable pub coverage : Meta → Indexable → ℕ → Result StoreError Coverage
  coverage meta i start = decoded (generation meta i) start (meta (coverage_key i))

  unfoldable pub save_coverage : Indexable → Coverage → Meta → Meta
  save_coverage i c = set_meta (coverage_key i) (some (coverage_text c))
