-- ===== src/Miner/Cache.antt =====
-- crates/quip-dashboard/src/miner/cache.rs: the slots of a cache, and how long an answer stays. Instants
-- and durations are numbers of seconds; a slot is held by the map and by the calls of `get` under way.
pub mod Counts
pub mod Slots
use dashboard_quip_network.Prelude.{
  ℕ, ◌+◌, ◌-◌, Bool, true, false, ◌&&◌, ◌||◌, not, Option, none, some, List, [], ◌∷◌, leb, ltb,
  ◌==◌, length, if◌then◌else◌, Result, ok, err,
}
use dashboard_quip_network.Prelude.Texts.{same_text}

abbrev pub entries_limit : ℕ
entries_limit = 32

-- `MinerError::Http` with the message that the resource capacity is exhausted
pub data CapacityExhausted : Type 0 where
  capacity_exhausted : CapacityExhausted

pub record Entry (A : Type 0) : Type 0 where
  pub expires : ℕ
  pub result : A

-- One row of the map with its slot: `strong_count` and `locked` are those of the shared mutex.
pub record Row (A : Type 0) : Type 0 where
  pub key : List ℕ
  pub used : ℕ
  pub strong_count : ℕ
  pub locked : Bool
  pub entry : Option (Entry A)

module _ {A : Type 0} where
  -- `HashMap::retain`
  unfoldable pub retain : (Row A → Bool) → List (Row A) → List (Row A)
  retain p [] = []
  retain p (r ∷ rs) = let rest = retain p rs in if p r then r ∷ rest else rest

  unfoldable pub expires_after : ℕ → Option (Entry A) → Bool
  expires_after now none = false
  expires_after now (some e) = ltb now e.expires

  -- What `prune_expired` keeps; `try_lock` fails on a locked slot.
  unfoldable pub is_live : ℕ → Row A → Bool
  is_live now r = ltb 1 r.strong_count || r.locked || expires_after now r.entry

  unfoldable pub prune_expired : ℕ → List (Row A) → List (Row A)
  prune_expired now rs = retain (is_live now) rs

  -- The `retain` of `observe`, when the budget has no room.
  unfoldable pub evict_idle : List (Row A) → List (Row A)
  evict_idle rs = retain (λ r. ltb 1 r.strong_count) rs

  -- `min_by_key`, which answers the first of equal rows
  unfoldable pub older : Row A → Option (Row A) → Row A
  older r none = r
  older r (some q) = if leb r.used q.used then r else q

  unfoldable pub oldest_idle : List (Row A) → Option (Row A)
  oldest_idle [] = none
  oldest_idle (r ∷ rs) =
      let rest = oldest_idle rs in if r.strong_count == 1 then some (older r rest) else rest

  unfoldable pub contains_key : List ℕ → List (Row A) → Bool
  contains_key k [] = false
  contains_key k (r ∷ rs) = same_text r.key k || contains_key k rs

  -- `HashMap::remove`
  unfoldable pub remove : List ℕ → List (Row A) → List (Row A)
  remove k [] = []
  remove k (r ∷ rs) = let rest = remove k rs in if same_text r.key k then rs else r ∷ rest

  -- What `get_mut` gives access to is replaced.
  unfoldable pub update : List ℕ → (Row A → Row A) → List (Row A) → List (Row A)
  update k f [] = []
  update k f (r ∷ rs) = let rest = update k f rs in if same_text r.key k then f r ∷ rs else r ∷ rest

  -- An empty slot, held by the map and by the call.
  unfoldable pub new_row : List ℕ → ℕ → Row A
  new_row k now = record { key = k; used = now; strong_count = 2; locked = false; entry = none }

  unfoldable pub hold : ℕ → Row A → Row A
  hold now r = record r { used = now; strong_count = r.strong_count + 1 }

  -- A full map gives up its oldest idle row; with none, the call is refused.
  unfoldable pub make_room : Option (Row A) → List (Row A) → Result CapacityExhausted (List (Row A))
  make_room none rs = err capacity_exhausted
  make_room (some oldest) rs = ok (remove oldest.key rs)

  unfoldable pub insert_slot :
      List ℕ → ℕ → Result CapacityExhausted (List (Row A)) → Result CapacityExhausted (List (Row A))
  insert_slot k now (err e) = err e
  insert_slot k now (ok rs) = ok (new_row k now ∷ rs)

  -- The slot of a key, at the start of `get`.
  unfoldable pub acquire : List ℕ → ℕ → List (Row A) → Result CapacityExhausted (List (Row A))
  acquire k now rs =
      if contains_key k rs
      then ok (update k (hold now) rs)
      else insert_slot k now
          (if leb entries_limit (length rs) then make_room (oldest_idle rs) rs else ok rs)

  unfoldable pub lock : Row A → Row A
  lock r = record r { locked = true }

  -- The cached answer, while it has not expired.
  unfoldable pub cached : ℕ → Option (Entry A) → Option A
  cached now none = none
  cached now (some e) = if ltb now e.expires then some e.result else none

  -- Stale data is given back before the fetch.
  unfoldable pub clear : Row A → Row A
  clear r = record r { entry = none }

-- Seconds: a peer's answer, a peer's error, and anything of the local miner.
unfoldable pub ttl : Bool → Bool → ℕ
ttl peer is_ok = if not peer then 8 else (if is_ok then 5 else 60)

module _ {A : Type 0} where
  unfoldable pub save : Bool → Bool → ℕ → A → Row A → Row A
  save peer is_ok now result r = record r {
    entry = some (record { expires = now + ttl peer is_ok; result = result });
  }

  -- The guard and the slot of a call that ends are dropped.
  unfoldable pub unlock : Row A → Row A
  unlock r = record r { locked = false }

  unfoldable pub drop : Row A → Row A
  drop r = record r { strong_count = r.strong_count - 1 }
