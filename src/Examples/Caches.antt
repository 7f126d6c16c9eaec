-- ===== src/Examples/Caches.antt =====
-- Two calls that share the slot of one key.
use dashboard_quip_network.Prelude.{ℕ, ◌≡◌, List, [], ◌∷◌, ok, refl}
use dashboard_quip_network.Miner.Cache
use dashboard_quip_network.Miner.Cache.{Row, new_row, hold, acquire}
use dashboard_quip_network.Miner.Cache.Slots.{
  System, Reach, start, step, acquired, IsConsistent, Reach-IsConsistent,
}
use dashboard_quip_network.Prelude.Texts

abbrev status_key : List ℕ
status_key = 115 ∷ 116 ∷ []

abbrev one_call : List (Row ℕ)
one_call = new_row status_key 5 ∷ []

abbrev two_calls : List (Row ℕ)
two_calls = hold 7 (new_row status_key 5) ∷ []

first_acquired : acquire {A = ℕ} status_key 5 [] ≡ ok one_call
unfolding Cache.acquire Cache.contains_key Cache.insert_slot
first_acquired = refl

second_acquired : acquire status_key 7 one_call ≡ ok two_calls
unfolding Cache.acquire Cache.contains_key Cache.update Cache.new_row Texts.same_text
second_acquired = refl

abbrev shared : System ℕ
shared = record { rows = two_calls; calls = status_key ∷ status_key ∷ [] }

shared_reached : Reach shared
shared_reached =
    step (step start (acquired status_key 5 one_call first_acquired))
      (acquired status_key 7 two_calls second_acquired)

Reach-IsConsistent_example : IsConsistent shared
Reach-IsConsistent_example = Reach-IsConsistent shared_reached
