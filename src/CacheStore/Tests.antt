-- ===== src/CacheStore/Tests.antt =====
-- Requests to the cache of EXAMS/30.01.2024/server.c at small values.
use pso_workspace.Base.{ℕ, suc, ◌%◌, ◌<◌, ◌≡◌, ◌≢◌, refl, true, false, none, List, [], ◌∷◌, arith}
use pso_workspace.Base.Text.{Text, codes}
use pso_workspace.Base.Shelf.{assign}
use pso_workspace.CacheStore.Slots.{
  CacheSlot, Storing, returned, running, filled, overwritten, for_loop, for_fuel, store_cache,
  is_hit,
}
use pso_workspace.CacheStore.Rounds.{for_loop_enough}
use pso_workspace.CacheStore.Full.{store_cache_full}
use pso_workspace.CacheStore.Free.{store_cache_free}

abbrev read_place : Text → ℕ → List ℕ
read_place filename place = place % 128 ∷ []

abbrev name : Text
name = codes "a.txt"

abbrev empty_cache : ℕ → CacheSlot
empty_cache i = record {
  filename = [];
  bytes = λ j. 0;
  byte_start = 0;
  used_nr = 0;
  is_used = false;
}

abbrev full_cache : ℕ → CacheSlot
full_cache i = record (empty_cache i) { is_used = true }

store_cache_full_example :
    ((fuel : ℕ) → 0 < 7 % 100 → store_cache read_place name fuel full_cache 7 20 ≡ running)
    × ((fuel : ℕ)
        → 7 % 100 ≡ 0
        → store_cache read_place name (suc (suc fuel)) full_cache 7 20
          ≡ returned (assign full_cache 0 (overwritten read_place name 7 (full_cache 0))))
store_cache_full_example =
    store_cache_full read_place name full_cache 7 20 (λ j h. refl) (λ j. refl) (omega arith)
      (omega arith) (omega arith)

store_cache_free_example :
    (store_cache read_place name 2 empty_cache 130 20
      ≡ returned (assign empty_cache 0 (filled read_place name 130 (empty_cache 0))))
    × (is_hit name 130 (filled read_place name 130 (empty_cache 0)) ≡ true)
store_cache_free_example =
    store_cache_free read_place name empty_cache 0 130 20 0 (omega arith)
      (λ j h. absurd (omega arith)) refl (omega arith) (omega arith)

abbrev start_storing : Storing
start_storing = record {
  cache = empty_cache;
  byte_start = 30;
  bytes_size = 200;
  least_used = 999;
  least_used_index = none;
}

for_loop_enough_example : for_loop read_place name for_fuel 0 start_storing ≢ none
for_loop_enough_example = for_loop_enough read_place name start_storing
