-- ===== src/PageCache/Tests.antt =====
-- Caches of EXAMS/cache_exam_30_01_2024/server.c: one with all slots in use, and an empty one.
use pso_workspace.Base.{ℕ, ◌≤◌, ◌<◌, ◌≡◌, refl, false, none, [], arith, ◌==◌, if◌then◌else◌}
use pso_workspace.Base.Text.{codes, str_eq}
use pso_workspace.PageCache.Slots.{
  Cache, CacheSlot, nr_slots, make_new_slot, verify_hitting_type, has_file, lru_index, lru_loop,
  next_valid_entrance, lru_algo, free_slot,
}
use pso_workspace.PageCache.Choice.{lru_index_lem}

abbrev slot_of_rate : ℕ → CacheSlot
slot_of_rate rate = record {
  entrance = none;
  file_name = [];
  start_byte = 0;
  opp = [];
  to_write = [];
  nr_bytes = 0;
  access_rate = rate;
  recently_inserted = false;
}

-- The slot 4 was used least.
abbrev used : Cache
used i = slot_of_rate (if i == 4 then 2 else 7)

lru_index_lem_example :
    (lru_index used < nr_slots)
    × ((j : ℕ)
        → j < nr_slots
        → ((used (lru_index used)).access_rate ≤ (used j).access_rate)
          × (j < lru_index used → (used (lru_index used)).access_rate < (used j).access_rate))
lru_index_lem_example = lru_index_lem used 4 (omega arith) (omega arith)

least_used : (next_valid_entrance used).0 ≡ 4
unfolding next_valid_entrance free_slot lru_algo lru_loop
least_used = refl

abbrev empty_cache : Cache
empty_cache i = slot_of_rate 0

-- The bytes 980 to 1019 of a file
abbrev request : CacheSlot
request = record (slot_of_rate 0) {
  file_name = codes "f";
  opp = codes "read";
  start_byte = 980;
  nr_bytes = 40;
}

request_misses : verify_hitting_type empty_cache request ≡ 1
unfolding verify_hitting_type has_file str_eq
request_misses = refl

new_slot :
    make_new_slot (codes "f") (codes "read") 980 40 [] ≡ record request { to_write = codes "0" }
unfolding make_new_slot str_eq
new_slot = refl
