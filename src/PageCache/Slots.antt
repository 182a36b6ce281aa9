-- ===== src/PageCache/Slots.antt =====
-- The ten slots of the cache of EXAMS/cache_exam_30_01_2024/server.c, and the functions that fill
-- them. Sizes and positions are not negative here. A page is what `mmap` maps: a file and an offset.
-- The lines behind the loops of insert_new_Entrance name a variable that is not declared, and are left
-- out.
use pso_workspace.Base.{
  ℕ, zero, suc, ◌+◌, ◌*◌, ◌-◌, ◌/◌, Bool, true, false, ◌&&◌, Option, none, some, ltb, ◌==◌,
  if◌then◌else◌,
}
use pso_workspace.Base.Text.{Text, codes, str_eq}
use pso_workspace.Base.Shelf.{assign}

abbrev pub nr_slots : ℕ
nr_slots = 10

abbrev pub buf_size : ℕ
buf_size = 8192

abbrev pub page_size : ℕ
page_size = 100

pub record Page : Type 0 where
  pub path : Text
  pub offset : ℕ

pub record CacheSlot : Type 0 where
  pub entrance : Option Page
  pub file_name : Text
  pub start_byte : ℕ
  pub opp : Text
  pub to_write : Text
  pub nr_bytes : ℕ
  pub access_rate : ℕ
  pub recently_inserted : Bool

abbrev pub Cache : Type 0
Cache = ℕ → CacheSlot

-- make_new_slot; `malloc` leaves the other fields with no value, and nothing reads them.
unfoldable pub make_new_slot : Text → Text → ℕ → ℕ → Text → CacheSlot
make_new_slot filename opp start_bytes nr_bytes to_write = record {
  entrance = none;
  file_name = filename;
  start_byte = start_bytes;
  opp = opp;
  to_write = if str_eq opp (codes "write") then to_write else codes "0";
  nr_bytes = nr_bytes;
  access_rate = 0;
  recently_inserted = false;
}

-- The loop of verify_hitting_type, over `left` slots from index `i` on.
unfoldable pub has_file : Cache → Text → ℕ → ℕ → Bool
has_file cache name zero i = false
has_file cache name (suc left) i =
    let rest = has_file cache name left (i + 1) in
    if str_eq (cache i).file_name name then true else rest

-- verify_hitting_type: 0 is a hit, 1 a miss.
unfoldable pub verify_hitting_type : Cache → CacheSlot → ℕ
verify_hitting_type cache new_slot = if has_file cache new_slot.file_name nr_slots 0 then 0 else 1

-- The loop of LRU_Algo.
unfoldable pub lru_loop : Cache → ℕ → ℕ → ℕ → ℕ → ℕ
lru_loop cache zero i min index = index
lru_loop cache (suc left) i min index =
    let lower = ltb (cache i).access_rate min in
    lru_loop cache left (i + 1) (if lower then (cache i).access_rate else min)
      (if lower then i else index)

unfoldable pub lru_index : Cache → ℕ
lru_index cache = lru_loop cache nr_slots 0 buf_size 0

abbrev emptied : CacheSlot → CacheSlot
emptied slot = record slot { access_rate = 0; entrance = none }

-- LRU_Algo
unfoldable pub lru_algo : Cache → ℕ × Cache
unfolding lru_index
lru_algo cache = let index = lru_index cache in (index, assign cache index (emptied (cache index)))

abbrev pub is_free : CacheSlot → Bool
is_free slot = slot.access_rate == 0 && (if slot.recently_inserted then false else true)

-- The loop of next_valid_entrance
unfoldable pub free_slot : Cache → ℕ → ℕ → Option ℕ
free_slot cache zero i = none
free_slot cache (suc left) i =
    let rest = free_slot cache left (i + 1) in if is_free (cache i) then some i else rest

or_lru : Option ℕ → Cache → ℕ × Cache
unfolding lru_algo
or_lru none cache = lru_algo cache
or_lru (some i) cache = (i, cache)

unfoldable pub next_valid_entrance : Cache → ℕ × Cache
unfolding or_lru
next_valid_entrance cache = or_lru (free_slot cache nr_slots 0) cache

abbrev pub page_of : Text → ℕ → Page
page_of path i = record { path = path; offset = i * page_size }

abbrev pub filled : CacheSlot → Page → CacheSlot → CacheSlot
filled new_slot page slot = record slot {
  entrance = some page;
  file_name = new_slot.file_name;
  start_byte = new_slot.start_byte;
  opp = new_slot.opp;
  to_write = new_slot.to_write;
  nr_bytes = new_slot.nr_bytes;
  access_rate = suc slot.access_rate;
  recently_inserted = true;
}

map_page : Page → ℕ × Cache → Cache
map_page page (index, cache) =
    assign cache index (record (cache index) { entrance = some page; recently_inserted = true })

-- The loop of insert_new_Entrance that maps the further pages.
unfoldable pub map_pages : Text → Cache → ℕ → ℕ → Cache
unfolding map_page
map_pages path cache zero i = cache
map_pages path cache (suc left) i =
    map_pages path (map_page (page_of path i) (next_valid_entrance cache)) left (i + 1)

abbrev unmarked : CacheSlot → CacheSlot
unmarked slot = record slot { recently_inserted = false }

-- The loop behind it, which goes by the numbers of the pages; a slot that is not there is a fault.
unfoldable pub unmark : Cache → ℕ → ℕ → Option Cache
unmark cache zero i = some cache
unmark cache (suc left) i =
    let rest = unmark (assign cache i (unmarked (cache i))) left (i + 1) in
    if ltb i nr_slots then rest else none

-- `multiply` and `lower_margin`
abbrev pub last_page : CacheSlot → ℕ
last_page slot = (slot.start_byte + slot.nr_bytes) / page_size

abbrev pub first_page : CacheSlot → ℕ
first_page slot = slot.start_byte / page_size

fill_at : CacheSlot → ℕ × Cache → Option Cache
fill_at new_slot (first, cache) =
    let further = last_page new_slot - first_page new_slot in
    let one =
      assign cache first
        (filled new_slot (page_of new_slot.file_name (first_page new_slot)) (cache first)) in
    let all = map_pages new_slot.file_name one further (first_page new_slot + 1) in
    unmark (assign all first (unmarked (all first))) further (first_page new_slot + 1)

-- insert_new_Entrance, to the end of its loops
unfoldable pub insert_new_entrance : Cache → CacheSlot → Option Cache
unfolding fill_at
insert_new_entrance cache new_slot = fill_at new_slot (next_valid_entrance cache)

-- handle_connection
unfoldable pub handle_connection : Cache → CacheSlot → Option Cache
handle_connection cache new_slot =
    if verify_hitting_type cache new_slot == 0
    then some cache
    else insert_new_entrance cache new_slot
