-- ===== src/CacheStore/Slots.antt =====
-- store_cache of EXAMS/30.01.2024/server.c, and the search of get_from_cache. Numbers are not negative
-- and, apart from a difference of size_t that becomes an int, do not wrap around. What a read of at most
-- 100 bytes gives, for a file and a place in it, is a parameter.
use pso_workspace.Base.{
  ℕ, zero, suc, ◌+◌, ◌-◌, ◌*◌, ◌/◌, ◌%◌, ◌^◌, Bool, true, ◌&&◌, Option, none, some, List, [], ◌∷◌,
  ltb, leb, if◌then◌else◌,
}
use pso_workspace.Base.Text.{Text, str_eq}
use pso_workspace.Base.Shelf.{assign}

abbrev pub max_cache_slots : ℕ
max_cache_slots = 10

abbrev pub max_cache_bytes : ℕ
max_cache_bytes = 100

pub record CacheSlot : Type 0 where
  pub filename : Text
  pub bytes : ℕ → ℕ
  pub byte_start : ℕ
  pub used_nr : ℕ
  pub is_used : Bool

-- The locals of store_cache with the cache; `least_used_index` is `none` for -1.
pub record Storing : Type 0 where
  pub cache : ℕ → CacheSlot
  pub byte_start : ℕ
  pub bytes_size : ℕ
  pub least_used : ℕ
  pub least_used_index : Option ℕ

-- `running` is a run that goes on, with the mutex held; `fault` an access outside of the cache.
pub data Outcome : Type 0 where
  returned : (ℕ → CacheSlot) → Outcome
  fault running : Outcome

-- What a read writes into an array, from index `i` on.
unfoldable pub write_bytes : (ℕ → ℕ) → ℕ → List ℕ → ℕ → ℕ
write_bytes old i [] = old
write_bytes old i (b ∷ bs) = write_bytes (assign old i b) (i + 1) bs

abbrev pub page_of : ℕ → ℕ
page_of place = place / 100 * 100

-- `ch->byte_start - byte_start + bytes_size` as an int, and an int minus it.
abbrev pub rest_of_page : ℕ → ℕ → ℕ → ℕ
rest_of_page start place size = (start + 2 ^ 64 - place + size) % 2 ^ 64 % 2 ^ 32

abbrev pub minus_int : ℕ → ℕ → ℕ
minus_int a b = (a + 2 ^ 32 - b) % 2 ^ 32

-- The branch of the loop for a slot that is in use.
unfoldable pub noted : ℕ → Storing → Storing
noted i l =
    if ltb (l.cache i).used_nr l.least_used
    then record l { least_used = (l.cache i).used_nr; least_used_index = some i }
    else l

-- The end of a round of the for loop, for the page that was stored: the next index, after `i++`.
unfoldable pub moved_on : ℕ → ℕ → Storing → ℕ × Storing
moved_on i start l =
    if ltb (start + max_cache_bytes) (l.byte_start + l.bytes_size)
    then (suc 0, record l { byte_start = start + max_cache_bytes + 1 })
    else (suc i, l)

-- The end of a round of the while loop behind the new `bytes_size`.
unfoldable pub moved_past : ℕ → Storing → Storing
moved_past start l =
    if ltb (start + max_cache_bytes) (l.byte_start + l.bytes_size)
    then record l { byte_start = start + max_cache_bytes + 1 }
    else l

-- The for loop has at most 120 rounds.
abbrev pub for_fuel : ℕ
for_fuel = 121

module _ (read_at : Text → ℕ → List ℕ) (filename : Text) where
  -- A free slot with the page of a place.
  abbrev pub filled : ℕ → CacheSlot → CacheSlot
  filled place ch = record ch {
    is_used = true;
    filename = filename;
    byte_start = page_of place;
    bytes = write_bytes ch.bytes 0 (read_at filename (page_of place));
  }

  abbrev pub stored : ℕ → Storing → Storing
  stored i l = record l {
    cache = assign l.cache i (filled l.byte_start (l.cache i));
    bytes_size = l.bytes_size - l.bytes_size % max_cache_bytes;
  }

  unfoldable pub for_round : ℕ → Storing → ℕ × Storing
  for_round i l =
      if (l.cache i).is_used
      then (suc i, noted i l)
      else moved_on i (page_of l.byte_start) (stored i l)

  -- `none` is a run out of fuel.
  unfoldable pub for_loop : ℕ → ℕ → Storing → Option Storing
  for_loop zero i l = none
  for_loop (suc fuel) i l =
      let (j, m) = for_round i l in
      let rest = for_loop fuel j m in
      if ltb i max_cache_slots && ltb 0 l.bytes_size then rest else some l

  -- The slot that is replaced gets the beginning of the file.
  abbrev pub overwritten : ℕ → CacheSlot → CacheSlot
  overwritten place ch = record ch {
    filename = filename;
    byte_start = page_of place;
    bytes = write_bytes ch.bytes 0 (read_at filename 0);
  }

  abbrev pub replaced_at : ℕ → Storing → Storing
  replaced_at k l = moved_past (page_of l.byte_start) (record l {
    cache = assign l.cache k (overwritten l.byte_start (l.cache k));
    bytes_size =
        minus_int l.bytes_size (rest_of_page (page_of l.byte_start) l.byte_start l.bytes_size);
  })

  -- A round of the while loop behind the for loop.
  unfoldable pub replaced : Storing → Option Storing
  replaced l =
      if ltb 0 l.bytes_size
      then elim l.least_used_index [ none ↦ none | some k ↦ some (replaced_at k l) ]
      else some l

  unfoldable pub while_loop : ℕ → Storing → Outcome
  while_loop zero l = running
  while_loop (suc fuel) l =
      if ltb 0 l.bytes_size
      then elim (for_loop for_fuel 0 l) [
        | none ↦ running
        | some m ↦ elim (replaced m) [ none ↦ fault | some r ↦ while_loop fuel r ]
      ]
      else returned l.cache

  unfoldable pub store_cache : ℕ → (ℕ → CacheSlot) → ℕ → ℕ → Outcome
  store_cache fuel cache place size = while_loop fuel (record {
    cache = cache;
    byte_start = place;
    bytes_size = size;
    least_used = 999;
    least_used_index = none;
  })

-- The test of get_from_cache and write_to_cache for a hit.
unfoldable pub is_hit : Text → ℕ → CacheSlot → Bool
is_hit filename place ch =
    ch.is_used
    && str_eq ch.filename filename
    && leb ch.byte_start place
    && ltb place (ch.byte_start + max_cache_bytes)
