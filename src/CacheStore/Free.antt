-- ===== src/CacheStore/Free.antt =====
-- What store_cache of EXAMS/30.01.2024/server.c makes of a request when there are free slots.
use pso_workspace.Base.{
  ℕ, zero, suc, ◌+◌, ◌-◌, ◌%◌, ◌<◌, ◌≤◌, ◌≡◌, refl, ap, ◌∙◌, true, false, none, some, List, arith,
}
use pso_workspace.Base.Text.{Text, str_eq_refl}
use pso_workspace.Base.Shelf.{assign}
use pso_workspace.CacheStore.Slots.{
  max_cache_slots, CacheSlot, Storing, returned, fault, page_of, filled, stored, moved_on, for_loop,
  for_fuel, store_cache, is_hit,
}
use pso_workspace.CacheStore.Rounds.{
  visited, visited_same, for_loop_over, for_loop_done, for_loop_free, for_loop-visited, while_round,
  while_over, replaced-none, replaced_over,
}

moved_on_empty :
    (i place : ℕ) (l : Storing)
    → l.bytes_size ≡ 0
    → l.byte_start ≡ place
    → moved_on i (page_of place) l ≡ (suc i, l)
unfolding moved_on
moved_on_empty i place l e f = ground arith

moved_on_page :
    (i : ℕ) (l : Storing)
    → l.bytes_size ≡ 100
    → l.byte_start % 100 ≡ 0
    → moved_on i (page_of l.byte_start) l ≡ (suc i, l)
unfolding moved_on
moved_on_page i l e f = ground arith

module _ (read_at : Text → ℕ → List ℕ) (filename : Text) where
  -- The for loop, where slot `k` is the first free one and the request is for less than a page.
  small_loop :
      (k : ℕ) (l : Storing)
      → k < max_cache_slots
      → ((j : ℕ) → j < k → (l.cache j).is_used ≡ true)
      → (l.cache k).is_used ≡ false
      → 0 < l.bytes_size
      → l.bytes_size < 100
      → for_loop read_at filename for_fuel 0 l ≡ some (stored read_at filename k (visited k 0 l))
  small_loop k l h used free left low =
      let m = visited k 0 l in
      let (a, b, c) = visited_same k 0 l in
      let all : for_fuel ≡ k + suc (suc (119 - k)) = omega arith in
      let there : 0 + k ≡ k = omega arith in
      let next =
        moved_on_empty k m.byte_start (stored read_at filename k m) (omega (arith, c)) refl in
      ap (λ (fuel : ℕ). for_loop read_at filename fuel 0 l) all
      ∙ for_loop-visited read_at filename k (suc (suc (119 - k))) 0 l (omega arith) left
          (λ j lo hi. used j (omega arith))
      ∙ ap (λ (j : ℕ). for_loop read_at filename (suc (suc (119 - k))) j m) there
      ∙ for_loop_free read_at filename (suc (119 - k)) k m h (omega (arith, c))
          (ap (λ (cs : ℕ → CacheSlot). (cs k).is_used) a ∙ free)
      ∙ ap (λ (r : ℕ × Storing). for_loop read_at filename (suc (119 - k)) r.0 r.1) next
      ∙ for_loop_done read_at filename (119 - k) (suc k) (stored read_at filename k m)
          (omega (arith, c))

  -- A request for less than a page returns with the page of its place in the first free slot, and
  -- there get_from_cache has a hit.
  pub store_cache_free :
      (cache : ℕ → CacheSlot) (k place size fuel : ℕ)
      → k < max_cache_slots
      → ((j : ℕ) → j < k → (cache j).is_used ≡ true)
      → (cache k).is_used ≡ false
      → 0 < size
      → size < 100
      → (store_cache read_at filename (suc (suc fuel)) cache place size
          ≡ returned (assign cache k (filled read_at filename place (cache k))))
        × (is_hit filename place (filled read_at filename place (cache k)) ≡ true)
  unfolding store_cache is_hit
  store_cache_free cache k place size fuel h used free left low =
      let l : Storing = record {
        cache = cache;
        byte_start = place;
        bytes_size = size;
        least_used = 999;
        least_used_index = none;
      } in
      let (a, b, c) = visited_same k 0 l in
      let m = stored read_at filename k (visited k 0 l) in
      (
        while_round read_at filename (suc fuel) l m _ left (small_loop k l h used free left low)
              (replaced_over read_at filename m (omega (arith, c)))
            ∙ while_over read_at filename fuel m (omega (arith, c))
            ∙ ap returned (
                ap
                  (λ (cs : ℕ → CacheSlot).
                    assign cs k (filled read_at filename (visited k 0 l).byte_start (cs k)))
                  a
                ∙ ap (λ (p : ℕ). assign cache k (filled read_at filename p (cache k))) b),
        ground (arith, str_eq_refl filename),
      )

  -- A whole page into free slots: all of them get it.
  page_loop :
      (n fuel i : ℕ) (l : Storing)
      → i + n ≤ max_cache_slots
      → l.bytes_size ≡ 100
      → l.byte_start % 100 ≡ 0
      → l.least_used_index ≡ none
      → ((j : ℕ) → i ≤ j → (l.cache j).is_used ≡ false)
      → (m : Storing) × (for_loop read_at filename (n + fuel) i l
          ≡ for_loop read_at filename fuel (i + n) m)
        × (m.bytes_size ≡ 100)
        × (m.least_used_index ≡ none)
  page_loop zero fuel i l h s p e free =
      let a : 0 + fuel ≡ fuel = omega arith in
      let b : i + 0 ≡ i = omega arith in (l, rw (a, b) refl, s, e)
  page_loop (suc n) fuel i l h s p e free =
      let next = stored read_at filename i l in
      let (m, loop, size, least) =
        page_loop n fuel (suc i) next (omega arith) (omega arith) p e
          (λ j lo. ground (arith, free j)) in
      let more : suc n + fuel ≡ suc (n + fuel) = omega arith in
      let far : i + suc n ≡ suc i + n = omega arith in
      (
        m,
        rw (more, far)
            (for_loop_free read_at filename (n + fuel) i l (omega arith) (omega arith)
                (free i (omega arith))
              ∙ rw (moved_on_page i next (omega arith) p) loop),
        size,
        least,
      )

  -- A request for a whole page in an empty cache: the page goes into all slots, as the bytes left do
  -- not get less, and then store_cache writes before the first slot.
  pub store_cache_page :
      (cache : ℕ → CacheSlot) (place fuel : ℕ)
      → ((j : ℕ) → (cache j).is_used ≡ false)
      → place % 100 ≡ 0
      → store_cache read_at filename (suc fuel) cache place 100 ≡ fault
  unfolding store_cache
  store_cache_page cache place fuel free start =
      let l : Storing = record {
        cache = cache;
        byte_start = place;
        bytes_size = 100;
        least_used = 999;
        least_used_index = none;
      } in
      let (m, loop, size, least) =
        page_loop 10 111 0 l (omega arith) refl start refl (λ j lo. free j) in
      while_round read_at filename fuel l m none (omega arith)
        (loop ∙ for_loop_over read_at filename 110 10 m refl)
        (replaced-none read_at filename m (omega arith) least)
