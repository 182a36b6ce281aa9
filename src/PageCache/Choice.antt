-- ===== src/PageCache/Choice.antt =====
-- Which slot of EXAMS/cache_exam_30_01_2024/server.c a new page goes to.
use pso_workspace.Base.{
  ℕ, zero, suc, ◌+◌, ◌-◌, ◌≤◌, ◌<◌, ◌≡◌, refl, false, none, ltb, if◌then◌else◌, arith, inl, inr,
  Bool-cases, ℕ_discrete, dec_lt,
}
use pso_workspace.Base.Shelf.{assign}
use pso_workspace.PageCache.Slots.{
  Cache, CacheSlot, nr_slots, buf_size, lru_loop, lru_index, unmark, handle_connection,
  insert_new_entrance, verify_hitting_type, first_page, last_page,
}

module _ (cache : Cache) where
  -- The least rate that the loop has seen.
  lru_min : ℕ → ℕ → ℕ → ℕ
  lru_min zero i min = min
  lru_min (suc left) i min =
      lru_min left (i + 1) (if ltb (cache i).access_rate min then (cache i).access_rate else min)

  lru_min-le : (left i min : ℕ) → lru_min left i min ≤ min
  unfolding lru_min
  lru_min-le zero i min = omega arith
  lru_min-le (suc left) i min =
      ground (arith, lru_min-le left (i + 1) (cache i).access_rate, lru_min-le left (i + 1) min)

  lru_min-le_rate :
      (left i min j : ℕ) → i ≤ j → j < i + left → lru_min left i min ≤ (cache j).access_rate
  unfolding lru_min
  lru_min-le_rate zero i min j a b = absurd (omega arith)
  lru_min-le_rate (suc left) i min j a b = elim (ℕ_discrete i j) [
    | yes e ↦
        ground
          (arith, e, lru_min-le left (i + 1) (cache i).access_rate, lru_min-le left (i + 1) min)
    | no ne ↦
        lru_min-le_rate left (i + 1)
          (if ltb (cache i).access_rate min then (cache i).access_rate else min) j (omega arith)
          (omega arith)
  ]

  -- Where no rate is below the bound the loop keeps its index, and else it ends with the index of
  -- the first slot with the least rate.
  lru_loop-kept :
      (left i min index : ℕ) → lru_min left i min ≡ min → lru_loop cache left i min index ≡ index
  unfolding lru_loop lru_min
  lru_loop-kept zero i min index h = refl
  lru_loop-kept (suc left) i min index h =
      ground
        (arith, lru_loop-kept left (i + 1) min index, lru_min-le left (i + 1) (cache i).access_rate)

  lru_loop-found :
      (left i min index : ℕ)
      → lru_min left i min < min
      → (i ≤ lru_loop cache left i min index)
        × (lru_loop cache left i min index < i + left)
        × ((cache (lru_loop cache left i min index)).access_rate ≡ lru_min left i min)
  unfolding lru_loop lru_min
  lru_loop-found zero i min index h = absurd (omega arith)
  lru_loop-found (suc left) i min index h = elim (Bool-cases (ltb (cache i).access_rate min)) [
    | inl lower ↦ elim (dec_lt (lru_min left (i + 1) (cache i).access_rate) (cache i).access_rate) [
      | yes more ↦ ground (arith, lower, lru_loop-found left (i + 1) (cache i).access_rate i more)
      | no same ↦ ground (
        arith,
        lower,
        lru_loop-kept left (i + 1) (cache i).access_rate i,
        lru_min-le left (i + 1) (cache i).access_rate,
      )
    ]
    | inr higher ↦ ground (arith, higher, lru_loop-found left (i + 1) min index)
  ]

  lru_loop-first :
      (left i min index j : ℕ)
      → i ≤ j
      → j < lru_loop cache left i min index
      → lru_min left i min < min
      → lru_min left i min < (cache j).access_rate
  unfolding lru_loop lru_min
  lru_loop-first zero i min index j a b h = absurd (omega arith)
  lru_loop-first (suc left) i min index j a b h =
      elim (Bool-cases (ltb (cache i).access_rate min)) [
        | inl lower ↦
            elim (dec_lt (lru_min left (i + 1) (cache i).access_rate) (cache i).access_rate) [
              | yes more ↦ elim (ℕ_discrete i j) [
                | yes e ↦ ground (arith, lower, e)
                | no ne ↦
                    ground (arith, lower, lru_loop-first left (i + 1) (cache i).access_rate i j)
              ]
              | no same ↦ ground (
                arith,
                lower,
                lru_loop-kept left (i + 1) (cache i).access_rate i,
                lru_min-le left (i + 1) (cache i).access_rate,
              )
            ]
        | inr higher ↦ elim (ℕ_discrete i j) [
          | yes e ↦ ground (arith, higher, e)
          | no ne ↦ ground (arith, higher, lru_loop-first left (i + 1) min index j)
        ]
      ]

-- When a slot's rate is below the size of the buffer: the slot that LRU_Algo chooses has the least
-- rate of all ten, and the first of these is chosen.
pub lru_index_lem :
    (cache : Cache) (k : ℕ)
    → k < nr_slots
    → (cache k).access_rate < buf_size
    → (lru_index cache < nr_slots)
      × ((j : ℕ)
          → j < nr_slots
          → ((cache (lru_index cache)).access_rate ≤ (cache j).access_rate)
            × (j < lru_index cache → (cache (lru_index cache)).access_rate < (cache j).access_rate))
unfolding lru_index
lru_index_lem cache k a b =
    let below : lru_min cache nr_slots 0 buf_size < buf_size =
      omega (arith, lru_min-le_rate cache nr_slots 0 buf_size k (omega arith) (omega arith)) in
    let found = lru_loop-found cache nr_slots 0 buf_size 0 below in
    (
      omega (arith, found.1),
      λ j h. (
        omega (
          arith,
          found.2,
          lru_min-le_rate cache nr_slots 0 buf_size j (omega arith) (omega arith),
        ),
        λ less.
            omega (
              arith,
              found.2,
              lru_loop-first cache nr_slots 0 buf_size 0 j (omega arith) less below,
            ),
      ),
    )

unmark_over :
    (cache : Cache) (left i : ℕ) → 0 < left → nr_slots < i + left → unmark cache left i ≡ none
unfolding unmark
unmark_over cache zero i h k = absurd (omega arith)
unmark_over cache (suc zero) i h k = ground arith
unmark_over cache (suc (suc left)) i h k = ground (
  arith,
  unmark_over (assign cache i (record (cache i) { recently_inserted = false })) (suc left) (i + 1),
)

insert_new_entrance_over :
    (cache : Cache) (slot : CacheSlot)
    → first_page slot < last_page slot
    → nr_slots ≤ last_page slot
    → insert_new_entrance cache slot ≡ none
unfolding insert_new_entrance
insert_new_entrance_over cache slot further beyond =
    unmark_over _ (last_page slot - first_page slot) (first_page slot + 1) (omega arith)
      (omega arith)

-- A miss for bytes that reach from one page into another, the last of which has the number 10 or
-- more: the loop that takes the marks back writes behind the last slot, since it goes by the
-- numbers of the pages.
pub handle_connection_overrun :
    (cache : Cache) (slot : CacheSlot)
    → verify_hitting_type cache slot ≡ 1
    → first_page slot < last_page slot
    → nr_slots ≤ last_page slot
    → handle_connection cache slot ≡ none
unfolding handle_connection
handle_connection_overrun cache slot miss further beyond =
    rw (miss, insert_new_entrance_over cache slot further beyond)
