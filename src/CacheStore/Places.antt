-- ===== src/CacheStore/Places.antt =====
-- The least used slot of EXAMS/30.01.2024/server.c, and where a round of its while loop goes on.
use pso_workspace.Base.{
  ℕ, zero, suc, ◌+◌, ◌%◌, ◌<◌, ◌≤◌, ◌≡◌, refl, ◌∙◌, true, none, some, ◌⊎◌, inl, inr, arith,
}
use pso_workspace.CacheStore.Slots.{
  max_cache_slots, CacheSlot, Storing, noted, page_of, rest_of_page, minus_int, moved_past,
}
use pso_workspace.CacheStore.Rounds.{visited}

abbrev pub AllUsed : (ℕ → CacheSlot) → Type 0
AllUsed cache = (j : ℕ) → j < max_cache_slots → (cache j).is_used ≡ true

abbrev pub AllCold : (ℕ → CacheSlot) → Type 0
AllCold cache = (j : ℕ) → (cache j).used_nr ≡ 0

pub noted_least :
    (i : ℕ) (l : Storing)
    → l.least_used ≡ 0
    → ((noted i l).least_used ≡ 0) × ((noted i l).least_used_index ≡ l.least_used_index)
unfolding noted
noted_least i l e = ground arith

pub visited_least :
    (n i : ℕ) (l : Storing)
    → l.least_used ≡ 0
    → ((visited n i l).least_used ≡ 0) × ((visited n i l).least_used_index ≡ l.least_used_index)
unfolding visited
visited_least zero i l e = (e, refl)
visited_least (suc n) i l e =
    let (a, b) = noted_least i l e in
    let (c, d) = visited_least n (suc i) (noted i l) a in (c, d ∙ b)

-- Before the first round of the while loop, or after it.
abbrev pub LeastIsFirst : Storing → Type 0
LeastIsFirst l =
    ((l.least_used ≡ 999) × (l.least_used_index ≡ none))
    ⊎ ((l.least_used ≡ 0) × (l.least_used_index ≡ some 0))

pub noted-LeastIsFirst :
    (l : Storing)
    → (l.cache 0).used_nr ≡ 0
    → LeastIsFirst l
    → ((noted 0 l).least_used ≡ 0) × ((noted 0 l).least_used_index ≡ some 0)
unfolding noted
noted-LeastIsFirst l cold (inl (a, b)) = ground arith
noted-LeastIsFirst l cold (inr (a, b)) = ground arith

pub visited_first :
    (l : Storing)
    → (l.cache 0).used_nr ≡ 0
    → LeastIsFirst l
    → ((visited 10 0 l).least_used ≡ 0) × ((visited 10 0 l).least_used_index ≡ some 0)
unfolding visited
visited_first l cold h =
    let (a, b) = noted-LeastIsFirst l cold h in
    let (c, d) = visited_least 9 1 (noted 0 l) a in (c, d ∙ b)

-- `bytes_size` behind a replacement
pub minus_rest :
    (place size : ℕ)
    → place < 2147483648
    → size < 2147483648
    → minus_int size (rest_of_page (page_of place) place size) ≡ place % 100
minus_rest place size h k = omega arith

pub moved_past_lem :
    (start : ℕ) (l : Storing)
    → ((moved_past start l).cache ≡ l.cache)
      × ((moved_past start l).bytes_size ≡ l.bytes_size)
      × ((moved_past start l).least_used ≡ l.least_used)
      × ((moved_past start l).least_used_index ≡ l.least_used_index)
unfolding moved_past
moved_past_lem start l = ground arith

pub moved_past_place :
    (start : ℕ) (l : Storing)
    → (((moved_past start l).byte_start ≡ l.byte_start)
        × (l.byte_start + l.bytes_size ≤ start + 100))
      ⊎ (((moved_past start l).byte_start ≡ start + 101)
          × (start + 100 < l.byte_start + l.bytes_size))
unfolding moved_past
moved_past_place start l = ground arith

-- Where the next round begins, if `left` bytes are left.
pub next_place :
    (b x left : ℕ)
    → ((x ≡ b) × (b + left ≤ page_of b + 100))
      ⊎ ((x ≡ page_of b + 101) × (page_of b + 100 < b + left))
    → left ≡ b % 100
    → b < 2147483648
    → 0 < b % 100
    → (b + 101 < 2147483648) ⊎ (b % 100 ≤ 50)
    → (x < 2147483648) × (0 < x % 100) × (x % 100 ≤ 50)
next_place b x left (inl (same, near)) e h i r = (omega arith, omega arith, omega arith)
next_place b x left (inr (next, far)) e h i (inl room) = (omega arith, omega arith, omega arith)
next_place b x left (inr (next, far)) e h i (inr low) = absurd (omega arith)
