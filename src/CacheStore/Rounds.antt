-- ===== src/CacheStore/Rounds.antt =====
-- The rounds of the loops of store_cache in EXAMS/30.01.2024/server.c.
use pso_workspace.Base.{
  ℕ, zero, suc, ◌+◌, ◌-◌, ◌*◌, ◌<◌, ◌≤◌, ◌≡◌, ◌≢◌, refl, ap, sym, ◌∙◌, true, false, none, some,
  if◌then◌else◌, arith, List, dec_lt, Bool-cases, inl, inr, Option, ltb,
}
use pso_workspace.Base.Text.{Text}
use pso_workspace.Base.Shelf.{assign}
use pso_workspace.CacheStore.Slots.{
  max_cache_slots, CacheSlot, Storing, noted, page_of, filled, stored, moved_on, for_round,
  for_loop, for_fuel, while_loop, replaced, returned, replaced_at, fault,
}

-- Free slots among those below a bound.
unfoldable pub free_below : (ℕ → CacheSlot) → ℕ → ℕ
free_below cache zero = 0
free_below cache (suc n) =
    if (cache n).is_used then free_below cache n else suc (free_below cache n)

free_below_bound : (cache : ℕ → CacheSlot) (n : ℕ) → free_below cache n ≤ n
unfolding free_below
free_below_bound cache zero = omega arith
free_below_bound cache (suc n) = ground (arith, free_below_bound cache n)

free_below-above :
    (cache : ℕ → CacheSlot) (i : ℕ) (ch : CacheSlot) (n : ℕ)
    → n ≤ i
    → free_below (assign cache i ch) n ≡ free_below cache n
unfolding free_below
free_below-above cache i ch zero h = refl
free_below-above cache i ch (suc n) h = ground (arith, free_below-above cache i ch n)

-- A free slot that gets used is one less.
free_below-assign :
    (cache : ℕ → CacheSlot) (i : ℕ) (ch : CacheSlot) (n : ℕ)
    → i < n
    → (cache i).is_used ≡ false
    → ch.is_used ≡ true
    → free_below cache n ≡ suc (free_below (assign cache i ch) n)
unfolding free_below
free_below-assign cache i ch zero l h u = absurd (omega arith)
free_below-assign cache i ch (suc n) l h u =
    ground (arith, free_below-assign cache i ch n, free_below-above cache i ch n)

-- The slots of a range noted one after the other.
unfoldable pub visited : ℕ → ℕ → Storing → Storing
visited zero i l = l
visited (suc n) i l = visited n (suc i) (noted i l)

pub noted_same :
    (i : ℕ) (l : Storing)
    → ((noted i l).cache ≡ l.cache)
      × ((noted i l).byte_start ≡ l.byte_start)
      × ((noted i l).bytes_size ≡ l.bytes_size)
unfolding noted
noted_same i l = ground arith

pub visited_same :
    (n i : ℕ) (l : Storing)
    → ((visited n i l).cache ≡ l.cache)
      × ((visited n i l).byte_start ≡ l.byte_start)
      × ((visited n i l).bytes_size ≡ l.bytes_size)
unfolding visited
visited_same zero i l = (refl, refl, refl)
visited_same (suc n) i l =
    let (a, b, c) = noted_same i l in
    let (d, e, f) = visited_same n (suc i) (noted i l) in (d ∙ a, e ∙ b, f ∙ c)

moved_on_lem :
    (i start : ℕ) (l : Storing)
    → i < max_cache_slots
    → ((moved_on i start l).0 ≤ max_cache_slots) × ((moved_on i start l).1.cache ≡ l.cache)
unfolding moved_on
moved_on_lem i start l h = ground arith

module _ (read_at : Text → ℕ → List ℕ) (filename : Text) where
  pub for_loop_over :
      (fuel i : ℕ) (l : Storing)
      → i ≡ max_cache_slots
      → for_loop read_at filename (suc fuel) i l ≡ some l
  unfolding for_loop
  for_loop_over fuel i l e = ground arith

  pub for_loop_done :
      (fuel i : ℕ) (l : Storing)
      → l.bytes_size ≡ 0
      → for_loop read_at filename (suc fuel) i l ≡ some l
  unfolding for_loop
  for_loop_done fuel i l e = ground arith

  pub for_loop_used :
      (fuel i : ℕ) (l : Storing)
      → i < max_cache_slots
      → 0 < l.bytes_size
      → (l.cache i).is_used ≡ true
      → for_loop read_at filename (suc fuel) i l
        ≡ for_loop read_at filename fuel (suc i) (noted i l)
  unfolding for_loop for_round
  for_loop_used fuel i l h s u = ground arith

  pub for_loop_free :
      (fuel i : ℕ) (l : Storing)
      → i < max_cache_slots
      → 0 < l.bytes_size
      → (l.cache i).is_used ≡ false
      → for_loop read_at filename (suc fuel) i l ≡ (
          let m = moved_on i (page_of l.byte_start) (stored read_at filename i l) in
          for_loop read_at filename fuel m.0 m.1)
  unfolding for_loop for_round
  for_loop_free fuel i l h s u = ground arith

  -- Slots that are in use are passed.
  pub for_loop-visited :
      (n fuel i : ℕ) (l : Storing)
      → i + n ≤ max_cache_slots
      → 0 < l.bytes_size
      → ((j : ℕ) → i ≤ j → j < i + n → (l.cache j).is_used ≡ true)
      → for_loop read_at filename (n + fuel) i l
        ≡ for_loop read_at filename fuel (i + n) (visited n i l)
  unfolding visited
  for_loop-visited zero fuel i l h s u =
      let a : 0 + fuel ≡ fuel = omega arith in let b : i + 0 ≡ i = omega arith in rw (a, b) refl
  for_loop-visited (suc n) fuel i l h s u =
      let (a, b, c) = noted_same i l in
      let more : suc n + fuel ≡ suc (n + fuel) = omega arith in
      let far : i + suc n ≡ suc i + n = omega arith in
      rw (more, far)
        (for_loop_used (n + fuel) i l (omega arith) s (u i (omega arith) (omega arith))
          ∙ for_loop-visited n fuel (suc i) (noted i l) (omega arith) (omega (arith, c)) (λ j lo hi.
            ap (λ (f : ℕ → CacheSlot). (f j).is_used) a ∙ u j (omega arith) (omega arith)))

  -- However often the loop begins anew, so much fuel is enough.
  for_loop_ends :
      (fuel i : ℕ) (l : Storing)
      → i ≤ max_cache_slots
      → free_below l.cache max_cache_slots * 11 + (max_cache_slots - i) < fuel
      → for_loop read_at filename fuel i l ≢ none
  for_loop_ends zero i l h f e = absurd (omega arith)
  for_loop_ends (suc fuel) i l h f e = elim (dec_lt i max_cache_slots) [
    | no over ↦ cc (for_loop_over fuel i l (omega arith))
    | yes below ↦ elim (dec_lt 0 l.bytes_size) [
      | no empty ↦ cc (for_loop_done fuel i l (omega arith))
      | yes some_left ↦ elim (Bool-cases (l.cache i).is_used) [
        | inl used ↦
            let (a, b, c) = noted_same i l in
            let same = ap (λ (cache : ℕ → CacheSlot). free_below cache max_cache_slots) a in
            for_loop_ends fuel (suc i) (noted i l) (omega arith) (omega (arith, same))
              (sym (for_loop_used fuel i l below some_left used) ∙ e)
        | inr free ↦
            let l' = stored read_at filename i l in
            let m = moved_on i (page_of l.byte_start) l' in
            let (low, a) = moved_on_lem i (page_of l.byte_start) l' below in
            let same = ap (λ (cache : ℕ → CacheSlot). free_below cache max_cache_slots) a in
            let less =
              free_below-assign l.cache i (filled read_at filename l.byte_start (l.cache i))
                max_cache_slots below free refl in
            for_loop_ends fuel m.0 m.1 low (omega (arith, same, less))
              (sym (for_loop_free fuel i l below some_left free) ∙ e)
      ]
    ]
  ]

  -- The for loop ends in every state: its fuel is enough.
  pub for_loop_enough : (l : Storing) → for_loop read_at filename for_fuel 0 l ≢ none
  for_loop_enough l =
      for_loop_ends for_fuel 0 l (omega arith)
        (omega (arith, free_below_bound l.cache max_cache_slots))

  pub while_round :
      (fuel : ℕ) (l m : Storing) (r : Option Storing)
      → 0 < l.bytes_size
      → for_loop read_at filename for_fuel 0 l ≡ some m
      → replaced read_at filename m ≡ r
      → while_loop read_at filename (suc fuel) l
        ≡ (elim r [ none ↦ fault | some q ↦ while_loop read_at filename fuel q ])
  unfolding while_loop
  while_round fuel l m r left e f =
      let test : ltb 0 l.bytes_size ≡ true = ground arith in rw (test, e, f) refl

  pub while_over :
      (fuel : ℕ) (l : Storing)
      → l.bytes_size ≡ 0
      → while_loop read_at filename (suc fuel) l ≡ returned l.cache
  unfolding while_loop
  while_over fuel l e = rw e refl

  pub replaced-some :
      (k : ℕ) (m : Storing)
      → 0 < m.bytes_size
      → m.least_used_index ≡ some k
      → replaced read_at filename m ≡ some (replaced_at read_at filename k m)
  unfolding replaced
  replaced-some k m left e = ground arith

  pub replaced-none :
      (m : Storing)
      → 0 < m.bytes_size
      → m.least_used_index ≡ none
      → replaced read_at filename m ≡ none
  unfolding replaced
  replaced-none m left e = ground arith

  pub replaced_over : (m : Storing) → m.bytes_size ≡ 0 → replaced read_at filename m ≡ some m
  unfolding replaced
  replaced_over m e = ground arith
