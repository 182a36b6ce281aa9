-- ===== src/CacheStore/Full.antt =====
-- What store_cache of EXAMS/30.01.2024/server.c makes of a request when every slot is in use.
use pso_workspace.Base.{
  ℕ, zero, suc, ◌+◌, ◌%◌, ◌<◌, ◌≤◌, ◌≡◌, refl, ap, sym, ◌∙◌, some, List, ◌⊎◌, inl, inr, arith,
  subst,
}
use pso_workspace.Base.Text.{Text}
use pso_workspace.Base.Shelf.{assign}
use pso_workspace.CacheStore.Slots.{
  max_cache_slots, CacheSlot, Storing, returned, running, page_of, rest_of_page, minus_int,
  for_loop, overwritten, replaced_at, for_fuel, while_loop, store_cache,
}
use pso_workspace.CacheStore.Rounds.{
  visited, visited_same, for_loop_over, for_loop-visited, while_round, while_over, replaced-some,
}
use pso_workspace.CacheStore.Places.{
  AllUsed, AllCold, LeastIsFirst, visited_first, minus_rest, moved_past_lem, moved_past_place,
  next_place,
}

module _ (read_at : Text → ℕ → List ℕ) (filename : Text) where
  -- A state in which the while loop stays.
  record Stuck (l : Storing) : Type 0 where
    used : AllUsed l.cache
    cold : AllCold l.cache
    least : LeastIsFirst l
    left : 0 < l.bytes_size
    size : l.bytes_size < 2147483648
    place : l.byte_start < 2147483648
    inside : 0 < l.byte_start % 100
    room : (l.byte_start + 101 < 2147483648) ⊎ (l.byte_start % 100 ≤ 50)

  overwritten-AllUsed :
      (cache : ℕ → CacheSlot) (k place : ℕ)
      → k < max_cache_slots
      → AllUsed cache
      → AllUsed (assign cache k (overwritten read_at filename place (cache k)))
  overwritten-AllUsed cache k place h u j l = ground (arith, u j, u k)

  overwritten-AllCold :
      (cache : ℕ → CacheSlot) (k place : ℕ)
      → AllCold cache
      → AllCold (assign cache k (overwritten read_at filename place (cache k)))
  overwritten-AllCold cache k place c j = ground (arith, c j, c k)

  full_round :
      (fuel : ℕ) (l : Storing)
      → AllUsed l.cache
      → (l.cache 0).used_nr ≡ 0
      → LeastIsFirst l
      → 0 < l.bytes_size
      → while_loop read_at filename (suc fuel) l
        ≡ while_loop read_at filename fuel (replaced_at read_at filename 0 (visited 10 0 l))
  full_round fuel l used cold least left =
      let (a, b, c) = visited_same 10 0 l in
      let (d, e) = visited_first l cold least in
      let all : for_loop read_at filename for_fuel 0 l ≡ some (visited 10 0 l) =
        for_loop-visited read_at filename 10 111 0 l (omega arith) left (λ j lo hi. used j hi)
        ∙ for_loop_over read_at filename 110 10 (visited 10 0 l) refl in
      while_round read_at filename fuel l (visited 10 0 l) _ left all
        (replaced-some read_at filename 0 (visited 10 0 l) (omega (arith, c)) e)

  replaced_at-Stuck :
      (m : Storing)
      → Stuck m
      → m.least_used ≡ 0
      → m.least_used_index ≡ some 0
      → Stuck (replaced_at read_at filename 0 m)
  replaced_at-Stuck m v none_used first =
      let next = record m {
        cache = assign m.cache 0 (overwritten read_at filename m.byte_start (m.cache 0));
        bytes_size =
            minus_int m.bytes_size (rest_of_page (page_of m.byte_start) m.byte_start m.bytes_size);
      } in
      let (a, b, c, d) = moved_past_lem (page_of m.byte_start) next in
      let h = minus_rest m.byte_start m.bytes_size v.place v.size in
      let (low, inside, near) =
        next_place m.byte_start _ next.bytes_size (moved_past_place (page_of m.byte_start) next) h
          v.place v.inside v.room in
      record {
        used =
            subst AllUsed (sym a) (overwritten-AllUsed m.cache 0 m.byte_start (omega arith) v.used);
        cold = subst AllCold (sym a) (overwritten-AllCold m.cache 0 m.byte_start v.cold);
        least = inr (c ∙ none_used, d ∙ first);
        left = omega (arith, b, h, v.inside);
        size = omega (arith, b, h);
        place = low;
        inside = inside;
        room = inr near;
      }

  visited-Stuck : (l : Storing) → Stuck l → Stuck (visited 10 0 l)
  visited-Stuck l v =
      let (a, b, c) = visited_same 10 0 l in
      let (d, e) = visited_first l (v.cold 0) v.least in
      record {
        used = subst AllUsed (sym a) v.used;
        cold = subst AllCold (sym a) v.cold;
        least = inr (d, e);
        left = omega (arith, c, v.left);
        size = omega (arith, c, v.size);
        place = omega (arith, b, v.place);
        inside = omega (arith, b, v.inside);
        room = subst (λ (p : ℕ). (p + 101 < 2147483648) ⊎ (p % 100 ≤ 50)) (sym b) v.room;
      }

  -- Whatever the fuel.
  while_loop-Stuck :
      (fuel : ℕ) (l : Storing) → Stuck l → while_loop read_at filename fuel l ≡ running
  unfolding while_loop
  while_loop-Stuck zero l v = refl
  while_loop-Stuck (suc fuel) l v =
      full_round fuel l v.used (v.cold 0) v.least v.left
      ∙ while_loop-Stuck fuel _ (
          let (d, e) = visited_first l (v.cold 0) v.least in
          replaced_at-Stuck (visited 10 0 l) (visited-Stuck l v) d e)

  aligned_returns :
      (fuel : ℕ) (l : Storing)
      → AllUsed l.cache
      → AllCold l.cache
      → LeastIsFirst l
      → 0 < l.bytes_size
      → l.bytes_size < 2147483648
      → l.byte_start < 2147483648
      → l.byte_start % 100 ≡ 0
      → while_loop read_at filename (suc (suc fuel)) l
        ≡ returned (assign l.cache 0 (overwritten read_at filename l.byte_start (l.cache 0)))
  aligned_returns fuel l used cold least left low near start =
      let m = visited 10 0 l in
      let (a, b, c) = visited_same 10 0 l in
      let next = record m {
        cache = assign m.cache 0 (overwritten read_at filename m.byte_start (m.cache 0));
        bytes_size =
            minus_int m.bytes_size (rest_of_page (page_of m.byte_start) m.byte_start m.bytes_size);
      } in
      let (d, e, f, g) = moved_past_lem (page_of m.byte_start) next in
      let h = minus_rest m.byte_start m.bytes_size (omega (arith, b)) (omega (arith, c)) in
      full_round (suc fuel) l used (cold 0) least left
      ∙ while_over read_at filename fuel _ (e ∙ h ∙ ap (λ (p : ℕ). p % 100) b ∙ start)
      ∙ ap returned (
          d
          ∙ ap
              (λ (cs : ℕ → CacheSlot).
                assign cs 0 (overwritten read_at filename m.byte_start (cs 0)))
              a
          ∙ ap (λ (p : ℕ). assign l.cache 0 (overwritten read_at filename p (l.cache 0))) b)

  -- A request for a place inside of a page, where every slot is in use: store_cache never returns.
  -- One for the beginning of a page returns after a round, with the first slot replaced.
  pub store_cache_full :
      (cache : ℕ → CacheSlot) (place size : ℕ)
      → AllUsed cache
      → AllCold cache
      → 0 < size
      → size < 2147483648
      → place + 101 < 2147483648
      → ((fuel : ℕ)
          → 0 < place % 100
          → store_cache read_at filename fuel cache place size ≡ running)
        × ((fuel : ℕ)
            → place % 100 ≡ 0
            → store_cache read_at filename (suc (suc fuel)) cache place size
              ≡ returned (assign cache 0 (overwritten read_at filename place (cache 0))))
  unfolding store_cache
  store_cache_full cache place size used cold left low near = (
    λ fuel inside. while_loop-Stuck fuel _ (record {
      used = used;
      cold = cold;
      least = inl (refl, refl);
      left = left;
      size = low;
      place = omega arith;
      inside = inside;
      room = inl near;
    }),
    λ fuel start. aligned_returns fuel _ used cold (inl (refl, refl)) left low (omega arith) start,
  )
