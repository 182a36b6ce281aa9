-- ===== src/SumPool/Lost.antt =====
-- What the shared place of strtok does to the names in EXAMS/restanta_30_06_2023/server_semaphore.c.
use pso_workspace.Base.{
  ◌∙◌, ◌≡◌, ◌⊎◌, inl, inr, refl, sym, ap, subst, Option, none, some, [], ◌∷◌, ◌++◌,
}
use pso_workspace.Base.Text.{Text}
use pso_workspace.SumPool.Tasks.{first_token}
use pso_workspace.SumPool.System.{
  Start, own, foreign, Populate, begins, reserved, submitted, named, over, Place, at_names,
  at_lines, stale, Pool, at_loop, foreign_start, SumStep, reserve, submit, submit_foreign,
  next_name, next_stolen, next_stale, tell, wake, take, post, begin_sum, next_line, end_sum, add_up,
  Sums, stop, further,
}

-- The name of the first buffer that populate_vector holds.
abbrev pub own_name : Start → Option Text
own_name (own name) = some name
own_name foreign = none

abbrev pub name_of : Option Start → Option Text
name_of none = none
name_of (some start) = own_name start

abbrev pub held_name : Populate → Option Text
held_name (begins start) = own_name start
held_name (reserved start) = own_name start
held_name submitted = none
held_name (named start) = name_of start
held_name over = none

-- Once a thread has begun a file, strtok has left the buffer of populate_vector.
abbrev pub HasLeft : Place → Type 0
HasLeft (at_names rest) = ⊥
HasLeft (at_lines sum start rest) = Unit
HasLeft stale = Unit

-- From a state on: no further name than the one that was held.
record AtMostOne (p q : Pool) : Type 0 where
  left : HasLeft q.place
  ways :
      ((q.names ≡ p.names) × (held_name q.main ≡ held_name p.main))
      ⊎ ((held_name q.main ≡ none)
          × ((q.names ≡ p.names)
              ⊎ ((name : Text) × (held_name p.main ≡ some name)
                  × (q.names ≡ p.names ++ name ∷ []))))

held-foreign : (found : Option Text) → name_of (foreign_start found) ≡ none
held-foreign none = refl
held-foreign (some line) = refl

held-at_loop : (start : Option Start) → held_name (at_loop start) ≡ name_of start
held-at_loop none = refl
held-at_loop (some start) = refl

-- A step that submits no name and leaves none, or the one that was held.
kept :
    (p u q : Pool)
    → AtMostOne p u
    → HasLeft q.place
    → q.names ≡ u.names
    → held_name q.main ≡ held_name u.main
    → AtMostOne p q
kept p u q v left same held = record {
  left = left;
  ways = elim v.ways [
    | inl (names, begun) ↦ inl (same ∙ names, held ∙ begun)
    | inr (gone, inl names) ↦ inr (held ∙ gone, inl (same ∙ names))
    | inr (gone, inr (name, begun, names)) ↦ inr (held ∙ gone, inr (name, begun, same ∙ names))
  ];
}

module _ (content : Text → Text) where
  SumStep-AtMostOne : (p : Pool) {u q : Pool} → SumStep content u q → AtMostOne p u → AtMostOne p q
  SumStep-AtMostOne p {u} {q} (reserve start a b same) v =
      subst (AtMostOne p) (sym same) (kept p u _ v v.left refl (rw a refl))
  SumStep-AtMostOne p {u} {q} (submit name a e same) v = subst (AtMostOne p) (sym same) (record {
    left = v.left;
    ways = elim v.ways [
      | inl (names, begun) ↦
          inr (refl, inr (name, sym begun ∙ ap held_name a, ap (λ ns. ns ++ name ∷ []) names))
      | inr (gone, rest) ↦ cc (sym gone ∙ ap held_name a)
    ];
  })
  SumStep-AtMostOne p {u} {q} (submit_foreign name a e same) v =
      subst (AtMostOne p) (sym same) (kept p u _ v v.left refl (rw a refl))
  SumStep-AtMostOne p {u} {q} (next_name rest a e same) v = absurd (subst HasLeft e v.left)
  SumStep-AtMostOne p {u} {q} (next_stolen sum start rest a e same) v =
      subst (AtMostOne p) (sym same) (kept p u _ v tt refl (rw a (held-foreign (first_token rest))))
  SumStep-AtMostOne p {u} {q} (next_stale found a e same) v =
      subst (AtMostOne p) (sym same) (kept p u _ v v.left refl (rw a (held-foreign found)))
  SumStep-AtMostOne p {u} {q} (tell start a same) v =
      subst (AtMostOne p) (sym same) (kept p u _ v v.left refl (rw a (held-at_loop start)))
  SumStep-AtMostOne p {u} {q} (wake a b same) v =
      subst (AtMostOne p) (sym same) (kept p u _ v v.left refl refl)
  SumStep-AtMostOne p {u} {q} (take behind a same) v =
      subst (AtMostOne p) (sym same) (kept p u _ v v.left refl refl)
  SumStep-AtMostOne p {u} {q} (post task xs ys e same) v =
      subst (AtMostOne p) (sym same) (kept p u _ v v.left refl refl)
  SumStep-AtMostOne p {u} {q} (begin_sum task left_over xs ys e free same) v =
      subst (AtMostOne p) (sym same) (kept p u _ v tt refl refl)
  SumStep-AtMostOne p {u} {q} (next_line sum line rest e same) v =
      subst (AtMostOne p) (sym same) (kept p u _ v tt refl refl)
  SumStep-AtMostOne p {u} {q} (end_sum sum rest e same) v =
      subst (AtMostOne p) (sym same) (kept p u _ v tt refl refl)
  SumStep-AtMostOne p {u} {q} (add_up sum xs ys e free same) v =
      subst (AtMostOne p) (sym same) (kept p u _ v v.left refl refl)

  Sums-AtMostOne : {p q : Pool} → HasLeft p.place → Sums content p q → AtMostOne p q
  Sums-AtMostOne left stop = record { left = left; ways = inl (refl, refl) }
  Sums-AtMostOne {p} left (further way step) = SumStep-AtMostOne p step (Sums-AtMostOne left way)

  -- Once a thread has begun to take a file apart, populate_vector submits no further name of its list than
  -- the one that it holds, if any, whatever follows, where the threads take turns between whole calls of
  -- strtok: it has left that buffer for good.
  pub files_lost :
      {p q : Pool}
      → HasLeft p.place
      → Sums content p q
      → (q.names ≡ p.names)
        ⊎ ((name : Text) × (held_name p.main ≡ some name) × (q.names ≡ p.names ++ name ∷ []))
  files_lost left later = elim ((Sums-AtMostOne left later).ways) [
    | inl (names, begun) ↦ inl names
    | inr (gone, names) ↦ names
  ]
