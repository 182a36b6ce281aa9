-- ===== src/FileTasks/Search.antt =====
-- What the search in the list of EXAMS/30.01.2023/server.c finds, and that it finds the same after
-- an addition to the list.
use pso_workspace.Base.{
  ℕ, zero, suc, ◌+◌, ◌≤◌, ◌<◌, ◌≡◌, ◌≢◌, sym, ap, Option, some, List, [], ◌∷◌, ◌++◌, ◌==◌,
  if◌then◌else◌, arith, inl, inr, ◌∙◌, Option-cases,
}
use pso_workspace.Base.Text.{Text, str_eq, str_eq_refl}
use pso_workspace.Base.Shelf.{assign}
use pso_workspace.FileTasks.Files.{Files, find_file, verify_existency, insert_file, or_zero}

module _ (names : ℕ → Text) (count : ℕ) where
  abbrev pub find : Text → Option ℕ
  find name = find_file names name count 0

  -- The names that are in the list, and those that stand there with their index.
  abbrev pub IsListed : Text → Type 0
  IsListed name = (i : ℕ) × (find name ≡ some i)

  abbrev pub AllListed : List Text → Type 0
  AllListed [] = Unit
  AllListed (x ∷ xs) = IsListed x × AllListed xs

  abbrev pub AllFound : List (Text × ℕ) → Type 0
  AllFound [] = Unit
  AllFound ((name, id) ∷ xs) = (find name ≡ some id) × AllFound xs

pub find_file-range :
    (names : ℕ → Text) (name : Text) (left i j : ℕ)
    → find_file names name left i ≡ some j
    → (i ≤ j) × (j < i + left)
unfolding find_file
find_file-range names name zero i j e = cc
find_file-range names name (suc left) i j e =
    ground (arith, find_file-range names name left (i + 1) j)

-- A name that is found stays found at its index when a name is added at the end.
find_file-assign :
    (names : ℕ → Text) (name other : Text) (left i j k : ℕ)
    → i + left ≡ k
    → find_file names name left i ≡ some j
    → find_file (assign names k other) name (suc left) i ≡ some j
unfolding find_file
find_file-assign names name other zero i j k h e = cc
find_file-assign names name other (suc left) i j k h e =
    ground (arith, find_file-assign names name other left (i + 1) j k)

-- The name that is added at the end is found.
found_index : (ℕ → Text) → Text → ℕ → ℕ → ℕ → ℕ
found_index names name k zero i = k
found_index names name k (suc left) i =
    let rest = found_index names name k left (i + 1) in if str_eq (names i) name then i else rest

find_file-added :
    (names : ℕ → Text) (name : Text) (left i k : ℕ)
    → i + left ≡ k
    → find_file (assign names k name) name (suc left) i ≡ some (found_index names name k left i)
unfolding find_file found_index
find_file-added names name zero i k h = ground (arith, str_eq_refl name)
find_file-added names name (suc left) i k h =
    ground (arith, find_file-added names name left (i + 1) k)

module _ (f g : Files) (name : Text) (e : insert_file f name ≡ some g) where
  find-insert_file :
      (other : Text) (j : ℕ)
      → find f.filename f.list_counter other ≡ some j
      → find g.filename g.list_counter other ≡ some j
  unfolding insert_file
  find-insert_file other j h =
      ground (arith, find_file-assign f.filename other name f.list_counter 0 j f.list_counter)

  pub insert_file-IsListed : IsListed g.filename g.list_counter name
  unfolding insert_file
  insert_file-IsListed = (
    found_index f.filename name f.list_counter f.list_counter 0,
    ground (arith, find_file-added f.filename name f.list_counter 0 f.list_counter),
  )

  pub insert_file-AllListed :
      (xs : List Text)
      → AllListed f.filename f.list_counter xs
      → AllListed g.filename g.list_counter xs
  insert_file-AllListed [] h = tt
  insert_file-AllListed (x ∷ xs) h =
      ((h.0.0, find-insert_file x h.0.0 h.0.1), insert_file-AllListed xs h.1)

  pub insert_file-AllFound :
      (xs : List (Text × ℕ))
      → AllFound f.filename f.list_counter xs
      → AllFound g.filename g.list_counter xs
  insert_file-AllFound [] h = tt
  insert_file-AllFound ((x, id) ∷ xs) h = (find-insert_file x id h.0, insert_file-AllFound xs h.1)

  pub insert_file-flags : (i : ℕ) → g.use_flag i ≡ (if f.list_counter == i then 0 else f.use_flag i)
  unfolding insert_file
  insert_file-flags i = ground arith

module _ (names : ℕ → Text) (count : ℕ) where
  pub AllListed-middle :
      (xs ys : List Text) (x : Text)
      → AllListed names count (xs ++ x ∷ ys)
      → IsListed names count x × AllListed names count (xs ++ ys)
  AllListed-middle [] ys x h = h
  AllListed-middle (w ∷ xs) ys x h =
      let (here, rest) = AllListed-middle xs ys x h.1 in (here, (h.0, rest))

  pub AllFound-middle :
      (xs ys : List (Text × ℕ)) (x : Text) (id : ℕ)
      → AllFound names count (xs ++ (x, id) ∷ ys)
      → (find names count x ≡ some id) × AllFound names count (xs ++ ys)
  AllFound-middle [] ys x id h = h
  AllFound-middle ((w, k) ∷ xs) ys x id h =
      let (here, rest) = AllFound-middle xs ys x id h.1 in (here, (h.0, rest))

pub verify-IsListed :
    (f : Files) (name : Text)
    → verify_existency f name ≢ 0
    → IsListed f.filename f.list_counter name
unfolding verify_existency
verify-IsListed f name found = elim (Option-cases (find f.filename f.list_counter name)) [
  | inl none_there ↦ absurd (found (ap or_zero none_there))
  | inr (i, e) ↦ (i, e)
]

pub verify_index :
    (f : Files) (name : Text)
    → IsListed f.filename f.list_counter name
    → find f.filename f.list_counter name ≡ some (verify_existency f name)
unfolding verify_existency
verify_index f name (i, e) = e ∙ sym (ap (λ o. some (or_zero o)) e)
