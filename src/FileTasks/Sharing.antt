-- ===== src/FileTasks/Sharing.antt =====
-- No two threads of EXAMS/30.01.2023/server.c work on one file at the same time.
use mathlib.Core.List.{append_assoc}
use pso_workspace.Base.{
  ℕ, ◌+◌, ◌≤◌, ◌≡◌, ◌≢◌, refl, sym, ap, subst, List, [], ◌∷◌, ◌++◌, ◌==◌, if◌then◌else◌, arith, ◌∙◌,
}
use pso_workspace.Base.Text.{Text}
use pso_workspace.FileTasks.System.{
  Work, no_work, WorkStep, seek_found, seek_missing, insert, look, take, release, Works, stop,
  further,
}
use pso_workspace.FileTasks.Search.{
  AllListed, AllFound, find_file-range, insert_file-IsListed, insert_file-AllListed,
  insert_file-AllFound, insert_file-flags, AllListed-middle, AllFound-middle, verify-IsListed,
  verify_index,
}

-- How many hold the file of an index.
unfoldable pub holders : ℕ → List (Text × ℕ) → ℕ
holders i [] = 0
holders i ((name, id) ∷ xs) = (if id == i then 1 else 0) + holders i xs

record IsShared (w : Work) : Type 0 where
  listed : AllListed w.files.filename w.files.list_counter w.added
  waits : AllFound w.files.filename w.files.list_counter w.waiting
  holds : AllFound w.files.filename w.files.list_counter w.holding
  flags : (i : ℕ) → w.files.use_flag i ≡ holders i w.holding
  single : (i : ℕ) → holders i w.holding ≤ 1

module _ (names : ℕ → Text) (count : ℕ) where
  -- The file at the end of the list has no holder yet.
  AllFound-holders : (xs : List (Text × ℕ)) → AllFound names count xs → holders count xs ≡ 0
  unfolding holders
  AllFound-holders [] h = refl
  AllFound-holders ((x, id) ∷ xs) h =
      ground (arith, AllFound-holders xs h.1, find_file-range names x count 0 id h.0)

holders-middle :
    (i : ℕ) (xs ys : List (Text × ℕ)) (x : Text) (id : ℕ)
    → holders i (xs ++ (x, id) ∷ ys) ≡ (if id == i then 1 else 0) + holders i (xs ++ ys)
unfolding holders
holders-middle i [] ys x id = refl
holders-middle i ((w, k) ∷ xs) ys x id = omega (arith, holders-middle i xs ys x id)

WorkStep-IsShared : {w u : Work} → WorkStep w u → IsShared w → IsShared u
unfolding holders
WorkStep-IsShared {w} {u} (seek_found name found same) v = subst IsShared (sym same) (record {
  listed = (verify-IsListed w.files name found, v.listed);
  waits = v.waits;
  holds = v.holds;
  flags = v.flags;
  single = v.single;
})
WorkStep-IsShared {w} {u} (seek_missing name found same) v = subst IsShared (sym same) (record {
  listed = v.listed;
  waits = v.waits;
  holds = v.holds;
  flags = v.flags;
  single = v.single;
})
WorkStep-IsShared {w} {u} (insert {f = f} name xs ys at e same) v =
    subst IsShared (sym same) (record {
      listed = (
        insert_file-IsListed w.files f name e,
        insert_file-AllListed w.files f name e w.added v.listed,
      );
      waits = insert_file-AllFound w.files f name e w.waiting v.waits;
      holds = insert_file-AllFound w.files f name e w.holding v.holds;
      flags = λ i. ground (
        arith,
        insert_file-flags w.files f name e i,
        v.flags i,
        AllFound-holders w.files.filename w.files.list_counter w.holding v.holds,
      );
      single = v.single;
    })
WorkStep-IsShared {w} {u} (look name xs ys at same) v =
    let (here, rest) =
      AllListed-middle w.files.filename w.files.list_counter xs ys name
        (subst (AllListed w.files.filename w.files.list_counter) at v.listed) in
    subst IsShared (sym same) (record {
      listed = rest;
      waits = (verify_index w.files name here, v.waits);
      holds = v.holds;
      flags = v.flags;
      single = v.single;
    })
WorkStep-IsShared {w} {u} (take name id xs ys at free same) v =
    let (here, rest) =
      AllFound-middle w.files.filename w.files.list_counter xs ys name id
        (subst (AllFound w.files.filename w.files.list_counter) at v.waits) in
    subst IsShared (sym same) (record {
      listed = v.listed;
      waits = rest;
      holds = (here, v.holds);
      flags = λ i. ground (arith, v.flags i, free, v.flags id);
      single = λ i. ground (arith, v.single i, free, v.flags id);
    })
WorkStep-IsShared {w} {u} (release name id xs ys at same) v =
    let (here, rest) =
      AllFound-middle w.files.filename w.files.list_counter xs ys name id
        (subst (AllFound w.files.filename w.files.list_counter) at v.holds) in
    let counts : (i : ℕ) → holders i w.holding ≡ (if id == i then 1 else 0) + holders i (xs ++ ys) =
      λ i. ap (holders i) at ∙ holders-middle i xs ys name id in
    subst IsShared (sym same) (record {
      listed = v.listed;
      waits = v.waits;
      holds = rest;
      flags = λ i. ground (arith, v.flags i, counts i, v.single i);
      single = λ i. ground (arith, v.single i, counts i);
    })

Works-IsShared : {w : Work} → Works no_work w → IsShared w
unfolding holders
Works-IsShared stop = record {
  listed = tt;
  waits = tt;
  holds = tt;
  flags = λ i. refl;
  single = λ i. omega arith;
}
Works-IsShared (further way step) = WorkStep-IsShared step (Works-IsShared way)

-- Two entries of one name are two holders of one file.
two_holders :
    (names : ℕ → Text) (count : ℕ) (name : Text) (i j : ℕ) (xs ys zs : List (Text × ℕ))
    → AllFound names count (xs ++ (name, i) ∷ (ys ++ (name, j) ∷ zs))
    → 2 ≤ holders i (xs ++ (name, i) ∷ (ys ++ (name, j) ∷ zs))
two_holders names count name i j xs ys zs h =
    let (first, rest) = AllFound-middle names count xs (ys ++ (name, j) ∷ zs) name i h in
    let (second, others) =
      AllFound-middle names count (xs ++ ys) zs name j
        (subst (AllFound names count) (sym (append_assoc xs ys ((name, j) ∷ zs))) rest) in
    ground (
      arith,
      holders-middle i xs (ys ++ (name, j) ∷ zs) name i,
      holders-middle i (xs ++ ys) zs name j,
      append_assoc xs ys ((name, j) ∷ zs),
    )

-- However the threads have taken turns, and also where the list has come to hold a name twice: no
-- two threads are at work on files of the same name, and a flag is 1 exactly while a thread is at work
-- on its file, and 0 otherwise.
pub files_exclusive :
    {w : Work}
    → Works no_work w
    → ((name : Text) (i j : ℕ) (xs ys zs : List (Text × ℕ))
        → w.holding ≢ xs ++ (name, i) ∷ (ys ++ (name, j) ∷ zs))
      × ((i : ℕ) → w.files.use_flag i ≡ holders i w.holding)
files_exclusive {w} way =
    let v = Works-IsShared way in
    (
      λ name i j xs ys zs e. omega (
        arith,
        v.single i,
        ap (holders i) e,
        two_holders w.files.filename w.files.list_counter name i j xs ys zs
            (subst (AllFound w.files.filename w.files.list_counter) e v.holds),
      ),
      v.flags,
    )
