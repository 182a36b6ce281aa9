-- ===== src/DavServer/Ids.antt =====
-- Which ids and how many jobs lab14_DAv/server.c gives out.
use pso_workspace.Base.{
  ap, ◌≢◌, ℕ, suc, ◌+◌, ◌≤◌, ◌<◌, ◌≡◌, refl, sym, subst, some, List, [], ◌∷◌, ◌++◌, length, arith,
}
use pso_workspace.Base.Integers.{pos}
use pso_workspace.DavServer.State.{
  Server, job_size, job_starts, job_ends, get_status, job_not_exist,
}
use pso_workspace.DavServer.System.{
  Threads, no_threads, RunStep, accept, admit, refuse, unforked, launch, end, Serves, stop, further,
}

abbrev All : (ℕ → Type 0) → List ℕ → Type 0
All P [] = Unit
All P (id ∷ ids) = P id × All P ids

All-weaker : (P Q : ℕ → Type 0) (ids : List ℕ) → ((id : ℕ) → P id → Q id) → All P ids → All Q ids
All-weaker P Q [] f h = tt
All-weaker P Q (id ∷ ids) f h = (f id h.0, All-weaker P Q ids f h.1)

All-without :
    (P : ℕ → Type 0) (xs : List ℕ) (id : ℕ) (ys : List ℕ)
    → All P (xs ++ id ∷ ys)
    → P id × All P (xs ++ ys)
All-without P [] id ys h = h
All-without P (x ∷ xs) id ys h = let rest = All-without P xs id ys h.1 in (rest.0, (h.0, rest.1))

length-without :
    (xs : List ℕ) (id : ℕ) (ys : List ℕ) → length (xs ++ id ∷ ys) ≡ suc (length (xs ++ ys))
length-without [] id ys = refl
length-without (x ∷ xs) id ys = ap suc (length-without xs id ys)

record IsCounted (w : Threads) : Type 0 where
  counted : w.server.running_jobs ≡ length w.waiting
  seeded : w.server.id_seed ≡ 100 + w.server.job_index + length w.waiting
  unborn : (k : ℕ) → w.server.id_seed ≤ k → (w.server.jobs k).status ≡ []
  asked : All (λ id. id ≤ w.server.id_seed) w.asking
  allowed : All (λ id. id ≤ w.server.id_seed) w.admitted
  born : All (λ id. id < w.server.id_seed) w.waiting

launch_lem :
    (s t : Server) (id k : ℕ)
    → job_starts id s ≡ some t
    → (t.running_jobs ≡ suc s.running_jobs)
      × (t.id_seed ≡ suc s.id_seed)
      × (t.job_index ≡ s.job_index)
      × (k ≢ id → (t.jobs k).status ≡ (s.jobs k).status)
unfolding job_starts
launch_lem s t id k h = ground arith

RunStep-IsCounted : {w u : Threads} → RunStep w u → IsCounted w → IsCounted u
RunStep-IsCounted {w} {u} (accept same) v = subst IsCounted (sym same) (record {
  counted = v.counted;
  seeded = v.seeded;
  unborn = v.unborn;
  asked = (omega arith, v.asked);
  allowed = v.allowed;
  born = v.born;
})
RunStep-IsCounted {w} {u} (admit id xs ys e low same) v =
    let (fits, others) = All-without (λ k. k ≤ w.server.id_seed) xs id ys (rw e at v.asked) in
    subst IsCounted (sym same) (record {
      counted = v.counted;
      seeded = v.seeded;
      unborn = v.unborn;
      asked = others;
      allowed = (fits, v.allowed);
      born = v.born;
    })
RunStep-IsCounted {w} {u} (refuse id xs ys e high same) v =
    let (fits, others) = All-without (λ k. k ≤ w.server.id_seed) xs id ys (rw e at v.asked) in
    subst IsCounted (sym same) (record {
      counted = v.counted;
      seeded = v.seeded;
      unborn = v.unborn;
      asked = others;
      allowed = v.allowed;
      born = v.born;
    })
RunStep-IsCounted {w} {u} (unforked id xs ys e same) v =
    let (fits, others) = All-without (λ k. k ≤ w.server.id_seed) xs id ys (rw e at v.allowed) in
    subst IsCounted (sym same) (record {
      counted = v.counted;
      seeded = v.seeded;
      unborn = v.unborn;
      asked = v.asked;
      allowed = others;
      born = v.born;
    })
RunStep-IsCounted {w} {u} (launch {s = s} id xs ys e start same) v =
    let (fits, others) = All-without (λ k. k ≤ w.server.id_seed) xs id ys (rw e at v.allowed) in
    let (one_more, next_seed, as_many, z) = launch_lem w.server s id id start in
    let later = λ (k : ℕ) (h : k ≤ w.server.id_seed). let r : k ≤ s.id_seed = omega arith in r in
    subst IsCounted (sym same) (record {
      counted = omega (arith, v.counted);
      seeded = omega (arith, v.seeded);
      unborn = λ k h. ground (arith, launch_lem w.server s id k start, v.unborn k);
      asked = All-weaker _ _ w.asking later v.asked;
      allowed = All-weaker _ _ (xs ++ ys) later others;
      born = (omega arith, All-weaker _ _ w.waiting (λ k h. omega arith) v.born);
    })
RunStep-IsCounted {w} {u} (end id xs ys e same) v =
    let (fits, others) = All-without (λ k. k < w.server.id_seed) xs id ys (rw e at v.born) in
    let fewer : length w.waiting ≡ suc (length (xs ++ ys)) = rw e (length-without xs id ys) in
    subst IsCounted (sym same) (
      unfold job_ends in
      record {
        counted = omega (arith, v.counted);
        seeded = omega (arith, v.seeded);
        unborn = λ k h. ground (arith, v.unborn k);
        asked = v.asked;
        allowed = v.allowed;
        born = others;
      })

Serves-IsCounted : {w : Threads} → Serves no_threads w → IsCounted w
Serves-IsCounted stop = record {
  counted = refl;
  seeded = refl;
  unborn = λ k h. refl;
  asked = tt;
  allowed = tt;
  born = tt;
}
Serves-IsCounted (further way step) = RunStep-IsCounted step (Serves-IsCounted way)

status_above :
    (s : Server) (k : ℕ)
    → 100 ≤ s.id_seed
    → s.id_seed < k
    → get_status s (pos k) ≡ some job_not_exist
unfolding get_status
status_above s k h l = ground arith

status_next :
    (s : Server)
    → 100 ≤ s.id_seed
    → s.id_seed < job_size
    → (s.jobs s.id_seed).status ≡ []
    → get_status s (pos s.id_seed) ≡ some []
unfolding get_status
status_next s h l e = ground arith

-- Whatever the threads have done: `running_jobs` counts the jobs that run, `id_seed` has gone up by one
-- for each of them and for each that has ended, an id above `id_seed` does not exist, and `id_seed`
-- itself, which no job has, is answered with an empty status.
pub jobs_counted :
    {w : Threads}
    → Serves no_threads w
    → (w.server.running_jobs ≡ length w.waiting)
      × (w.server.id_seed ≡ 100 + w.server.job_index + length w.waiting)
      × ((k : ℕ) → w.server.id_seed < k → get_status w.server (pos k) ≡ some job_not_exist)
      × (w.server.id_seed < job_size → get_status w.server (pos w.server.id_seed) ≡ some [])
jobs_counted {w} way =
    let v = Serves-IsCounted way in
    (
      v.counted,
      v.seeded,
      λ k h. status_above w.server k (omega arith) h,
      λ h. status_next w.server (omega arith) h (v.unborn w.server.id_seed (omega arith)),
    )
