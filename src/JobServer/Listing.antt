-- ===== src/JobServer/Listing.antt =====
-- What "get_jobs" and "istoric" of EXAMS/PART2_lab14/server.c send, against a description by a
-- filter over the job table.
use mathlib.Core.List.{append_assoc, append-nil}
use pso_workspace.Base.{
  inl, inr, ℕ, zero, suc, ◌+◌, ◌-◌, ◌≤◌, ◌<◌, ◌≡◌, refl, ◌∙◌, Bool, true, false, ◌&&◌, List, [],
  ◌∷◌, ◌++◌, arith, if◌then◌else◌, leb, ltb, ◌==◌, ◌||◌, dec_lt, Bool-cases, ℕ_discrete, subst,
}
use pso_workspace.Base.Integers.{pos, pos_part}
use pso_workspace.Base.Machine.{done, fault, Returns}
use pso_workspace.JobServer.State.{
  Server, Job, Status, running, finished, Sent, result_code, number, listing, seed_init, max_jobs,
  hold, jobs_mutex, message, job_file, no_locks, id_seed_mutex,
}
use pso_workspace.JobServer.Handler.{is_active, has_status, list_jobs, list_request, jobs_seen}

-- One line for each job of the status among the `left` from `i` on, in the order of their ids,
-- which count from `seed`.
unfoldable pub lines_of : ℕ → Status → (ℕ → Job) → ℕ → ℕ → List Sent
lines_of seed status jobs zero i = []
lines_of seed status jobs (suc left) i =
    let rest = lines_of seed status jobs left (i + 1) in
    if is_active (jobs i) && has_status status (jobs i)
    then listing (i + seed) (jobs i).command ∷ rest
    else rest

module _ (status : Status) (left i : ℕ) (s : Server) where
  with_line : Server
  with_line =
      if is_active (s.jobs i) && has_status status (s.jobs i)
      then record s { sent = s.sent ++ listing (i + seed_init) (s.jobs i).command ∷ [] }
      else s

  list_jobs_step :
      i < max_jobs → list_jobs status (suc left) i s ≡ list_jobs status left (i + 1) with_line
  unfolding list_jobs with_line
  list_jobs_step h = ground arith

  list_jobs_stop : max_jobs ≤ i → list_jobs status (suc left) i s ≡ fault
  unfolding list_jobs
  list_jobs_stop h = ground arith

pub list_jobs_within :
    (status : Status) (left i : ℕ) (s : Server)
    → i + left ≤ max_jobs
    → list_jobs status left i s
      ≡ done tt (record s { sent = s.sent ++ lines_of seed_init status s.jobs left i })
unfolding list_jobs lines_of with_line
list_jobs_within status zero i s h = rw append-nil
list_jobs_within status (suc left) i s h = ground (
  arith,
  list_jobs_step status left i s,
  list_jobs_within status left (i + 1) (with_line status left i s),
  append_assoc s.sent (listing (i + seed_init) (s.jobs i).command ∷ [])
      (lines_of seed_init status s.jobs left (i + 1)),
)

pub list_jobs_beyond :
    (status : Status) (left i : ℕ) (s : Server)
    → i ≤ max_jobs
    → max_jobs < i + left
    → list_jobs status left i s ≡ fault
list_jobs_beyond status zero i s h k = absurd (omega arith)
list_jobs_beyond status (suc left) i s h k = elim (dec_lt i max_jobs) [
  | yes p ↦
      list_jobs_step status left i s p
      ∙ list_jobs_beyond status left (i + 1) (with_line status left i s) (omega arith) (omega arith)
  | no p ↦ list_jobs_stop status left i s (omega arith)
]

-- The state in which "get_jobs" and "istoric" enter their loop.
abbrev pub before_lines : Status → Server → Server
before_lines status s = record s {
  locks = hold jobs_mutex true (hold id_seed_mutex false s.locks);
  sent = (s.sent ++ result_code (pos 0) ∷ []) ++ number (jobs_seen status s.id_seed) ∷ [];
}

-- "get_jobs" and "istoric", with the mutexes free and at most 1000 ids given out, send the code 0,
-- the number of ids they look at, and then a line for each job of their status among these, in
-- order; they change nothing else, and free the mutexes.
pub list_request_lem :
    (status : Status) (s : Server)
    → s.locks ≡ no_locks
    → s.id_seed ≤ seed_init + max_jobs
    → list_request status s
      ≡ done tt (record s {
        sent =
            (before_lines status s).sent
            ++ lines_of seed_init status s.jobs (pos_part (jobs_seen status s.id_seed)) 0;
      })
unfolding list_request
list_request_lem running s free bound =
    ground (arith, list_jobs_within running (s.id_seed - seed_init - 1) 0 (before_lines running s))
list_request_lem finished s free bound =
    ground (arith, list_jobs_within finished (s.id_seed - seed_init) 0 (before_lines finished s))

-- Whether a line for the id stands among what was sent.
unfoldable pub is_listed : ℕ → List Sent → Bool
is_listed id [] = false
is_listed id (listing n command ∷ xs) = n == id || is_listed id xs
is_listed id (result_code c ∷ xs) = is_listed id xs
is_listed id (number n ∷ xs) = is_listed id xs
is_listed id (message t n ∷ xs) = is_listed id xs
is_listed id (job_file n f ∷ xs) = is_listed id xs

abbrev is_wanted : Status → (ℕ → Job) → ℕ → Bool
is_wanted status jobs i = is_active (jobs i) && has_status status (jobs i)

shift_test : (seed i k : ℕ) → (i + seed == k + seed) ≡ (i == k)
shift_test seed i k = ground arith

is_listed-step :
    (seed : ℕ) (status : Status) (jobs : ℕ → Job) (left i k : ℕ)
    → is_listed (k + seed) (lines_of seed status jobs (suc left) i) ≡ (
        (i == k && is_wanted status jobs i)
        || is_listed (k + seed) (lines_of seed status jobs left (i + 1)))
unfolding is_listed lines_of
is_listed-step seed status jobs left i k = elim (Bool-cases (is_wanted status jobs i)) [
  | inl e ↦ rw (e, shift_test seed i k) (ground arith)
  | inr e ↦ rw e (ground arith)
]

-- An index range that grows by one in front.
range_step :
    (f : ℕ → Bool) (left i k : ℕ)
    → ((i == k && f i) || (leb (i + 1) k && ltb k (i + 1 + left) && f k))
      ≡ (leb i k && ltb k (i + suc left) && f k)
range_step f left i k = elim (ℕ_discrete i k) [
  | yes e ↦ rw e (ground arith)
  | no ne ↦ elim (Bool-cases (f k)) [ inl e ↦ rw e (ground arith) | inr e ↦ rw e (ground arith) ]
]

is_listed-lines_of :
    (seed : ℕ) (status : Status) (jobs : ℕ → Job) (left i k : ℕ)
    → is_listed (k + seed) (lines_of seed status jobs left i)
      ≡ (leb i k && ltb k (i + left) && is_wanted status jobs k)
unfolding is_listed lines_of
is_listed-lines_of seed status jobs zero i k = ground arith
is_listed-lines_of seed status jobs (suc left) i k =
    is_listed-step seed status jobs left i k
    ∙ rw (is_listed-lines_of seed status jobs left (i + 1) k)
        (range_step (is_wanted status jobs) left i k)

is_listed-append :
    (id : ℕ) (xs ys : List Sent) → is_listed id (xs ++ ys) ≡ (is_listed id xs || is_listed id ys)
unfolding is_listed
is_listed-append id [] ys = refl
is_listed-append id (listing n t ∷ xs) ys = ground (arith, is_listed-append id xs ys)
is_listed-append id (result_code c ∷ xs) ys = is_listed-append id xs ys
is_listed-append id (number n ∷ xs) ys = is_listed-append id xs ys
is_listed-append id (message t n ∷ xs) ys = is_listed-append id xs ys
is_listed-append id (job_file n f ∷ xs) ys = is_listed-append id xs ys

whole_range : (m k : ℕ) (b : Bool) → (leb 0 k && ltb k (0 + m) && b) ≡ (ltb k m && b)
whole_range m k b = ground arith

before-unlisted :
    (id : ℕ) (status : Status) (s : Server)
    → s.sent ≡ []
    → is_listed id (before_lines status s).sent ≡ false
unfolding is_listed
before-unlisted id status s fresh = rw fresh

-- After "get_jobs" and "istoric" on a fresh connection, with the mutexes free and at most 1000 ids
-- given out, the id with index `k` is listed exactly if `k` is below the count that was looked at
-- and the job has a pid and the status asked for.
pub list_request-is_listed :
    (status : Status) (s : Server) (k : ℕ)
    → s.locks ≡ no_locks
    → s.sent ≡ []
    → s.id_seed ≤ seed_init + max_jobs
    → Returns
        (λ _ t. is_listed (k + seed_init) t.sent ≡ (
          ltb k (pos_part (jobs_seen status s.id_seed))
          && (is_active (s.jobs k) && has_status status (s.jobs k))))
        (list_request status s)
unfolding is_listed
list_request-is_listed status s k free fresh bound = rw (list_request_lem status s free bound) (
    is_listed-append (k + seed_init) (before_lines status s).sent (lines seen)
    ∙ rw (before-unlisted (k + seed_init) status s fresh, is_listed-lines_of seed_init)
        (whole_range seen k (is_wanted status s.jobs k)))
  where
    seen : ℕ
    seen = pos_part (jobs_seen status s.id_seed)

    lines : ℕ → List Sent
    lines n = lines_of seed_init status s.jobs n 0

-- "get_jobs" never lists the newest id, whatever its job is doing: the ids given out are
-- `n + 1` in number, and it looks at `n`.
pub get_jobs_omits_newest :
    (s : Server) (n : ℕ)
    → s.locks ≡ no_locks
    → s.sent ≡ []
    → s.id_seed ≡ n + 1 + seed_init
    → n < max_jobs
    → Returns (λ _ t. is_listed (n + seed_init) t.sent ≡ false) (list_request running s)
unfolding is_listed
get_jobs_omits_newest s n free fresh ids bound =
    subst (λ b. Returns (λ _ t. is_listed (n + seed_init) t.sent ≡ b) (list_request running s))
      (ground arith) (list_request-is_listed running s n free fresh (omega arith))
