-- ===== src/JobServer/State.antt =====
-- The globals of EXAMS/PART2_lab14/server.c, with its four mutexes and its semaphore, and one
-- client's connection. C's `lock` of a mutex that is taken blocks; an access of `jobs` out of range
-- is a fault.
use pso_workspace.Base.{
  ℕ, ◌+◌, ◌-◌, Bool, true, false, ◌&&◌, Option, none, some, List, [], ◌∷◌, ◌++◌, ltb, leb, ◌==◌,
  if◌then◌else◌,
}
use pso_workspace.Base.Text.{Text}
use pso_workspace.Base.Integers.{ℤ, pos, negsuc}
use pso_workspace.Base.Machine.{M, done, blocked, modify}

abbrev pub seed_init : ℕ
seed_init = 123456

abbrev pub max_jobs : ℕ
max_jobs = 1000

abbrev pub max_running : ℕ
max_running = 5

pub data Status : Type 0 where
  running finished : Status

pub record Job : Type 0 where
  pub pid : ℕ
  pub status : Status
  pub command : Text

pub data Mutex : Type 0 where
  jobs_mutex job_index_mutex id_seed_mutex finish_mutex : Mutex

pub data Stream : Type 0 where
  stdout stderr : Stream

-- What one `write` or `sendfile` puts on the client's socket: the one-byte result code, a 4-byte
-- int, the first bytes of a message, an id with its command, or the file a job's output went to.
pub data Sent : Type 0 where
  result_code : ℤ → Sent
  number : ℤ → Sent
  message : Text → ℕ → Sent
  listing : ℕ → Text → Sent
  job_file : ℤ → Stream → Sent

-- A child process: the id its output files are named after, its pid, and what it executes.
pub record Child : Type 0 where
  pub id : ℕ
  pub pid : ℕ
  pub program : Text
  pub argv : List Text

pub record Locks : Type 0 where
  pub jobs_held : Bool
  pub job_index_held : Bool
  pub id_seed_held : Bool
  pub finish_held : Bool

-- Where thread_handle_wait is: before `sem_wait`, behind it in `wait`, behind that, or at its end.
pub data Waiter : Type 0 where
  at_semaphore in_wait reaping ended : Waiter

pub record Server : Type 0 where
  pub id_seed : ℕ
  pub jobs : ℕ → Job
  pub running_jobs_nr : ℕ
  pub sem : ℕ
  pub waiter : Waiter
  pub stopping : Bool
  pub locks : Locks
  pub children : List Child
  pub killed : List ℕ
  pub sent : List Sent
  pub is_closed : Bool

abbrev pub no_locks : Locks
no_locks = record {
  jobs_held = false;
  job_index_held = false;
  id_seed_held = false;
  finish_held = false;
}

abbrev pub unused : Job
unused = record { pid = 0; status = running; command = [] }

abbrev pub init : Server
init = record {
  id_seed = seed_init;
  jobs = λ i. unused;
  running_jobs_nr = 0;
  sem = 0;
  waiter = at_semaphore;
  stopping = false;
  locks = no_locks;
  children = [];
  killed = [];
  sent = [];
  is_closed = false;
}

abbrev pub is_held : Mutex → Locks → Bool
is_held jobs_mutex l = l.jobs_held
is_held job_index_mutex l = l.job_index_held
is_held id_seed_mutex l = l.id_seed_held
is_held finish_mutex l = l.finish_held

abbrev pub hold : Mutex → Bool → Locks → Locks
hold jobs_mutex b l = record l { jobs_held = b }
hold job_index_mutex b l = record l { job_index_held = b }
hold id_seed_mutex b l = record l { id_seed_held = b }
hold finish_mutex b l = record l { finish_held = b }

-- pthread_mutex_lock
abbrev pub lock : Mutex → M Server (Unit {0})
lock m s =
    if is_held m s.locks then blocked s else done tt (record s { locks = hold m true s.locks })

-- pthread_mutex_unlock
abbrev pub unlock : Mutex → M Server (Unit {0})
unlock m = modify (λ s. record s { locks = hold m false s.locks })

-- sem_post and sem_wait
abbrev pub sem_post : M Server (Unit {0})
sem_post = modify (λ s. record s { sem = s.sem + 1 })

abbrev pub sem_wait : M Server (Unit {0})
sem_wait s = if s.sem == 0 then blocked s else done tt (record s { sem = s.sem - 1 })

abbrev pub write : Sent → M Server (Unit {0})
write x = modify (λ s. record s { sent = s.sent ++ x ∷ [] })

-- The index `id - SEED_INIT`, where it is one of `jobs`.
abbrev pub slot : ℤ → Option ℕ
slot (pos n) =
    if leb seed_init n && ltb (n - seed_init) max_jobs then some (n - seed_init) else none
slot (negsuc n) = none

abbrev pub update : (ℕ → Job) → ℕ → Job → ℕ → Job
update f i job j = if i == j then job else f j

abbrev pub set_job : ℕ → (Job → Job) → Server → Server
set_job i f s = record s { jobs = update s.jobs i (f (s.jobs i)) }
