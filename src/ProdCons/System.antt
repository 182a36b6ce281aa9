-- ===== src/ProdCons/System.antt =====
-- The two threads of Lab7_threads/lin_Exercises/7-prodcons/prodcons.c. A step is what one thread does
-- while it holds the mutex: from `pthread_mutex_lock`, or from its return out of
-- `pthread_cond_wait`, to the unlock or to the next wait. A wait may also end without a signal.
use pso_workspace.Base.{
  ℕ, suc, ◌<◌, ◌≡◌, Bool, true, false, not, Option, none, some, List, [], ◌∷◌, if◌then◌else◌,
}
use pso_workspace.ProdCons.Buffer.{
  Buffer, init_buffer, insert_item, remove_item, is_buffer_full, is_buffer_empty,
}

abbrev pub nr_iterations : ℕ
nr_iterations = 10

-- Whether a thread is inside `pthread_cond_wait`.
pub data Phase : Type 0 where
  awake waiting : Phase

pub record System : Type 0 where
  pub buffer : Buffer
  pub produced : ℕ
  pub producer : Phase
  pub consumed : List ℕ
  pub rounds : ℕ
  pub consumer : Phase

-- `run_threads`, once both threads are created
abbrev pub start : System
start = record {
  buffer = init_buffer;
  produced = 0;
  producer = awake;
  consumed = [];
  rounds = 0;
  consumer = awake;
}

-- `pthread_cond_signal` wakes the one thread that can wait on the condition, if the test holds.
abbrev pub signal : Bool → Phase → Phase
signal true p = awake
signal false p = p

-- The body of the loop of `producer_fn`; `none` is a fault.
unfoldable pub producer_step : System → Option System
producer_step s =
    if is_buffer_full s.buffer
    then some (record s { producer = waiting })
    else elim (insert_item s.buffer s.produced) [
      | none ↦ none
      | some b ↦ some (record s {
        buffer = b;
        produced = suc s.produced;
        consumer = signal (not (is_buffer_empty b)) s.consumer;
      })
    ]

-- The body of the loop of `consumer_fn`
unfoldable pub consumer_step : System → Option System
consumer_step s =
    if is_buffer_empty s.buffer
    then some (record s { consumer = waiting })
    else elim (remove_item s.buffer) [
      | none ↦ none
      | some (item, b) ↦ some (record s {
        buffer = b;
        consumed = item ∷ s.consumed;
        rounds = suc s.rounds;
        producer = signal (not (is_buffer_full b)) s.producer;
      })
    ]

pub data Step (s : System) : System → Type 0 where
  produce :
      {t : System}
      → s.produced < nr_iterations
      → s.producer ≡ awake
      → producer_step s ≡ some t
      → Step s t
  consume :
      {t : System}
      → s.rounds < nr_iterations
      → s.consumer ≡ awake
      → consumer_step s ≡ some t
      → Step s t
  wake_producer : {t : System} → t ≡ record s { producer = awake } → Step s t
  wake_consumer : {t : System} → t ≡ record s { consumer = awake } → Step s t

pub data Reach (s : System) : System → Type 0 where
  here : Reach s s
  next : {t u : System} → Reach s t → Step t u → Reach s u
