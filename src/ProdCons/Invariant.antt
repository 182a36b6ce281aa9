-- ===== src/ProdCons/Invariant.antt =====
-- What always holds of the buffer and the threads of
-- Lab7_threads/lin_Exercises/7-prodcons/prodcons.c.
use pso_workspace.Base.{
  inl, inr, ◌⊎◌, Option-cases, ℕ, zero, suc, ◌+◌, ◌≤◌, ◌≡◌, ◌≢◌, refl, none, some, List, [], ◌∷◌,
  arith, ltb, ◌==◌, if◌then◌else◌,
}
use pso_workspace.ProdCons.Buffer.{Buffer, buffer_size, init_buffer, insert_item, remove_item, put}
use pso_workspace.ProdCons.System.{
  System, waiting, nr_iterations, start, producer_step, consumer_step, Step, produce, consume,
  wake_producer, wake_consumer, Reach, here, next,
}

-- How often a value stands among the first `n` entries of an array, and in a list.
unfoldable pub among : ℕ → (ℕ → ℕ) → ℕ → ℕ
among a f zero = 0
among a f (suc n) = among a f n + (if f n == a then 1 else 0)

unfoldable pub times : ℕ → List ℕ → ℕ
times a [] = 0
times a (x ∷ xs) = times a xs + (if x == a then 1 else 0)

among-put : (a : ℕ) (f : ℕ → ℕ) (i x n : ℕ) → n ≤ i → among a (put f i x) n ≡ among a f n
unfolding among
among-put a f i x zero h = refl
among-put a f i x (suc n) h = ground (arith, among-put a f i x n)

pub record IsValid (s : System) : Type 0 where
  pub fits : s.buffer.count ≤ buffer_size
  pub balance : s.produced ≡ s.rounds + s.buffer.count
  pub produced_limit : s.produced ≤ nr_iterations
  pub rounds_limit : s.rounds ≤ nr_iterations
  pub producer_waits : s.producer ≡ waiting → s.buffer.count ≡ buffer_size
  pub consumer_waits : s.consumer ≡ waiting → s.buffer.count ≡ 0

-- Each of the numbers below `produced` is in the buffer or has been consumed, once.
abbrev pub Conserves : System → Type 0
Conserves s =
    (a : ℕ)
    → times a s.consumed + among a s.buffer.buff s.buffer.count
      ≡ (if ltb a s.produced then 1 else 0)

-- Neither body makes an access out of range, in a valid state.
pub steps_safe : (s : System) → IsValid s → (producer_step s ≢ none) × (consumer_step s ≢ none)
unfolding producer_step consumer_step insert_item remove_item
steps_safe s v = ground arith

Step-IsValid : {s t : System} → Step s t → IsValid s → IsValid t
unfolding producer_step consumer_step insert_item remove_item
Step-IsValid (produce going up e) v = ground arith
Step-IsValid {s} (consume going up e) v = ground arith
Step-IsValid (wake_producer e) v = ground arith
Step-IsValid (wake_consumer e) v = ground arith

insert_Conserves :
    (a produced : ℕ) (consumed : List ℕ) (b c : Buffer)
    → insert_item b produced ≡ some c
    → times a consumed + among a b.buff b.count ≡ (if ltb a produced then 1 else 0)
    → times a consumed + among a c.buff c.count ≡ (if ltb a (suc produced) then 1 else 0)
unfolding insert_item among
insert_Conserves a produced consumed b c e h =
    ground (arith, among-put a b.buff b.count produced b.count)

remove_Conserves :
    (a item : ℕ) (consumed : List ℕ) (b c : Buffer)
    → remove_item b ≡ some (item, c)
    → times a (item ∷ consumed) + among a c.buff c.count ≡ times a consumed + among a b.buff b.count
unfolding remove_item among times
remove_Conserves a item consumed b c e = ground arith

consumer_Step-Conserves :
    (a : ℕ) (s t : System)
    → consumer_step s ≡ some t
    → (remove_item s.buffer ≡ none) ⊎ ((r : ℕ × Buffer) × (remove_item s.buffer ≡ some r))
    → times a s.consumed + among a s.buffer.buff s.buffer.count
      ≡ (if ltb a s.produced then 1 else 0)
    → times a t.consumed + among a t.buffer.buff t.buffer.count
      ≡ (if ltb a t.produced then 1 else 0)
unfolding consumer_step
consumer_Step-Conserves a s t e (inl gone) h = ground (arith, gone)
consumer_Step-Conserves a s t e (inr (r, took)) h =
    ground (arith, took, remove_Conserves a r.0 s.consumed s.buffer r.1)

Step-Conserves : {s t : System} → Step s t → Conserves s → Conserves t
unfolding producer_step consumer_step
Step-Conserves {s} {t} (produce going up e) h a =
    ground (arith, h a, insert_Conserves a s.produced s.consumed s.buffer t.buffer)
Step-Conserves {s} {t} (consume going up e) h a =
    consumer_Step-Conserves a s t e (Option-cases (remove_item s.buffer)) (h a)
Step-Conserves (wake_producer e) h a = ground (arith, h a)
Step-Conserves (wake_consumer e) h a = ground (arith, h a)

pub Reach-IsValid : {t : System} → Reach start t → IsValid t
unfolding init_buffer
Reach-IsValid here = ground arith
Reach-IsValid (next r e) = Step-IsValid e (Reach-IsValid r)

Reach-Conserves : {t : System} → Reach start t → Conserves t
unfolding init_buffer times among
Reach-Conserves here a = ground arith
Reach-Conserves (next r e) a = Step-Conserves e (Reach-Conserves r) a

all_times :
    (a : ℕ) (t : System)
    → t.produced ≡ nr_iterations
    → t.buffer.count ≡ 0
    → times a t.consumed + among a t.buffer.buff t.buffer.count
      ≡ (if ltb a t.produced then 1 else 0)
    → times a t.consumed ≡ (if ltb a nr_iterations then 1 else 0)
unfolding among
all_times a t made empty h = ground arith

-- Whatever way the two threads take turns, when both have done their ten rounds each of the numbers
-- 0 to 9 has been consumed exactly once, no other number has, and the buffer is empty.
pub all_consumed_once :
    {t : System}
    → Reach start t
    → t.produced ≡ nr_iterations
    → t.rounds ≡ nr_iterations
    → (t.buffer.count ≡ 0) × ((a : ℕ) → times a t.consumed ≡ (if ltb a nr_iterations then 1 else 0))
all_consumed_once {t} r made done =
    let v = Reach-IsValid r in
    let empty : t.buffer.count ≡ 0 = omega arith in
    (empty, λ a. all_times a t made empty (Reach-Conserves r a))
