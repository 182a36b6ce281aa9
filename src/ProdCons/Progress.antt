-- ===== src/ProdCons/Progress.antt =====
-- The two threads of Lab7_threads/lin_Exercises/7-prodcons/prodcons.c do not deadlock.
use pso_workspace.Base.{suc, ◌+◌, ◌<◌, ◌≡◌, ◌≢◌, refl, some, arith, inl, inr, Option-cases, dec_lt}
use pso_workspace.ProdCons.Buffer.{buffer_size, insert_item, remove_item}
use pso_workspace.ProdCons.System.{
  System, Phase, awake, waiting, nr_iterations, start, producer_step, consumer_step, Step, produce,
  consume, Reach,
}
use pso_workspace.ProdCons.Invariant.{IsValid, Reach-IsValid, steps_safe}

is_awake : (p : Phase) → p ≢ waiting → p ≡ awake
is_awake awake h = refl
is_awake waiting h = absurd (h refl)

-- A step that moves one item.
abbrev pub Moves : System → Type 0
Moves s = (t : System) × (Step s t) × (t.produced + t.rounds ≡ suc (s.produced + s.rounds))

produced-step :
    (s t : System)
    → s.buffer.count < buffer_size
    → producer_step s ≡ some t
    → t.produced + t.rounds ≡ suc (s.produced + s.rounds)
unfolding producer_step insert_item
produced-step s t room e = ground arith

rounds-step :
    (s t : System)
    → 0 < s.buffer.count
    → consumer_step s ≡ some t
    → t.produced + t.rounds ≡ suc (s.produced + s.rounds)
unfolding consumer_step remove_item
rounds-step s t some_left e = ground arith

produces :
    (s : System) → IsValid s → s.buffer.count < buffer_size → s.produced < nr_iterations → Moves s
produces s v room going = elim (Option-cases (producer_step s)) [
  | inl faulted ↦ absurd ((steps_safe s v).0 faulted)
  | inr (t, e) ↦ (t, produce going (is_awake s.producer room_no_wait) e, produced-step s t room e)
]
  where
    room_no_wait : s.producer ≢ waiting
    room_no_wait h = omega (arith, v.producer_waits h)

consumes : (s : System) → IsValid s → 0 < s.buffer.count → Moves s
consumes s v some_left = elim (Option-cases (consumer_step s)) [
  | inl faulted ↦ absurd ((steps_safe s v).1 faulted)
  | inr (t, e) ↦
      (t, consume (omega arith) (is_awake s.consumer no_wait) e, rounds-step s t some_left e)
]
  where
    no_wait : s.consumer ≢ waiting
    no_wait h = omega (arith, v.consumer_waits h)

-- However the threads have taken turns, while the consumer has a round left one of the two threads
-- can move an item at once, with nobody waking it: the program never deadlocks.
pub never_deadlocks : {s : System} → Reach start s → s.rounds < nr_iterations → Moves s
never_deadlocks {s} r going =
    let v = Reach-IsValid r in
    elim (dec_lt 0 s.buffer.count) [
      | yes some_left ↦ consumes s v some_left
      | no none_left ↦ produces s v (omega arith) (omega arith)
    ]
