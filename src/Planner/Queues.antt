-- ===== src/Planner/Queues.antt =====
-- The pointer queues of Lab7_threads/practice/PLANNER/planner.c are first-in first-out queues.
use pso_workspace.Base.{
  ℕ, zero, suc, ◌<◌, ◌≤◌, ◌≡◌, ◌≢◌, refl, Option, none, some, List, [], ◌∷◌, ◌++◌, arith, length,
  ℕ_discrete, subst,
}
use pso_workspace.Planner.Heap.{Task, Heap, store, last, enqueue, dequeue}

-- From the head on, the `next` pointers lead through exactly these addresses, and then to NULL.
abbrev pub IsQueue : Heap → Option ℕ → List ℕ → Type 0
IsQueue h head [] = head ≡ none
IsQueue h head (x ∷ xs) = (head ≡ some x) × ((t : Task) × (h x ≡ some t) × IsQueue h t.next xs)

abbrev pub NotIn : ℕ → List ℕ → Type 0
NotIn a [] = Unit
NotIn a (x ∷ xs) = (a ≢ x) × NotIn a xs

abbrev pub unlinked : Task → Task
unlinked t = record t { next = none }

-- The heap once the task is linked behind the end.
abbrev linked : Heap → ℕ → Task → ℕ → Task → Heap
linked h end te task t = store (store h end (record te { next = some task })) task (unlinked t)

-- What the walk from `x` finds, and what linking there makes.
record EndFound (h : Heap) (task : ℕ) (t : Task) (fuel x : ℕ) (xs : List ℕ) : Type 0 where
  end : ℕ
  end_task : Task
  found : last fuel h x ≡ some end
  stored : h end ≡ some end_task
  ends : end_task.next ≡ none
  apart : task ≢ end
  queue : IsQueue (linked h end end_task task t) (some x) ((x ∷ xs) ++ task ∷ [])

walk_one :
    (h : Heap) (task : ℕ) (t : Task) (fuel x : ℕ) (tx : Task)
    → h x ≡ some tx
    → tx.next ≡ none
    → task ≢ x
    → EndFound h task t (suc fuel) x []
unfolding last
walk_one h task t fuel x tx here ends apart = record {
  end = x;
  end_task = tx;
  found = ground arith;
  stored = here;
  ends = ends;
  apart = apart;
  queue = (
    refl,
    (record tx { next = some task }, ground arith, (refl, (unlinked t, ground arith, refl))),
  );
}

walk_more :
    (h : Heap) (task : ℕ) (t : Task) (fuel x y : ℕ) (ys : List ℕ) (tx : Task)
    → h x ≡ some tx
    → tx.next ≡ some y
    → task ≢ x
    → EndFound h task t fuel y ys
    → EndFound h task t (suc fuel) x (y ∷ ys)
unfolding last
walk_more h task t fuel x y ys tx here next apart w = record {
  end = w.end;
  end_task = w.end_task;
  found = ground (arith, w.found);
  stored = w.stored;
  ends = w.ends;
  apart = w.apart;
  queue = (refl, (tx, ground (arith, w.stored, w.ends), (next, w.queue.1)));
}

walk :
    (h : Heap) (task : ℕ) (t : Task) (fuel x : ℕ) (xs : List ℕ)
    → IsQueue h (some x) (x ∷ xs)
    → NotIn task (x ∷ xs)
    → length xs < fuel
    → EndFound h task t fuel x xs
walk h task t zero x xs q apart enough = absurd (omega arith)
walk h task t (suc fuel) x [] (e, (tx, here, ends)) apart enough =
    walk_one h task t fuel x tx here ends apart.0
walk h task t (suc fuel) x (y ∷ ys) (e, (tx, here, (next, rest))) apart enough =
    walk_more h task t fuel x y ys tx here next apart.0
      (walk h task t fuel y ys (refl, rest) apart.1 (omega arith))

-- `enqueue` of a task that is not in the queue, with fuel for the walk: it ends without a fault, and
-- the queue that it leaves is the old one with the task, unlinked, at the end.
pub enqueue-IsQueue :
    (h : Heap) (task : ℕ) (t : Task) (fuel : ℕ) (head : Option ℕ) (xs : List ℕ)
    → IsQueue h head xs
    → h task ≡ some t
    → NotIn task xs
    → length xs ≤ fuel
    → (head' : Option ℕ) × (h' : Heap) × (enqueue fuel h head task ≡ some (head', h'))
      × IsQueue h' head' (xs ++ task ∷ [])
      × (h' task ≡ some (unlinked t))
unfolding enqueue
enqueue-IsQueue h task t fuel head [] q here apart enough = (
  some task,
  store h task (unlinked t),
  ground arith,
  (refl, (unlinked t, ground arith, refl)),
  ground arith,
)
enqueue-IsQueue h task t fuel head (x ∷ xs) q here apart enough =
    let w = walk h task t fuel x xs (refl, q.1) apart (omega arith) in
    (
      some x,
      linked h w.end w.end_task task t,
      ground (arith, w.found, w.stored, w.apart),
      w.queue,
      ground arith,
    )

IsQueue-store :
    (h : Heap) (p : ℕ) (t : Task) (head : Option ℕ) (xs : List ℕ)
    → NotIn p xs
    → IsQueue h head xs
    → IsQueue (store h p t) head xs
IsQueue-store h p t head [] apart q = q
IsQueue-store h p t head (x ∷ xs) (ne, apart) (e, (tx, here, rest)) =
    (e, (tx, ground arith, IsQueue-store h p t tx.next xs apart rest))

-- `dequeue` of a queue whose first task does not come again: it returns the first task, unlinked,
-- and leaves the queue of the others.
pub dequeue-IsQueue :
    (h : Heap) (head : Option ℕ) (x : ℕ) (xs : List ℕ)
    → IsQueue h head (x ∷ xs)
    → NotIn x xs
    → (head' : Option ℕ) × (h' : Heap) × (t : Task) × (dequeue h head ≡ some (some x, head', h'))
      × IsQueue h' head' xs
      × (h' x ≡ some (unlinked t))
      × (h x ≡ some t)
unfolding dequeue
dequeue-IsQueue h head x xs (e, (t, here, rest)) apart = (
  t.next,
  store h x (unlinked t),
  t,
  ground arith,
  IsQueue-store h x (unlinked t) t.next xs apart rest,
  ground arith,
  here,
)

-- The same beside another queue, in which that task is not: it stays as it was.
pub dequeue-frame :
    (h : Heap) (head : Option ℕ) (x : ℕ) (xs : List ℕ) (head2 : Option ℕ) (ys : List ℕ)
    → IsQueue h head (x ∷ xs)
    → NotIn x xs
    → IsQueue h head2 ys
    → NotIn x ys
    → (head' : Option ℕ) × (h' : Heap) × (t : Task) × (dequeue h head ≡ some (some x, head', h'))
      × IsQueue h' head' xs
      × (h' x ≡ some (unlinked t))
      × (h x ≡ some t)
      × IsQueue h' head2 ys
unfolding dequeue
dequeue-frame h head x xs head2 ys (e, (t, here, rest)) apart q apart' = (
  t.next,
  store h x (unlinked t),
  t,
  ground arith,
  IsQueue-store h x (unlinked t) t.next xs apart rest,
  ground arith,
  here,
  IsQueue-store h x (unlinked t) head2 ys apart' q,
)

-- A write to a task that keeps its `next` keeps every queue.
pub IsQueue-touch :
    (h : Heap) (p : ℕ) (t u : Task) (head : Option ℕ) (xs : List ℕ)
    → h p ≡ some t
    → u.next ≡ t.next
    → IsQueue h head xs
    → IsQueue (store h p u) head xs
IsQueue-touch h p t u head [] here same q = q
IsQueue-touch h p t u head (x ∷ xs) here same (e, (tx, there, rest)) = elim (ℕ_discrete p x) [
  | yes y ↦ (
    e,
    (
      u,
      ground arith,
      subst (λ o. IsQueue (store h p u) o xs) (ground arith)
          (IsQueue-touch h p t u tx.next xs here same rest),
    ),
  )
  | no n ↦ (e, (tx, ground arith, IsQueue-touch h p t u tx.next xs here same rest))
]
