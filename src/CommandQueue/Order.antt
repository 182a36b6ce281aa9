-- ===== src/CommandQueue/Order.antt =====
-- What the semaphores of the first program of EXAMS/01_02_2023/server.c keep.
use mathlib.Core.List.{append_assoc, List}
use pso_workspace.Base.{
  ℕ, ◌+◌, ◌-◌, ◌≤◌, ◌<◌, ◌≡◌, ◌≢◌, refl, sym, subst, none, [], ◌∷◌, ◌++◌, arith, true, false, Bool,
}
use pso_workspace.Base.Text.{Text}
use pso_workspace.Base.Shelf.{
  add_item, take_item, listed, pending, listed-add_item, add_item_room, take_item-full, Shelf,
  take_shifted, listed-take_shifted,
}
use pso_workspace.CommandQueue.System.{
  Queue, Main, ready, holding, telling, closing, joining, empty_queue, max_commands, QueueStep,
  reserve, store, tell, take_command, give_back, finish, post, join, test, wake, check, take, Runs,
  stop, further,
}

-- The place that `main` has reserved and not filled.
abbrev pub reserved : Main → ℕ
reserved holding = 1
reserved ready = 0
reserved telling = 0
reserved (closing n) = 0
reserved joining = 0

abbrev pub is_over : Main → Bool
is_over ready = false
is_over holding = false
is_over telling = false
is_over (closing n) = true
is_over joining = true

-- The command that `main` has stored and not told of yet.
abbrev pub untold : Main → ℕ
untold ready = 0
untold holding = 0
untold telling = 1
untold (closing n) = 0
untold joining = 0

pub record IsBalanced (s : Queue) : Type 0 where
  pub places :
      s.take_commands + reserved s.main + s.workers.posting + s.commands.count ≡ max_commands
  pub supplied :
      s.finished ≡ false
      → s.add_commands + s.workers.woken + s.workers.cleared + untold s.main ≡ s.commands.count
  pub promised : s.workers.cleared ≤ s.commands.count
  pub ended : s.finished ≡ is_over s.main
  pub order : s.received ≡ s.taken ++ listed s.commands

take_command-count :
    (behind : Text) (q : Shelf Text) → (take_command behind q).1.count ≡ q.count - 1
unfolding take_command take_shifted
take_command-count behind q = refl

-- The command that is taken is the first of the list, whatever stands behind its end.
take_command_first :
    (behind : Text) (q : Shelf Text)
    → 0 < q.count
    → q.count ≤ max_commands
    → listed q ≡ (take_command behind q).0 ∷ listed (take_command behind q).1
unfolding take_command
take_command_first behind q h low = listed-take_shifted max_commands behind q h low

QueueStep-IsBalanced : {s t : Queue} → QueueStep s t → IsBalanced s → IsBalanced t
QueueStep-IsBalanced {s} {t} (reserve a b c same) v = subst IsBalanced (sym same) (ground arith)
QueueStep-IsBalanced {s} {t} (store {l = l} command a e same) v =
    let (low, more, last) = listed-add_item max_commands s.commands l command e in
    subst IsBalanced (sym same) (record {
      places = ground arith;
      supplied = ground arith;
      promised = ground arith;
      ended = ground arith;
      order = rw (v.order, last) (append_assoc s.taken (listed s.commands) (command ∷ []));
    })
QueueStep-IsBalanced {s} {t} (tell a same) v = subst IsBalanced (sym same) (ground arith)
QueueStep-IsBalanced {s} {t} (finish a b same) v = subst IsBalanced (sym same) (ground arith)
QueueStep-IsBalanced {s} {t} (post a same) v = subst IsBalanced (sym same) (ground arith)
QueueStep-IsBalanced {s} {t} (join a same) v = subst IsBalanced (sym same) (ground arith)
QueueStep-IsBalanced {s} {t} (test a same) v = subst IsBalanced (sym same) (ground arith)
QueueStep-IsBalanced {s} {t} (wake a b same) v = subst IsBalanced (sym same) (ground arith)
QueueStep-IsBalanced {s} {t} (check a same) v = subst IsBalanced (sym same) (ground arith)
QueueStep-IsBalanced {s} {t} (take behind a same) v =
    let less = take_command-count behind s.commands in
    let first =
      take_command_first behind s.commands (omega (arith, v.promised)) (omega (arith, v.places)) in
    subst IsBalanced (sym same) (record {
      places = omega (arith, v.places, v.promised);
      supplied = λ h. omega (arith, v.supplied h, v.promised);
      promised = omega (arith, v.promised);
      ended = v.ended;
      order =
          rw (v.order, first)
            (sym (
              append_assoc s.taken ((take_command behind s.commands).0 ∷ [])
                (listed (take_command behind s.commands).1)));
    })
QueueStep-IsBalanced {s} {t} (give_back a same) v = subst IsBalanced (sym same) (ground arith)

Runs-IsBalanced : {t : Queue} → Runs empty_queue t → IsBalanced t
unfolding pending
Runs-IsBalanced stop = record {
  places = refl;
  supplied = λ h. refl;
  promised = omega arith;
  ended = refl;
  order = refl;
}
Runs-IsBalanced (further way step) = QueueStep-IsBalanced step (Runs-IsBalanced way)

-- However the threads have taken turns: the commands that were read from the pipe are those that a
-- worker has taken, in the order in which they came, and then those in the list; the free places
-- that `take_commands` counts, the one that `main` has reserved, if any, those that workers have still
-- to post and the commands in the list are four together; and until `finished` is set the commands in
-- the list are as many as the units of `add_commands`, the workers that have taken a unit, and the
-- command that `main` has not told of yet, if any.
pub commands_in_order :
    {t : Queue}
    → Runs empty_queue t
    → (t.received ≡ t.taken ++ listed t.commands)
      × (t.take_commands + reserved t.main + t.workers.posting + t.commands.count ≡ max_commands)
      × (t.finished ≡ false
          → t.add_commands + t.workers.woken + t.workers.cleared + untold t.main ≡ t.commands.count)
commands_in_order way = let v = Runs-IsBalanced way in (v.order, v.places, v.supplied)

-- However the threads have taken turns, `main` finds a place in the list for the command that it has
-- read, and a worker that is about to take a command finds one there.
pub accesses_safe :
    {t : Queue} (command : Text)
    → Runs empty_queue t
    → (t.main ≡ holding → add_item max_commands t.commands command ≢ none)
      × (0 < t.workers.cleared → 0 < t.commands.count)
accesses_safe {t} command way =
    let v = Runs-IsBalanced way in
    (λ h. add_item_room max_commands t.commands command (ground arith), λ h. omega arith)

-- Where the list is full, the worker that takes a command reads behind the end of the list.
pub take_overruns :
    {t : Queue}
    → Runs empty_queue t
    → t.take_commands ≡ 0
    → t.main ≡ ready
    → t.workers.posting ≡ 0
    → take_item max_commands t.commands ≡ none
take_overruns {t} way none_left free idle =
    let v = Runs-IsBalanced way in
    take_item-full max_commands t.commands (omega arith) (ground arith)

-- `finished` is set and no worker is behind the test within the loop.
record IsLate (taken : List Text) (s : Queue) : Type 0 where
  set : s.finished ≡ true
  over : is_over s.main ≡ true
  none_cleared : s.workers.cleared ≡ 0
  known : s.taken ≡ taken

QueueStep-IsLate :
    {taken : List Text} {s t : Queue} → QueueStep s t → IsLate taken s → IsLate taken t
QueueStep-IsLate {taken} {s} {t} (reserve a b c same) v = cc
QueueStep-IsLate {taken} {s} {t} (store {l = l} command a e same) v = ground arith
QueueStep-IsLate {taken} {s} {t} (tell a same) v = cc
QueueStep-IsLate {taken} {s} {t} (finish a b same) v =
    subst (IsLate taken) (sym same) (ground arith)
QueueStep-IsLate {taken} {s} {t} (post a same) v = subst (IsLate taken) (sym same) (ground arith)
QueueStep-IsLate {taken} {s} {t} (join a same) v = subst (IsLate taken) (sym same) (ground arith)
QueueStep-IsLate {taken} {s} {t} (test a same) v = subst (IsLate taken) (sym same) (ground arith)
QueueStep-IsLate {taken} {s} {t} (wake a b same) v = subst (IsLate taken) (sym same) (ground arith)
QueueStep-IsLate {taken} {s} {t} (check a same) v = subst (IsLate taken) (sym same) (ground arith)
QueueStep-IsLate {taken} {s} {t} (take behind a same) v = absurd (omega (arith, v.none_cleared))
QueueStep-IsLate {taken} {s} {t} (give_back a same) v =
    subst (IsLate taken) (sym same) (ground arith)

Runs-IsLate : {taken : List Text} {s t : Queue} → Runs s t → IsLate taken s → IsLate taken t
Runs-IsLate stop v = v
Runs-IsLate (further way step) v = QueueStep-IsLate step (Runs-IsLate way v)

-- Once `main` has set `finished` and no worker is between the test within the loop and the list, no
-- command is taken any more, whatever steps follow: what is then in the list is lost.
pub commands_lost :
    {s t : Queue}
    → IsBalanced s
    → s.finished ≡ true
    → s.workers.cleared ≡ 0
    → Runs s t
    → t.taken ≡ s.taken
commands_lost {s} {t} v set idle way =
    (Runs-IsLate {taken = s.taken} way
      (record { set = set; over = ground arith; none_cleared = idle; known = refl })).known
