-- ===== src/DavServer/State.antt =====
-- The globals of lab14_DAv/server.c, and the functions that answer a client from them.
use pso_workspace.Base.{
  ℕ, zero, suc, ◌+◌, ◌/◌, ◌%◌, Option, none, some, [], ◌∷◌, ◌++◌, ltb, ◌==◌, if◌then◌else◌, ◌-◌,
}
use pso_workspace.Base.Text.{Text, codes, cut, decimal}
use pso_workspace.Base.Integers.{ℤ, pos, negsuc}
use pso_workspace.Base.Shelf.{assign}

abbrev pub job_size : ℕ
job_size = 100000

abbrev pub job_limit : ℕ
job_limit = 5

abbrev pub job_not_exist : Text
job_not_exist = codes "JOB NOT EXIST"

pub record Job : Type 0 where
  pub status : Text
  pub job_id : ℕ

pub record Server : Type 0 where
  pub job_index : ℕ
  pub id_seed : ℕ
  pub running_jobs : ℕ
  pub jobs : ℕ → Job

abbrev pub new_server : Server
new_server = record {
  job_index = 0;
  id_seed = 100;
  running_jobs = 0;
  jobs = λ i. record { status = []; job_id = 0 };
}

-- `run` in the parent, up to the reply, and behind its waitpid; `none` is a write outside of `jobs`.
unfoldable pub job_starts : ℕ → Server → Option Server
job_starts id s =
    if ltb id job_size
    then some (record s {
      jobs = assign s.jobs id (record { status = codes "RUNNING"; job_id = id });
      running_jobs = suc s.running_jobs;
      id_seed = suc s.id_seed;
    })
    else none

unfoldable pub job_ends : ℕ → Server → Server
job_ends id s = record s {
  jobs = assign s.jobs id (record (s.jobs id) { status = codes "TERMINATED" });
  running_jobs = s.running_jobs - 1;
  job_index = suc s.job_index;
}

-- `none` is a read outside of `jobs`.
unfoldable pub get_status : Server → ℤ → Option Text
get_status s (negsuc n) = some job_not_exist
get_status s (pos id) =
    if ltb id 100
    then some job_not_exist
    else if ltb s.id_seed id
    then some job_not_exist
    else if ltb id job_size
    then some (s.jobs id).status
    else none

-- The first loop of get_stdout, whose end value `size` is one less; an int takes ten rounds at most.
unfoldable pub digit_count : ℕ → ℕ → ℕ
digit_count zero id = 0
digit_count (suc fuel) id = let rest = digit_count fuel (id / 10) in if id == 0 then 0 else suc rest

-- The second loop, which fills `char_id` from its last place on; what stands in it is the last list.
unfoldable pub fill_digits : ℕ → ℕ → Text → Text
fill_digits zero id char_id = char_id
fill_digits (suc left) id char_id = fill_digits left (id / 10) ((id % 10 + b'0') ∷ char_id)

-- The file that get_stdout opens, and the one that the child of `run` writes.
unfoldable pub stdout_name : ℕ → Text
stdout_name id = fill_digits (digit_count 10 id) id [] ++ codes ".stdout"

unfoldable pub filename_out : ℕ → Text
filename_out id = decimal 10 id ++ codes ".stdout"

-- thread_handle's `command` and `args`; a text without a blank is a fault.
unfoldable pub command_and_args : Text → Option (Text × Text)
command_and_args buffer =
    let (command, args) = cut 32 buffer in elim args [ none ↦ none | some a ↦ some (command, a) ]
