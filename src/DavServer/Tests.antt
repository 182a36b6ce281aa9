-- ===== src/DavServer/Tests.antt =====
-- Jobs of lab14_DAv/server.c.
use pso_workspace.Base.{ℕ, refl, ◌+◌, ◌<◌, ◌≡◌, some, [], arith}
use pso_workspace.Base.Text.{codes}
use pso_workspace.Base.Shelf.{assign}
use pso_workspace.Base.Integers.{pos}
use pso_workspace.DavServer.State.{
  get_status, job_not_exist, job_size, job_starts, job_ends, stdout_name, filename_out, fill_digits,
  digit_count,
}
use pso_workspace.DavServer.System.{
  Threads, no_threads, accept, admit, launch, end, Serves, stop, further,
}
use pso_workspace.DavServer.Names.{stdout_name_lem}
use pso_workspace.DavServer.Ids.{jobs_counted}

stdout_name_lem_example : stdout_name 107 ≡ filename_out 107
stdout_name_lem_example = stdout_name_lem 107 (omega arith)

named : stdout_name 107 ≡ codes "107.stdout"
unfolding stdout_name fill_digits digit_count
named = refl

-- One job that has ended.
abbrev one_ended : Threads
one_ended = record no_threads {
  server = job_ends 100 (record no_threads.server {
    jobs = assign no_threads.server.jobs 100 (record { status = codes "RUNNING"; job_id = 100 });
    running_jobs = 1;
    id_seed = 101;
  });
}

to_one_ended : Serves no_threads one_ended
unfolding job_starts
to_one_ended =
    further
      (further (further (further stop (accept refl)) (admit 100 [] [] refl (omega arith) refl))
        (launch 100 [] [] refl refl refl))
      (end 100 [] [] refl refl)

jobs_counted_example :
    (one_ended.server.running_jobs ≡ 0)
    × (one_ended.server.id_seed ≡ 100 + one_ended.server.job_index + 0)
    × ((k : ℕ)
        → one_ended.server.id_seed < k
        → get_status one_ended.server (pos k) ≡ some job_not_exist)
    × (one_ended.server.id_seed < job_size
        → get_status one_ended.server (pos one_ended.server.id_seed) ≡ some [])
jobs_counted_example = jobs_counted to_one_ended
