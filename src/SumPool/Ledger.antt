-- ===== src/SumPool/Ledger.antt =====
-- What becomes of the sums of EXAMS/restanta_30_06_2023/server_semaphore.c over all interleavings.
use pso_workspace.Base.{List}
use pso_workspace.Base.Text.{Text}
use pso_workspace.SumPool.Tasks.{Tasks}
use pso_workspace.SumPool.System.{Sums}
