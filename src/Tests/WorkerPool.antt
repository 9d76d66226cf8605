-- ===== src/Tests/WorkerPool.antt =====
-- server-go/internal/workerpool/pool.go at concrete schedules.
use vparser.Prelude.{◌+◌, ◌≤◌, ◌≡◌, refl, some, List, [], ◌∷◌, max, All}
use vparser.WorkerPool.{Pool, Action, new, step, run}
use vparser.WorkerPool.Safety.{pool_bounds}
use vparser.WorkerPool.Progress.{pool_drains, IsNoCall}

abbrev one_task : List Action
one_task = Action.count ∷ Action.spawn ∷ Action.enter ∷ []

abbrev busy : Pool
busy = record (new 1 1) { slots = 1; inflight = 1; wg = 1; running = 1; accepted = 1 }

one_task_runs : run (new 1 1) one_task ≡ some busy
unfolding run step new
one_task_runs = refl

pool_bounds_example : (1 ≤ max 1 1) × (0 + 0 + 1 + 0 ≤ max 1 1 + 1)
unfolding new
pool_bounds_example = pool_bounds 1 1 one_task {p = busy} one_task_runs

abbrev idle : Pool
idle = record (new 1 1) { inflight = 1; admitted = 1; accepted = 1 }

idle_runs : run (new 1 1) (Action.count ∷ []) ≡ some idle
unfolding run step new
idle_runs = refl

abbrev left : Pool
left = record busy { slots = 0; running = 0; leaving = 1 }

pool_drains_example :
    (more : List Action) × (q : Pool) × (run busy more ≡ some q)
    × All IsNoCall more
    × (q.done ≡ 1)
    × (q.rejected ≡ 0 + 0)
    × (q.inflight ≡ 0)
    × (q.slots ≡ 0)
    × (q.wg ≡ 0)
unfolding new
pool_drains_example = pool_drains 1 1 one_task {p = busy} one_task_runs
