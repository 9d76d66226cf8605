-- ===== src/WorkerPool.antt =====
-- server-go/internal/workerpool/pool.go: the bounded executor. Callers and tasks run concurrently:
-- an action below is one access to the state that they share, and a schedule is a list of actions.
-- Tasks differ only in the phase that they are in, so a state counts them by phase. The queue
-- length is not negative, and the counters stay below 2^63.
pub mod Safety
pub mod Progress
use vparser.Prelude.{ℕ, ◌+◌, ◌-◌, Option, none, some, List, [], ◌∷◌, ltb, leb, if◌then◌else◌, Bool}

pub record Pool : Type 0 where
  -- what the tasks share: the slots of `run`, `capacity`, `inflight` and `wg`
  pub workers : ℕ
  pub slots : ℕ
  pub capacity : ℕ
  pub inflight : ℕ
  pub wg : ℕ
  -- callers that were counted over the capacity, and that were counted within it
  pub rejecting : ℕ
  pub admitted : ℕ
  -- goroutines before `p.run <- struct{}{}`, in `fn`, and behind each deferred call
  pub waiting : ℕ
  pub running : ℕ
  pub leaving : ℕ
  pub closing : ℕ
  -- calls that returned `ErrRejected`; calls whose task was accepted, and tasks whose `fn` has
  -- returned, which the code does not count
  pub rejected : ℕ
  pub accepted : ℕ
  pub done : ℕ

unfoldable pub new : ℕ → ℕ → Pool
new workers queue =
    let workers' : ℕ = if ltb workers 1 then 1 else workers in
    record {
      workers = workers';
      slots = 0;
      capacity = workers' + queue;
      inflight = 0;
      wg = 0;
      rejecting = 0;
      admitted = 0;
      waiting = 0;
      running = 0;
      leaving = 0;
      closing = 0;
      rejected = 0;
      accepted = 0;
      done = 0;
    }

pub data Action : Type 0 where
  count : Action  -- `p.inflight.Add(1) > p.capacity`
  uncount : Action  -- `p.inflight.Add(-1)`, and `ErrRejected` is returned
  spawn : Action  -- `p.wg.Add(1)` and the `go` statement
  enter : Action  -- `p.run <- struct{}{}`, which blocks while the channel is full
  leave : Action  -- `fn` returns, and `<-p.run`
  settle : Action  -- the deferred `p.inflight.Add(-1)`
  finish : Action  -- the deferred `p.wg.Done()`

-- An action that somebody is ready for.
abbrev guarded : Bool → Pool → Option Pool
guarded ready p = if ready then some p else none

unfoldable pub step : Pool → Action → Option Pool
step p count = some (
    if leb (p.inflight + 1) p.capacity
    then record p {
      inflight = p.inflight + 1;
      admitted = p.admitted + 1;
      accepted = p.accepted + 1;
    }
    else record p { inflight = p.inflight + 1; rejecting = p.rejecting + 1 })
step p uncount =
    guarded (ltb 0 p.rejecting) (record p {
      inflight = p.inflight - 1;
      rejecting = p.rejecting - 1;
      rejected = p.rejected + 1;
    })
step p spawn =
    guarded (ltb 0 p.admitted)
      (record p { wg = p.wg + 1; admitted = p.admitted - 1; waiting = p.waiting + 1 })
step p enter =
    if ltb 0 p.waiting
    then guarded (ltb p.slots p.workers)
        (record p { slots = p.slots + 1; waiting = p.waiting - 1; running = p.running + 1 })
    else none
step p leave = guarded (ltb 0 p.running) (record p {
  slots = p.slots - 1;
  running = p.running - 1;
  leaving = p.leaving + 1;
  done = p.done + 1;
})
step p settle =
    guarded (ltb 0 p.leaving)
      (record p { inflight = p.inflight - 1; leaving = p.leaving - 1; closing = p.closing + 1 })
step p finish = guarded (ltb 0 p.closing) (record p { wg = p.wg - 1; closing = p.closing - 1 })

-- `none` if the schedule asks for an action that nobody is ready for.
unfoldable pub run : Pool → List Action → Option Pool
run p [] = some p
run p (a ∷ acts) = elim (step p a) [ none ↦ none | some q ↦ run q acts ]
