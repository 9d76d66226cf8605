-- ===== src/WorkerPool/Safety.antt =====
-- The bounds of the pool hold under every schedule.
use vparser.Prelude.{
  ℕ, ◌+◌, ◌≤◌, ◌≡◌, inl, inr, some, List, [], ◌∷◌, arith, max, subst, Option-cases,
}
use vparser.WorkerPool.{Pool, new, Action, step, run}

pub record Inv (workers queue : ℕ) (p : Pool) : Type 0 where
  pub sized : p.workers ≡ max 1 workers
  pub capped : p.capacity ≡ max 1 workers + queue
  pub counted : p.inflight ≡ p.rejecting + p.admitted + p.waiting + p.running + p.leaving
  pub slotted : p.slots ≡ p.running
  pub awaited : p.wg ≡ p.waiting + p.running + p.leaving + p.closing
  pub parallel : p.running ≤ p.workers
  pub accepted : p.admitted + p.waiting + p.running + p.leaving ≤ p.capacity
  pub kept : p.accepted ≡ p.admitted + p.waiting + p.running + p.done

pub new-Inv : (workers queue : ℕ) → Inv workers queue (new workers queue)
unfolding new
new-Inv workers queue = ground arith

pub step-Inv :
    {workers queue : ℕ} (p : Pool) (a : Action) {q : Pool}
    → Inv workers queue p
    → step p a ≡ some q
    → Inv workers queue q
unfolding step
step-Inv p Action.count h e = ground arith
step-Inv p _ h e = ground arith

-- What a schedule that goes on did first.
run-cons :
    (p : Pool) (a : Action) (acts : List Action) {q : Pool}
    → run p (a ∷ acts) ≡ some q
    → (r : Pool) × (step p a ≡ some r) × (run r acts ≡ some q)
unfolding run
run-cons p a acts e = elim (Option-cases (step p a)) [
  | inl stuck ↦ absurd (ground (arith, stuck, e))
  | inr (r, moved) ↦ (r, moved, ground (arith, moved, e))
]

run-nil : (p : Pool) {q : Pool} → run p [] ≡ some q → p ≡ q
unfolding run
run-nil p e = cc

pub run-Inv :
    {workers queue : ℕ} (p : Pool) (acts : List Action) {q : Pool}
    → Inv workers queue p
    → run p acts ≡ some q
    → Inv workers queue q
run-Inv {workers} {queue} p [] h e = subst (Inv workers queue) (run-nil p e) h
run-Inv p (a ∷ acts) h e =
    let (r, moved, rest) = run-cons p a acts e in run-Inv r acts (step-Inv p a h moved) rest

module _ (workers queue : ℕ) (acts : List Action) {p : Pool} where
  -- Under every schedule at most `max(workers, 1)` tasks are in `fn` at once, and the tasks that
  -- were accepted and have not left the pool are at most `max(workers, 1) + queue`.
  pub pool_bounds :
      run (new workers queue) acts ≡ some p
      → (p.running ≤ max 1 workers)
        × (p.admitted + p.waiting + p.running + p.leaving ≤ max 1 workers + queue)
  pool_bounds e =
      let inv = run-Inv (new workers queue) acts (new-Inv workers queue) e in
      (omega (arith, inv.sized, inv.parallel), omega (arith, inv.capped, inv.accepted))

  -- When `Shutdown` has seen the wait group at zero, no task that was started is waiting, in `fn` or
  -- holding a slot, and every count of `inflight` belongs to a call of `Submit` that has not returned.
  pub shutdown_waits :
      run (new workers queue) acts ≡ some p
      → p.wg ≡ 0
      → (p.waiting + p.running + p.leaving + p.closing ≡ 0)
        × (p.slots ≡ 0)
        × (p.inflight ≡ p.rejecting + p.admitted)
  shutdown_waits e idle =
      let inv = run-Inv (new workers queue) acts (new-Inv workers queue) e in
      (
        omega (arith, inv.awaited),
        omega (arith, inv.slotted, inv.awaited),
        omega (arith, inv.counted, inv.awaited),
      )
