-- ===== src/WorkerPool/Progress.antt =====
-- The pool never gets stuck: whatever the schedule was, it can always go on until it is empty.
use vparser.Prelude.{
  ℕ, zero, suc, ◌+◌, ◌*◌, ◌≤◌, ◌≡◌, ◌≢◌, refl, ◌∙◌, Option, none, some, List, [], ◌∷◌, arith, ltb,
  if◌then◌else◌, All,
}
use native.Mathlib.Decide.{ℕ_discrete}
use vparser.WorkerPool.{Pool, new, Action, step, run}
use vparser.WorkerPool.Safety.{Inv, new-Inv, step-Inv, run-Inv}

-- What is left to do for the calls and tasks that the pool knows of.
abbrev pub work : Pool → ℕ
work p = p.rejecting + 5 * p.admitted + 4 * p.waiting + 3 * p.running + 2 * p.leaving + p.closing

-- An action, other than a new call, that somebody is ready for.
pub next_action : Pool → Action
next_action p =
    if ltb 0 p.closing
    then Action.finish
    else if ltb 0 p.leaving
    then Action.settle
    else if ltb 0 p.running
    then Action.leave
    else if ltb 0 p.waiting
    then Action.enter
    else if ltb 0 p.admitted
    then Action.spawn
    else Action.uncount

abbrev moved_or : Pool → Option Pool → Pool
moved_or p none = p
moved_or p (some q) = q

after : Pool → Pool
after p = moved_or p (step p (next_action p))

advance :
    {workers queue : ℕ} (p : Pool)
    → Inv workers queue p
    → work p ≢ 0
    → (step p (next_action p) ≡ some (after p)) × (work (after p) + 1 ≤ work p)
unfolding step next_action after
advance p h busy = ground arith

-- Every action other than a new call of `Submit` lowers what is left to do, so with no new calls no
-- schedule is longer than `work`.
pub action_lowers_work :
    (p : Pool) (a : Action) {q : Pool} → a ≢ Action.count → step p a ≡ some q → work q + 1 ≤ work p
unfolding step
action_lowers_work p Action.count h e = absurd (h refl)
action_lowers_work p _ h e = ground arith

run_on :
    (p : Pool) (a : Action) (acts : List Action) {q : Pool}
    → step p a ≡ some q
    → run p (a ∷ acts) ≡ run q acts
unfolding run
run_on p a acts e = rw (e, run)

-- What goes on without a new call: no task is accepted, and the calls over the capacity are rejected.
abbrev IsOld : Pool → Pool → Type 0
IsOld p q = (q.accepted ≡ p.accepted) × (q.rejected + q.rejecting ≡ p.rejected + p.rejecting)

abbrev pub IsNoCall : Action → Type 0
IsNoCall Action.count = ⊥
IsNoCall a = Unit

next_action-IsNoCall : (p : Pool) → IsNoCall (next_action p)
unfolding next_action
next_action-IsNoCall p = ground arith

next_action-IsOld : (p q : Pool) → step p (next_action p) ≡ some q → IsOld p q
unfolding step next_action
next_action-IsOld p q e = (ground arith, ground arith)

drain :
    {workers queue : ℕ} (n : ℕ) (p : Pool)
    → Inv workers queue p
    → work p ≤ n
    → (acts : List Action) × (q : Pool) × (run p acts ≡ some q)
      × (work q ≡ 0)
      × IsOld p q
      × All IsNoCall acts
drain zero p h small = ([], p, unfold run in refl, omega arith, (refl, refl), tt)
drain (suc n) p h small = elim (ℕ_discrete (work p) 0) [
  | yes empty ↦ ([], p, unfold run in refl, empty, (refl, refl), tt)
  | no busy ↦
      let a = next_action p in
      let (moved, less) = advance p h busy in
      let (acts, q, e, empty, (same, told), old) =
        drain n (after p) (step-Inv p a h moved) (omega (arith, less, small)) in
      let (same1, told1) = next_action-IsOld p (after p) moved in
      (
        a ∷ acts,
        q,
        run_on p a acts moved ∙ e,
        empty,
        (same ∙ same1, told ∙ told1),
        (next_action-IsNoCall p, old),
      )
]

-- After any schedule, and with a `fn` that returns, a schedule without a further call of `Submit`
-- empties the pool: `fn` of every task that was accepted has then been run to its end, every call
-- that was counted over the capacity has returned `ErrRejected`, and the counters and the slots are
-- back at zero.
pub pool_drains :
    (workers queue : ℕ) (acts : List Action) {p : Pool}
    → run (new workers queue) acts ≡ some p
    → (more : List Action) × (q : Pool) × (run p more ≡ some q)
      × All IsNoCall more
      × (q.done ≡ p.accepted)
      × (q.rejected ≡ p.rejected + p.rejecting)
      × (q.inflight ≡ 0)
      × (q.slots ≡ 0)
      × (q.wg ≡ 0)
pool_drains workers queue acts {p} e =
    let inv = run-Inv (new workers queue) acts (new-Inv workers queue) e in
    let (more, q, e', empty, (same, told), old) = drain (work p) p inv (omega arith) in
    let inv' = run-Inv p more inv e' in
    (
      more,
      q,
      e',
      old,
      omega (arith, inv'.kept, empty, same),
      omega (arith, empty, told),
      omega (arith, inv'.counted, empty),
      omega (arith, inv'.slotted, empty),
      omega (arith, inv'.awaited, empty),
    )
