-- ===== src/Mq/Runner.antt =====
-- server-go/internal/mq/runner.go: one partition, its poll loop and its workers. They run
-- concurrently: an event is one access to what they share. Records are counted from the start of the
-- partition. Every assignment that fetches something has a worker of its own, with its own number;
-- a worker whose partition was revoked may still finish the record that it has in hand.
pub mod AtLeastOnce
pub mod Flow
use vparser.Prelude.{
  ℕ, ◌+◌, Bool, true, false, not, ◌&&◌, Option, none, some, List, [], ◌∷◌, ltb, ◌==◌, if◌then◌else◌,
}

-- A worker at the head of its loop, in the `select` behind it, with a record in hand, with a record
-- that was handled, and behind its end.
pub data Phase : Type 0 where
  looping waiting holding handled exited : Phase

-- The queue is the records from `head` to `upto`; the record in hand is `head`.
pub record Worker : Type 0 where
  pub phase : Phase
  pub head : ℕ
  pub upto : ℕ
  pub wake : Bool
  pub stopped : Bool

-- Where the poll loop stands in `dispatch`, with the number of records that were fetched.
pub data Dispatch : Type 0 where
  idle : Dispatch
  fetched paused : ℕ → Dispatch

pub record Partition : Type 0 where
  -- the group's offset, and the records for which `Handle` returned no error
  pub committed : ℕ
  pub done : ℕ → Bool
  -- the client of this member
  pub owned : Bool
  pub paused : Bool
  pub position : ℕ
  pub dispatch : Dispatch
  -- the entry of `r.workers`, the workers, and the number of the next one
  pub current : Option ℕ
  pub worker : ℕ → Worker
  pub next_worker : ℕ

abbrev pub new_worker : ℕ → Worker
new_worker head = record {
  phase = Phase.looping;
  head = head;
  upto = head;
  wake = false;
  stopped = false;
}

abbrev pub init : Partition
init = record {
  committed = 0;
  done = λ o. false;
  owned = false;
  paused = false;
  position = 0;
  dispatch = Dispatch.idle;
  current = none;
  worker = λ j. new_worker 0;
  next_worker = 0;
}

pub data Event : Type 0 where
  assign : Event  -- the partition is assigned, from the group's offset on
  fetch : ℕ → Event  -- `PollRecords`, and `dispatch` up to the lock's release
  pause : Event  -- `PauseFetchPartitions`
  enqueue : Event  -- `enqueue`
  revoke : Event  -- `onRevoked`, or `Shutdown`
  next : ℕ → Event  -- `next`, with `ResumeFetchPartitions` on an empty queue
  woken : ℕ → Event  -- `<-w.wake`
  handle : ℕ → Event  -- `Handle` returns no error
  fail : ℕ → Event  -- `Handle` returns an error
  commit : ℕ → Event  -- `commit`
  lose_commit : ℕ → Event  -- `commit` fails
  quit : ℕ → Event  -- the worker sees `w.done`

abbrev guarded : Bool → Partition → Option Partition
guarded ready p = if ready then some p else none

abbrev set_worker : Partition → ℕ → Worker → Partition
set_worker p j x = record p { worker = λ i. if j == i then x else p.worker i }

is_idle : Dispatch → Bool
is_idle Dispatch.idle = true
is_idle _ = false

is_phase : Phase → Phase → Bool
is_phase looping looping = true
is_phase waiting waiting = true
is_phase holding holding = true
is_phase handled handled = true
is_phase _ _ = false

is_exited : Phase → Bool
is_exited exited = true
is_exited _ = false

-- The worker of the partition, which is started if there is none.
ensure_worker : Partition → Partition
ensure_worker p = elim p.current [
  | some j ↦ p
  | none ↦
      set_worker (record p { current = some p.next_worker; next_worker = p.next_worker + 1 })
        p.next_worker (new_worker p.position)
]

-- The batch goes to the worker that `dispatch` has found.
push : Partition → ℕ → Partition
push p n = elim p.current [
  | none ↦ p
  | some j ↦ let x = p.worker j in set_worker p j (record x { upto = x.upto + n; wake = true })
]

stop_current : Partition → Partition
stop_current p = elim p.current [
  | none ↦ p
  | some j ↦ set_worker p j (record (p.worker j) { stopped = true })
]

-- `next`: the head of the queue, or a wait for more.
look : Partition → ℕ → Worker → Partition
look p j x =
    if ltb x.head x.upto
    then set_worker p j (record x { phase = Phase.holding })
    else set_worker (if x.stopped then p else record p { paused = false }) j
        (record x { phase = Phase.waiting })

-- The loop goes on behind a record.
advance : Worker → Worker
advance x = record x { phase = Phase.looping; head = x.head + 1 }

abbrev mark : (ℕ → Bool) → ℕ → ℕ → Bool
mark done o i = if o == i then true else done i

-- A worker sees that it is stopped at the head of its loop, in its `select` and in its sleeps.
can_quit : Worker → Bool
unfolding is_phase is_exited
can_quit x = x.stopped && not (is_phase x.phase handled) && not (is_exited x.phase)

-- `none` if nobody is ready for the event. A rebalance comes between polls only.
unfoldable pub step : Partition → Event → Option Partition
unfolding is_idle is_phase ensure_worker push stop_current look advance can_quit
step p assign =
    guarded (not p.owned && is_idle p.dispatch)
      (record p { owned = true; paused = false; position = p.committed; current = none })
step p (fetch n) = guarded (p.owned && not p.paused && is_idle p.dispatch && ltb 0 n) (
    let q = ensure_worker p in
    record q { position = p.position + n; dispatch = Dispatch.fetched n })
step p pause = elim p.dispatch [
  | idle ↦ none
  | fetched n ↦ some (record p { paused = true; dispatch = Dispatch.paused n })
  | paused n ↦ none
]
step p enqueue = elim p.dispatch [
  | idle ↦ none
  | fetched n ↦ none
  | paused n ↦ some (push (record p { dispatch = Dispatch.idle }) n)
]
step p revoke =
    guarded (p.owned && is_idle p.dispatch)
      (record (stop_current p) { owned = false; paused = false; current = none })
step p (next j) =
    let x = p.worker j in guarded (ltb j p.next_worker && is_phase x.phase looping) (look p j x)
step p (woken j) =
    let x = p.worker j in
    guarded (is_phase x.phase waiting && x.wake)
      (set_worker p j (record x { phase = Phase.looping; wake = false }))
step p (handle j) =
    let x = p.worker j in
    guarded (is_phase x.phase holding)
      (set_worker (record p { done = mark p.done x.head }) j (record x { phase = Phase.handled }))
step p (fail j) = let x = p.worker j in guarded (is_phase x.phase holding) p
step p (commit j) =
    let x = p.worker j in
    guarded (is_phase x.phase handled)
      (set_worker (record p { committed = x.head + 1 }) j (advance x))
step p (lose_commit j) =
    let x = p.worker j in guarded (is_phase x.phase handled) (set_worker p j (advance x))
step p (quit j) =
    let x = p.worker j in guarded (can_quit x) (set_worker p j (record x { phase = Phase.exited }))

unfoldable pub run : Partition → List Event → Option Partition
run p [] = some p
run p (e ∷ events) = elim (step p e) [ none ↦ none | some q ↦ run q events ]
