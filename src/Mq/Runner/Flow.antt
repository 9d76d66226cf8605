-- ===== src/Mq/Runner/Flow.antt =====
-- Pausing does not bound the queue to one batch.
use vparser.Prelude.{ℕ, ◌+◌, ◌<◌, ◌≡◌, Option, none, some, List, [], ◌∷◌, arith}
use vparser.Mq.Runner.{Partition, Event, init, step, run}

-- The worker of the first batch looks at its queue after the pause and before the batch is there.
abbrev pub raced : ℕ → ℕ → List Event
raced m n =
    Event.assign
    ∷ Event.fetch m
    ∷ Event.pause
    ∷ Event.next 0
    ∷ Event.enqueue
    ∷ Event.fetch n
    ∷ Event.pause
    ∷ Event.enqueue
    ∷ []

abbrev pub state_or : Partition → Option Partition → Partition
state_or d none = d
state_or d (some p) = p

-- For any two sizes of batches there is a schedule after which one worker has both batches in its
-- queue and has begun with neither: the worker's `next` undoes the pause of `dispatch` when it runs
-- before the `enqueue`.
pub two_batches :
    (m n : ℕ)
    → 0 < m
    → 0 < n
    → (p : Partition) × (run init (raced m n) ≡ some p)
      × ((p.worker 0).head ≡ 0)
      × ((p.worker 0).upto ≡ m + n)
unfolding run step
two_batches m n h k =
    (state_or init (run init (raced m n)), ground arith, ground arith, ground arith)
