-- ===== src/Tests/Runner.antt =====
-- server-go/internal/mq/runner.go at concrete schedules.
use vparser.Prelude.{ℕ, ◌+◌, ◌≡◌, refl, some, List, [], ◌∷◌, arith}
use vparser.Mq.Runner.{Partition, Event, init, step, run}
use vparser.Mq.Runner.AtLeastOnce.{DoneBelow, at_least_once}
use vparser.Mq.Runner.Flow.{raced, state_or, two_batches}

-- The first record is handled and committed; the second is in hand when the partition is revoked.
abbrev rebalance : List Event
rebalance =
    Event.assign
    ∷ Event.fetch 2
    ∷ Event.pause
    ∷ Event.enqueue
    ∷ Event.next 0
    ∷ Event.handle 0
    ∷ Event.commit 0
    ∷ Event.next 0
    ∷ Event.fail 0
    ∷ Event.revoke
    ∷ Event.quit 0
    ∷ Event.assign
    ∷ []

abbrev rebalanced : Partition
rebalanced = state_or init (run init rebalance)

rebalance_runs : run init rebalance ≡ some rebalanced
unfolding run step
rebalance_runs = refl

offset_after : (rebalanced.committed ≡ 1) × (rebalanced.position ≡ 1)
unfolding run step
offset_after = (refl, refl)

at_least_once_example :
    DoneBelow rebalanced rebalanced.committed
    × ((j : ℕ) → DoneBelow rebalanced (rebalanced.worker j).head)
at_least_once_example = at_least_once rebalance rebalance_runs

two_batches_example :
    (p : Partition) × (run init (raced 3 4) ≡ some p)
    × ((p.worker 0).head ≡ 0)
    × ((p.worker 0).upto ≡ 3 + 4)
two_batches_example = two_batches 3 4 (omega arith) (omega arith)
