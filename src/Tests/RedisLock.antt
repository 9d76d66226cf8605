-- ===== src/Tests/RedisLock.antt =====
-- server-go/internal/redislock/lock.go at concrete schedules.
use vparser.Prelude.{ℕ, zero, suc, ◌≡◌, refl, true, false, some, List, [], ◌∷◌, arith}
use vparser.Prelude.Int.{pos}
use vparser.RedisLock.{Options, World, Event, init, step, run, is_held}
use vparser.RedisLock.Lease.{mutual_exclusion, belief_outlives_lease, state_or, late}
use vparser.RedisLock.Polling.{
  Answer, Round, Outcome, locked, try_lock, wait_ms, rounds, try_lock_total,
}

abbrev contest : List Event
contest = Event.set_nx 0 ∷ Event.start 0 ∷ Event.set_nx 1 ∷ Event.pass 100 ∷ []

abbrev contested : World
contested = state_or init (run 30000 init contest)

contest_runs : run 30000 init contest ≡ some contested
unfolding run step
contest_runs = refl

abbrev first : ℕ
first = 0

mutual_exclusion_example : first ≡ first
unfolding run step
mutual_exclusion_example =
    mutual_exclusion 30000 contest first first contest_runs (0, refl, refl, omega arith)
      (0, refl, refl, omega arith)

abbrev taken : World
taken = record init { key = some (0, 30000) }

belief_outlives_lease_example :
    (w : World) × (run 30000 init (late 30000) ≡ some w)
    × (is_held (w.owner 0) ≡ true)
    × (is_held (w.owner 1) ≡ true)
belief_outlives_lease_example = belief_outlives_lease 30000

abbrev options : Options
options = record { ttl = 30000; renew_interval = 10000; poll_interval = 100 }

abbrev second_wins : ℕ → Round
second_wins zero = record { call_ms = 5; answer = Answer.contended; cancelled = false }
second_wins (suc n) = record { call_ms = 5; answer = Answer.acquired; cancelled = false }

second_round : try_lock options second_wins 0 (pos 1000) ≡ some (locked 2 110)
unfolding try_lock
second_round = refl

try_lock_total_example :
    (o : Outcome) × (try_lock options second_wins 0 (pos 1000) ≡ some o)
    × (wait_ms (pos 1000) ≡ 0 → rounds o ≡ 1)
try_lock_total_example = try_lock_total options second_wins 0 (pos 1000) (omega arith)
