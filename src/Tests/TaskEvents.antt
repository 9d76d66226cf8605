-- ===== src/Tests/TaskEvents.antt =====
-- server-go/internal/taskevents/hub.go at concrete streams.
use vparser.Prelude.{
  ℕ, ◌+◌, ◌≤◌, Bool, ◌≡◌, refl, true, some, List, [], ◌∷◌, ◌++◌, suc, zero, arith,
}
use vparser.Go.Bytes.{lit}
use vparser.Model.{State, Stage, status_of}
use vparser.Mq.Effects.{answer}
use vparser.TaskEvents.{
  TaskEvent, Subscription, Flight, Hub, Action, event_of, take_target, step, run,
}
use vparser.TaskEvents.Delivery.{got, published, under_way, how_many, no_gaps, overflow_silences}

abbrev queued : TaskEvent
queued = event_of (status_of State.queued (lit "queued")) Stage.queued

abbrev finished : TaskEvent
finished = event_of (status_of State.completed (lit "done")) Stage.completed

abbrev stream_of : List TaskEvent → Subscription
stream_of queue = record { key = lit "analysis:7:d"; queue = queue; read = []; registered = true }

abbrev one_stream : List TaskEvent → Hub
one_stream queue = record { subs = λ i. stream_of queue; count = 1; flights = [] }

-- The two publications overlap, and the later one comes first.
abbrev actions : List Action
actions =
    Action.emit (answer 0) (lit "analysis:7:d") queued
    ∷ Action.message (some (lit "analysis:7:d", finished))
    ∷ Action.send 1 0
    ∷ Action.receive 0
    ∷ []

no_gaps_example :
    let v = run (one_stream (queued ∷ [])) actions in
    (events : List TaskEvent) × (got (v.subs 0) ≡ (queued ∷ []) ++ events)
    × ((p : TaskEvent → Bool)
        → (how_many p events + how_many p (under_way 0 v.flights)
            ≤ 0 + how_many p (published (lit "analysis:7:d") actions))
          × ((v.subs 0).registered ≡ true
              → how_many p events + how_many p (under_way 0 v.flights)
                ≡ 0 + how_many p (published (lit "analysis:7:d") actions)))
no_gaps_example = no_gaps (one_stream (queued ∷ [])) actions 0 (omega arith)

abbrev copies : ℕ → List TaskEvent
copies zero = []
copies (suc n) = queued ∷ copies n

abbrev flight : Flight
flight = record { key = lit "analysis:7:d"; event = finished; targets = λ i. true }

abbrev full : Hub
full = record (one_stream (copies 64)) { flights = flight ∷ [] }

overflow_silences_example : got ((run (step full (Action.send 0 0)) actions).subs 0) ≡ copies 64
unfolding take_target
overflow_silences_example =
    overflow_silences full 0 finished actions 0 (omega arith) refl refl (omega arith)
