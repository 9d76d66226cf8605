-- ===== src/Mq/Runner/AtLeastOnce.antt =====
-- No record is skipped.
use vparser.Prelude.{
  ℕ, ◌<◌, ◌≡◌, inl, inr, true, Option, none, some, List, [], ◌∷◌, arith, ==_iff, Option-cases,
  subst,
}
use vparser.Mq.Runner.{Partition, Event, init, handled, step, run}

-- All records before the n-th were handled.
abbrev pub DoneBelow : Partition → ℕ → Type 0
DoneBelow p n = (o : ℕ) → o < n → p.done o ≡ true

-- What is known of worker `j`.
pub record IsSound (p : Partition) (j : ℕ) : Type 0 where
  pub committed : DoneBelow p p.committed
  pub worker : DoneBelow p (p.worker j).head
  pub in_hand : (p.worker j).phase ≡ handled → p.done (p.worker j).head ≡ true
  pub fresh : (o : ℕ) → o < p.position → p.owned ≡ true → p.current ≡ none → p.done o ≡ true

abbrev or_zero : Option ℕ → ℕ
or_zero none = 0
or_zero (some j) = j

-- The worker that an event writes.
abbrev written : Partition → Event → ℕ
written p Event.assign = 0
written p (Event.fetch n) = p.next_worker
written p Event.pause = 0
written p Event.enqueue = or_zero p.current
written p Event.revoke = or_zero p.current
written p (Event.next j) = j
written p (Event.woken j) = j
written p (Event.handle j) = j
written p (Event.fail j) = j
written p (Event.commit j) = j
written p (Event.lose_commit j) = j
written p (Event.quit j) = j

module _ (p : Partition) (h : (j : ℕ) → IsSound p j) {q : Partition} where
  -- What was handled stays handled.
  step-done : (e : Event) → step p e ≡ some q → (o : ℕ) → p.done o ≡ true → q.done o ≡ true
  unfolding step
  step-done e moved o d = ground arith

  step-worker :
      (e : Event) (j : ℕ) → step p e ≡ some q → (o : ℕ) → o < (q.worker j).head → q.done o ≡ true
  unfolding step
  step-worker e j moved o lt = ground (
    arith,
    ==_iff (written p e) j,
    (h j).worker o,
    (h j).in_hand,
    (h j).fresh o,
    step-done e moved o,
  )

  step-in_hand :
      (e : Event) (j : ℕ)
      → step p e ≡ some q
      → (q.worker j).phase ≡ handled
      → q.done (q.worker j).head ≡ true
  unfolding step
  step-in_hand e j moved at = ground (
    arith,
    ==_iff (written p e) j,
    (h j).in_hand,
    step-done e moved (q.worker j).head,
    ==_iff (q.worker j).head (q.worker j).head,
  )

  step-committed : (e : Event) → step p e ≡ some q → (o : ℕ) → o < q.committed → q.done o ≡ true
  unfolding step
  step-committed (Event.commit j) moved o lt = ground (arith, (h j).in_hand, (h j).worker o)
  step-committed e moved o lt = ground (arith, (h 0).committed o, step-done e moved o)

  step-fresh :
      (e : Event)
      → step p e ≡ some q
      → (o : ℕ) → o < q.position
      → q.owned ≡ true
      → q.current ≡ none
      → q.done o ≡ true
  unfolding step
  step-fresh e moved o lt own none_yet =
      ground (arith, (h 0).committed o, (h 0).fresh o, step-done e moved o)

  step-IsSound : (e : Event) → step p e ≡ some q → (j : ℕ) → IsSound q j
  step-IsSound e moved j = record {
    committed = step-committed e moved;
    worker = step-worker e j moved;
    in_hand = step-in_hand e j moved;
    fresh = step-fresh e moved;
  }

init-IsSound : (j : ℕ) → IsSound init j
init-IsSound j = record {
  committed = λ o lt. absurd (omega arith);
  worker = λ o lt. absurd (omega arith);
  in_hand = λ at. absurd (cc at);
  fresh = λ o lt own q. absurd (omega arith);
}

run-cons :
    (p : Partition) (e : Event) (events : List Event) {q : Partition}
    → run p (e ∷ events) ≡ some q
    → (r : Partition) × (step p e ≡ some r) × (run r events ≡ some q)
unfolding run
run-cons p e events h = elim (Option-cases (step p e)) [
  | inl stuck ↦ absurd (ground (arith, stuck, h))
  | inr (r, moved) ↦ (r, moved, ground (arith, moved, h))
]

run-nil : (p : Partition) {q : Partition} → run p [] ≡ some q → p ≡ q
unfolding run
run-nil p h = cc

run-IsSound :
    (p : Partition) (events : List Event) {q : Partition}
    → ((j : ℕ) → IsSound p j)
    → run p events ≡ some q
    → (j : ℕ) → IsSound q j
run-IsSound p [] h e j = subst (λ u. IsSound u j) (run-nil p e) (h j)
run-IsSound p (a ∷ events) h e j =
    let (r, moved, rest) = run-cons p a events e in
    run-IsSound r events (step-IsSound p h a moved) rest j

-- In every state that events can lead to, with rebalances, lost commits, failed attempts and workers
-- that were stopped with a record in hand: every record before the group's offset was handled, and
-- so was every record before the one that any worker is at.
pub at_least_once :
    (events : List Event) {p : Partition}
    → run init events ≡ some p
    → DoneBelow p p.committed × ((j : ℕ) → DoneBelow p (p.worker j).head)
at_least_once events h =
    let sound = run-IsSound init events init-IsSound h in
    ((sound 0).committed, λ j. (sound j).worker)
