-- ===== src/Mq/Settle/Limits.antt =====
-- Which failures are not tried again.
use vparser.Prelude.{ℕ, ◌≡◌, refl, ◌⊎◌, Bool, true, [], max, ◌≤◌, if◌then◌else◌, arith}
use vparser.Go.Bytes.{Bytes}
use vparser.Errors.{Error, Kind, has_kind, is_permanent_failure}
use vparser.Model.{TaskMsg, State, Status, Stage}
use vparser.Mq.Routing.{Topic, Reason, Route, retry, dead, route_failure, max_attempts}
use vparser.Mq.Headers.{Delivery}
use vparser.Mq.Effects.{Task, Call, Env, error, pure, ◌>>◌, attempt}
use vparser.Mq.Effects.Avoids.{
  Made, Avoids, Avoids-pure, Avoids-if, Avoids-run, Avoids-attempt, Avoids-bind,
}
use vparser.Mq.Consumer.{over_budget}
use vparser.Mq.Settle.{
  dead_letter, forward_retry, bury, route_error, settle, announce, budget_message,
}

-- A record is produced, to any topic.
abbrev pub IsProduced : Call → Type 0
IsProduced (Call.produce m) = Unit
IsProduced _ = ⊥

-- A record is produced, and not to the dead letters.
abbrev pub IsForwarded : Call → Type 0
IsForwarded (Call.produce m) = ¬ (m.topic ≡ Topic.dlq)
IsForwarded _ = ⊥

pub announce-Avoids :
    (P : Call → Type 0) (task : Task) (s : State) (text : Bytes) (stage : Stage)
    → ((x : Status) → ¬ P (Call.publish task x stage))
    → ¬ P (Call.save_stage task stage)
    → Avoids P (announce task s text stage)
unfolding announce
announce-Avoids P task s text stage h k =
    Avoids-bind _ _ (Avoids-attempt _ k) (λ u. Avoids-attempt _ (h _))

dead_route :
    (p : Bool) (n : ℕ)
    → (p ≡ true) ⊎ (max_attempts ≤ n)
    → route_failure p (max n 1) ≡ dead (if p then Reason.permanent else Reason.exhausted)
unfolding route_failure
dead_route p n h = ground arith

module _ (mask : Bytes → Bytes) (d : Delivery) (msg : TaskMsg) (task : Task) (key : Bytes) where
  bury-Avoids :
      (n : ℕ) (reason : Reason) (first : Bytes) (e : Error)
      → Avoids IsForwarded (bury mask d msg task key n reason first e)
  unfolding bury dead_letter
  bury-Avoids n reason first e = Avoids-bind _ _ (Avoids-attempt _ (λ x. x)) (λ r.
      Avoids-bind _ _ (Avoids-run _ (λ h. h refl)) (λ u.
        Avoids-bind _ _ (Avoids-attempt _ (λ x. x)) (λ v.
          Avoids-bind _ _ (announce-Avoids IsForwarded task _ _ _ (λ x y. y) (λ x. x))
            (λ w. Avoids-pure _))))

  routed-Avoids :
      (n : ℕ) (first : Bytes) (e : Error) (r : Route) (reason : Reason)
      → r ≡ dead reason
      → Avoids IsForwarded (elim r [
        | retry topic delay ↦ forward_retry mask d task key n topic delay first
        | dead reason ↦ bury mask d msg task key n reason first e
      ])
  routed-Avoids n first e (retry topic delay) reason h = absurd (cc h)
  routed-Avoids n first e (dead x) reason h = bury-Avoids n x first e

  pub budget-Avoids :
      (P : Call → Type 0) (e : Error)
      → ¬ P (Call.delete key)
      → ((x : Status) (s : Stage) → ¬ P (Call.publish task x s))
      → ((s : Stage) → ¬ P (Call.save_stage task s))
      → Avoids P (
          attempt (Call.delete key)
          >> announce task State.failed (budget_message e) Stage.budget_exhausted
          >> pure over_budget)
  budget-Avoids P e h i j =
      Avoids-bind _ _
        (Avoids-bind _ _ (Avoids-attempt _ h)
          (λ u. announce-Avoids P task _ _ _ (λ x. i x _) (j _)))
        (λ v. Avoids-pure _)

  error-Avoids :
      (locked : Bool) (e : Error)
      → (is_permanent_failure e ≡ true) ⊎ (max_attempts ≤ d.attempt)
      → Avoids IsForwarded
          (settle mask d msg task key (record { locked = locked; ended = error e }))
  unfolding settle route_error
  error-Avoids locked e h =
      Avoids-if (has_kind e Kind.budget_exhausted)
        (budget-Avoids IsForwarded e (λ x. x) (λ x s y. y) (λ s x. x))
        (routed-Avoids _ _ e _ _ (dead_route (is_permanent_failure e) d.attempt h))

  budget_error-Avoids :
      (locked : Bool) (e : Error)
      → has_kind e Kind.budget_exhausted ≡ true
      → Avoids IsProduced (settle mask d msg task key (record { locked = locked; ended = error e }))
  unfolding settle
  budget_error-Avoids locked e h =
      rw h (budget-Avoids IsProduced e (λ x. x) (λ x s y. y) (λ s x. x))

  -- A failed attempt, with the lock or not, whose error is permanent, or that was the third or a
  -- later one: no record is produced to a topic other than the dead letters.
  pub last_failure_stays :
      (locked : Bool) (e : Error) (env : Env)
      → (is_permanent_failure e ≡ true) ⊎ (max_attempts ≤ d.attempt)
      → ¬ Made IsForwarded
          (settle mask d msg task key (record { locked = locked; ended = error e }) env []).1
  last_failure_stays locked e env h made = (error-Avoids locked e h).at env [] made

  -- A failed attempt with a budget error in its chain, whatever else is there: no record is produced.
  pub budget_stays :
      (locked : Bool) (e : Error) (env : Env)
      → has_kind e Kind.budget_exhausted ≡ true
      → ¬ Made IsProduced
          (settle mask d msg task key (record { locked = locked; ended = error e }) env []).1
  budget_stays locked e env h made = (budget_error-Avoids locked e h).at env [] made
