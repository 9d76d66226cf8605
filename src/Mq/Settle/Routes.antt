-- ===== src/Mq/Settle/Routes.antt =====
-- Where the records of failed attempts go.
use vparser.Prelude.{
  ℕ, ◌≡◌, refl, subst, ◌⊎◌, inl, inr, Bool, true, false, none, max, arith, if◌then◌else◌,
}
use vparser.Go.Bytes.{Bytes}
use vparser.Errors.{Error, Kind, has_kind, is_permanent_failure}
use vparser.Model.{TaskMsg, State, Stage}
use vparser.Mq.Routing.{Topic, Reason, Route, retry, dead, route_failure}
use vparser.Mq.Headers.{Message, Delivery}
use vparser.Mq.Effects.{
  Task, Call, Entry, Trace, Answer, Env, answer, error, M, pure, ◌>>=◌, ◌>>◌, attempt, Did,
}
use vparser.Mq.Effects.Rules.{
  Grows, grows_rules, Yields, Yields-pure, Yields-map, Grows-bind, Yields-then, Yields-run_last,
  run-Did, Did-map,
}
use vparser.Mq.Consumer.{
  Outcome, Attempt, success, skipped, retried, dead_lettered, over_budget, poisoned,
}
use vparser.Mq.Consumer.Work.{IsWork, IsSkip, Ended, Attempted}
use vparser.Mq.Effects.Blames.{IsOver}
use vparser.Mq.Settle.{
  dead_letter, retry_message, forward_message, forward_retry, bury, route_error, settle, announce,
  budget_message,
}

-- The record is forwarded with its key and value to a retry topic.
abbrev pub IsRetry : Delivery → Entry → Type 0
IsRetry d e =
    (m : Message) × (e.fault ≡ none)
    × (e.call ≡ Call.produce m)
    × ((m.topic ≡ Topic.retry_10s) ⊎ (m.topic ≡ Topic.retry_60s))
    × (m.key ≡ d.key)
    × (m.value ≡ d.value)

-- The record is put with its key and value into the dead letters.
abbrev pub IsDead : Delivery → Entry → Type 0
IsDead d e =
    (m : Message) × (e.fault ≡ none)
    × (e.call ≡ Call.produce m)
    × (m.topic ≡ Topic.dlq)
    × (m.key ≡ d.key)
    × (m.value ≡ d.value)

-- A poison record is in the dead letters or in the ledger.
abbrev pub IsKept : Delivery → Entry → Type 0
IsKept d e =
    IsDead d e
    ⊎ ((msg : TaskMsg) × (n : ℕ) × (x : Error) × (e.fault ≡ none)
        × (e.call ≡ Call.record_failure msg n x))

-- What an outcome says of the calls.
abbrev pub Accounted : Delivery → Task → Bytes → Outcome → Trace → Type 0
Accounted d task lock_key success t = Did (IsWork task) t
Accounted d task lock_key skipped t = Did (IsSkip task lock_key) t
Accounted d task lock_key retried t = Did (IsRetry d) t
Accounted d task lock_key dead_lettered t = Did (IsDead d) t
Accounted d task lock_key over_budget t = Did IsOver t
Accounted d task lock_key poisoned t = Did (IsKept d) t

pub Accounted-Grows :
    (d : Delivery) (task : Task) (k : Bytes) (o : Outcome) (t u : Trace)
    → ((P : Entry → Type 0) → Did P t → Did P u)
    → Accounted d task k o t
    → Accounted d task k o u
Accounted-Grows d task k success t u g h = g (IsWork task) h
Accounted-Grows d task k skipped t u g h = g (IsSkip task k) h
Accounted-Grows d task k retried t u g h = g (IsRetry d) h
Accounted-Grows d task k dead_lettered t u g h = g (IsDead d) h
Accounted-Grows d task k over_budget t u g h = g IsOver h
Accounted-Grows d task k poisoned t u g h = g (IsKept d) h

pub Ended-Accounted :
    (d : Delivery) (task : Task) (k : Bytes) (o : Outcome) (t : Trace)
    → Ended task k o t
    → Accounted d task k o t
Ended-Accounted d task k success t (inl (e, w)) = absurd (cc e)
Ended-Accounted d task k success t (inr (e, w)) = w
Ended-Accounted d task k skipped t (inl (e, w)) = w
Ended-Accounted d task k skipped t (inr (e, w)) = absurd (cc e)
Ended-Accounted d task k over_budget t (inl (e, w)) = absurd (cc e)
Ended-Accounted d task k over_budget t (inr (e, w)) = absurd (cc e)
Ended-Accounted d task k retried t (inl (e, w)) = absurd (cc e)
Ended-Accounted d task k retried t (inr (e, w)) = absurd (cc e)
Ended-Accounted d task k dead_lettered t (inl (e, w)) = absurd (cc e)
Ended-Accounted d task k dead_lettered t (inr (e, w)) = absurd (cc e)
Ended-Accounted d task k poisoned t (inl (e, w)) = absurd (cc e)
Ended-Accounted d task k poisoned t (inr (e, w)) = absurd (cc e)

pub dead_letter-IsDead :
    (d : Delivery) (n : ℕ) (first : Bytes) (reason : Reason)
    → Yields (dead_letter d n first reason) (λ u t. Did (IsDead d) t)
unfolding dead_letter
dead_letter-IsDead d n first reason =
    Yields-map _ (λ u t did. Did-map _ _ t (λ e (ok, is). (_, ok, is, refl, refl, refl)) did)
      (run-Did _)

pub dead_letter-Grows :
    (d : Delivery) (n : ℕ) (first : Bytes) (reason : Reason) → Grows (dead_letter d n first reason)
unfolding dead_letter
dead_letter-Grows d n first reason = search grows_rules

pub announce-Grows :
    (task : Task) (s : State) (text : Bytes) (stage : Stage) → Grows (announce task s text stage)
unfolding announce
announce-Grows task s text stage = search grows_rules

retry_topic :
    (p : Bool) (n : ℕ) (topic : Topic) (delay : ℕ)
    → route_failure p n ≡ retry topic delay
    → (topic ≡ Topic.retry_10s) ⊎ (topic ≡ Topic.retry_60s)
unfolding route_failure
retry_topic p n topic delay e = ground arith

module _ (d : Delivery) (task : Task) (lock_key : Bytes) where
  forward_message-Yields :
      (key : Bytes) (m : Message)
      → (m.topic ≡ Topic.retry_10s) ⊎ (m.topic ≡ Topic.retry_60s)
      → m.key ≡ d.key
      → m.value ≡ d.value
      → Yields (forward_message task key m) (Accounted d task lock_key)
  unfolding forward_message
  forward_message-Yields key m at same_key same_value =
      Yields-map _
        (λ o t (is, did).
          rw is (Did-map _ _ t (λ e (ok, call). (m, ok, call, at, same_key, same_value)) did))
        (Yields-run_last (Call.produce m) _ retried
          (λ u.
            Grows-bind _ _ (search grows_rules)
              (λ v. Grows-bind _ _ (announce-Grows task _ _ _) (λ w. search grows_rules)))
          (λ u. Yields-then _ _ (λ v. Yields-then _ _ (λ w. Yields-pure retried (λ t. refl)))))

module _ (mask : Bytes → Bytes) (d : Delivery) (msg : TaskMsg) (task : Task)
    (key lock_key : Bytes) where
  forward_retry-Yields :
      (n : ℕ) (topic : Topic) (delay : ℕ) (first : Bytes)
      → (topic ≡ Topic.retry_10s) ⊎ (topic ≡ Topic.retry_60s)
      → Yields (forward_retry mask d task key n topic delay first) (Accounted d task lock_key)
  unfolding forward_retry retry_message
  forward_retry-Yields n topic delay first h = record {
    at = λ env t e. (forward_message-Yields d task lock_key key _ h refl refl).at env t e;
  }

  bury-Yields :
      (n : ℕ) (reason : Reason) (first : Bytes) (e : Error)
      → Yields (bury mask d msg task key n reason first e) (Accounted d task lock_key)
  unfolding bury dead_letter
  bury-Yields n reason first e = Yields-then _ _ (λ r.
      Yields-map _
        (λ o t (is, did).
          rw is (Did-map _ _ t (λ x (ok, call). (_, ok, call, refl, refl, refl)) did))
        (Yields-run_last _ _ dead_lettered
          (λ u.
            Grows-bind _ _ (search grows_rules)
              (λ v. Grows-bind _ _ (announce-Grows task _ _ _) (λ w. search grows_rules)))
          (λ u.
            Yields-then _ _ (λ v. Yields-then _ _ (λ w. Yields-pure dead_lettered (λ t. refl))))))

  routed-Yields :
      (n : ℕ) (first : Bytes) (e : Error) (r : Route)
      → ((topic : Topic) (delay : ℕ)
          → r ≡ retry topic delay
          → (topic ≡ Topic.retry_10s) ⊎ (topic ≡ Topic.retry_60s))
      → Yields
          (elim r [
            | retry topic delay ↦ forward_retry mask d task key n topic delay first
            | dead reason ↦ bury mask d msg task key n reason first e
          ])
          (Accounted d task lock_key)
  routed-Yields n first e (retry topic delay) h =
      forward_retry-Yields n topic delay first (h topic delay refl)
  routed-Yields n first e (dead reason) h = bury-Yields n reason first e

  route_error-Yields :
      (e : Error) → Yields (route_error mask d msg task key e) (Accounted d task lock_key)
  unfolding route_error
  route_error-Yields e =
      routed-Yields _ _ e _ (retry_topic (is_permanent_failure e) (max d.attempt 1))

  abbrev charged : Error → M Outcome
  charged e =
      attempt (Call.delete key)
      >> announce task State.failed (budget_message e) Stage.budget_exhausted
      >> pure over_budget

  charged-Grows : (e : Error) → Grows (charged e)
  charged-Grows e =
      Grows-bind _ _ (Grows-bind _ _ (search grows_rules) (λ u. announce-Grows task _ _ _))
        (λ v. search grows_rules)

  charged-ends : (e : Error) → Yields (charged e) (λ o t. over_budget ≡ o)
  charged-ends e = Yields-then _ _ (λ u. Yields-pure over_budget (λ v. refl))

  -- The attempt has ended with an error.
  over_budget-Accounted :
      (e : Error) (over : Bool) (env : Env) (t : Trace) (b : Outcome)
      → (over ≡ true → Did IsOver t)
      → let m =
          if over
          then (attempt (Call.delete key)
              >> announce task State.failed (budget_message e) Stage.budget_exhausted
              >> pure over_budget)
          else route_error mask d msg task key e in
        (m env t).0 ≡ answer b → Accounted d task lock_key b (m env t).1
  over_budget-Accounted e false env t b h q = (route_error-Yields e).at env t q
  over_budget-Accounted e true env t b h q =
      subst (λ o. Accounted d task lock_key o (charged e env t).1) ((charged-ends e).at env t q)
        ((charged-Grows e).at IsOver env t (h refl))

  answer-Accounted :
      (locked : Bool) (o : Outcome) (env : Env) (t : Trace) (b : Outcome)
      → Ended task lock_key o t
      → let m = settle mask d msg task key (record { locked = locked; ended = answer o }) in
        (m env t).0 ≡ answer b → Accounted d task lock_key b (m env t).1
  unfolding settle pure attempt ◌>>=◌
  answer-Accounted true o env t b h e =
      let same : o ≡ b = cc e in
      let m = settle mask d msg task key (record { locked = true; ended = answer o }) in
      subst (λ x. Accounted d task lock_key x (m env t).1) same
        (Accounted-Grows d task lock_key o t (m env t).1 (λ P x. inr x)
          (Ended-Accounted d task lock_key o t h))
  answer-Accounted false o env t b h e =
      let same : o ≡ b = cc e in
      subst (λ x. Accounted d task lock_key x t) same (Ended-Accounted d task lock_key o t h)

  settled-Accounted :
      (locked : Bool) (r : Answer Outcome) (env : Env) (t : Trace) (b : Outcome)
      → let a : Attempt = record { locked = locked; ended = r } in
        Attempted task lock_key a t
        → let m = settle mask d msg task key a in
          (m env t).0 ≡ answer b → Accounted d task lock_key b (m env t).1
  unfolding settle
  settled-Accounted locked (error e) env t b (well, blame) q =
      over_budget-Accounted e (has_kind e Kind.budget_exhausted) env t b (blame e refl) q
  settled-Accounted locked (answer o) env t b (well, blame) q =
      answer-Accounted locked o env t b (well o refl) q

  pub settle-Accounted :
      (a : Attempt) (env : Env) (t : Trace) (b : Outcome)
      → Attempted task lock_key a t
      → let m = settle mask d msg task key a in
        (m env t).0 ≡ answer b → Accounted d task lock_key b (m env t).1
  settle-Accounted a env t b h q = settled-Accounted a.locked a.ended env t b h q
