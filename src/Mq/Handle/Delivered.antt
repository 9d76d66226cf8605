-- ===== src/Mq/Handle/Delivered.antt =====
-- What a handled delivery leaves behind, for each outcome.
use vparser.Prelude.{
  ◌≡◌, refl, subst, inl, inr, ◌∙◌, Bool, true, false, not, ◌&&◌, Option, none, some, if◌then◌else◌,
  [], arith,
}
use vparser.Prelude.Int.{ℤ, pos}
use vparser.Go.Bytes.{Bytes}
use vparser.Go.Text.{is_empty, is_blank}
use vparser.Errors.{Error}
use vparser.TaskKeys
use vparser.TaskKeys.{Digest, digest, invalid, goal_digest, normalize_content_hash}
use vparser.Model.{Mode, TaskMsg, mode_from_nullable, or_empty}
use vparser.Mq.Headers.{Delivery}
use vparser.Mq.Effects.{
  Task, Trace, Answer, Env, answer, pure, fail, outcome_of, of_answer, ◌>>◌, attempt, Did,
}
use vparser.Mq.Effects.Rules.{
  Grows, grows_rules, Grows-bind, Grows-if, Grows-option, Grows-succeeds, run-Did, Yields,
  Yields-if, Yields-map, Yields-bind, Yields-succeeds, answer_injective, bind-yields_at, Did-map,
}
use vparser.Mq.Consumer.{Outcome, poisoned, release_lock}
use vparser.Mq.Consumer.Work.{locked_body-Attempted}
use vparser.Mq.Settle.Routes.{
  IsKept, dead_letter-IsDead, dead_letter-Grows, announce-Grows, Accounted, Accounted-Grows,
  settle-Accounted,
}
use vparser.Mq.Handle.{
  task_of, handle_digest, handle_accepted, refusal, or_empty_msg, release_digest, release_poison,
  discard_poison, handle, handle_task,
}

release_lock-Grows : (k : Bytes) (locked : Bool) → Grows (release_lock k locked)
unfolding release_lock attempt
release_lock-Grows k locked = record { at = λ P env t d. ground arith }

released-Accounted :
    (d : Delivery) (task : Task) (lk k : Bytes) (locked : Bool) (r : Answer Outcome) (env : Env)
    (u : Trace) (c : Outcome)
    → ((o : Outcome) → r ≡ answer o → Accounted d task lk o u)
    → ((release_lock k locked >> of_answer r) env u).0 ≡ answer c
    → Accounted d task lk c ((release_lock k locked >> of_answer r) env u).1
unfolding of_answer
released-Accounted d task lk k locked r env u c h e =
    bind-yields_at (λ x v. (o : Outcome) → r ≡ answer o → Accounted d task lk o v)
      (Accounted d task lk) _ _ env u
      (λ x q o w.
        Accounted-Grows d task lk o u _ (λ P. (release_lock-Grows k locked).at P env u) (h o w))
      (λ x v b g q. g b q) e

abbrev or_zero : Option ℤ → ℤ
or_zero none = pos 0
or_zero (some id) = id

-- The task that a message names.
abbrev pub named_task : Option TaskMsg → Task
named_task m =
    let msg = or_empty_msg m in
    task_of (or_zero msg.media_id) (or_empty msg.user_goal) (mode_from_nullable (or_empty msg.mode))

-- The lock of a message's task.
abbrev lock_of : ℤ → TaskMsg → Digest → Bytes
lock_of id msg (invalid e) = []
lock_of id msg (digest dg) =
    TaskKeys.lock (normalize_content_hash id (or_empty msg.content_hash)) dg

module _ (sha mask : Bytes → Bytes) where
  abbrev pub named_lock : Option TaskMsg → Bytes
  named_lock m =
      let msg = or_empty_msg m in
      let task = named_task m in lock_of task.media_id msg (goal_digest sha task.goal task.mode)

  handle_task-Accounted :
      (d : Delivery) (msg : TaskMsg) (id : ℤ) (goal : Bytes) (mode : Mode) (dg : Bytes)
      → Yields
          (handle_task sha mask d msg id goal mode dg)
          (Accounted d (task_of id goal mode) (lock_of id msg (digest dg)))
  unfolding handle_task outcome_of
  handle_task-Accounted d msg id goal mode dg =
      let task = task_of id goal mode in
      let lk = lock_of id msg (digest dg) in
      Yields-bind _ _ (locked_body-Attempted msg task lk _) (λ a env t b p e.
        bind-yields_at (λ r u. (o : Outcome) → r ≡ answer o → Accounted d task lk o u)
          (Accounted d task lk) _ _ env t
          (λ r q o h. settle-Accounted mask d msg task _ lk a env t o p (answer_injective q ∙ h))
          (λ r u c h q. released-Accounted d task lk _ a.locked r env u c h q) e)

  release_digest-Grows :
      (msg : TaskMsg) (id : ℤ) (goal : Bytes) (mode : Mode) (dg : Digest)
      → Grows (release_digest msg id goal mode dg)
  unfolding release_digest
  release_digest-Grows msg id goal mode (invalid e) = search grows_rules
  release_digest-Grows msg id goal mode (digest dg) =
      Grows-bind _ _ (search grows_rules)
        (λ gone. Grows-if gone (announce-Grows _ _ _ _) (search grows_rules))

  release_poison-Grows : (msg : TaskMsg) → Grows (release_poison sha msg)
  unfolding release_poison
  release_poison-Grows msg = Grows-option msg.media_id (search grows_rules) (λ id.
      Grows-if (is_blank (or_empty msg.user_goal)) (search grows_rules)
        (release_digest-Grows msg id _ _ _))

  poisoned-Accounted :
      (d : Delivery) (task : Task) (lk : Bytes) (msg : TaskMsg) (env : Env) (u : Trace)
      (c : Outcome)
      → Did (IsKept d) u
      → ((release_poison sha msg >> pure poisoned) env u).0 ≡ answer c
      → Accounted d task lk c ((release_poison sha msg >> pure poisoned) env u).1
  unfolding pure
  poisoned-Accounted d task lk msg env u c kept e =
      bind-yields_at (λ x v. Did (IsKept d) v) (Accounted d task lk) _ _ env u
        (λ x q. (release_poison-Grows msg).at (IsKept d) env u kept)
        (λ x v b w q. subst (λ o. Accounted d task lk o v) (answer_injective q) w) e

  kept-Accounted :
      (d : Delivery) (task : Task) (lk : Bytes) (msg : TaskMsg) (lost : Error)
      (recorded buried : Bool) (env : Env) (u : Trace) (c : Outcome)
      → (recorded ≡ true → Did (IsKept d) u)
      → (buried ≡ true → Did (IsKept d) u)
      → let m =
          if not recorded && not buried
          then fail lost
          else (release_poison sha msg >> pure poisoned) in
        (m env u).0 ≡ answer c → Accounted d task lk c (m env u).1
  unfolding fail
  kept-Accounted d task lk msg lost true buried env u c r b e =
      poisoned-Accounted d task lk msg env u c (r refl) e
  kept-Accounted d task lk msg lost false true env u c r b e =
      poisoned-Accounted d task lk msg env u c (b refl) e
  kept-Accounted d task lk msg lost false false env u c r b e = absurd (cc e)

  discard_poison-Accounted :
      (d : Delivery) (task : Task) (lk reason : Bytes)
      → Yields (discard_poison sha d reason) (Accounted d task lk)
  unfolding discard_poison
  discard_poison-Accounted d task lk reason =
      Yields-bind _ _
        (Yields-succeeds {Q = Did (IsKept d)} _ (
          Yields-map _ (λ x t did. Did-map _ _ t (λ e (ok, is). inr (_, _, _, ok, is)) did)
            (run-Did _)))
        (λ recorded env t b p e.
          bind-yields_at
            (λ buried u. (recorded ≡ true → Did (IsKept d) u) × (buried ≡ true → Did (IsKept d) u))
            (Accounted d task lk) _ _ env t
            (λ buried q. (
              λ h. (Grows-succeeds _ (dead_letter-Grows d _ _ _)).at (IsKept d) env t (p h),
              (Yields-succeeds {Q = Did (IsKept d)} _ (
                    Yields-map _ (λ x v did. Did-map _ _ v (λ e h. inl h) did)
                      (dead_letter-IsDead d _ _ _))).at
                  env t q,
            ))
            (λ buried u c (x, y) q. kept-Accounted d task lk _ _ recorded buried env u c x y q) e)

  handle_digest-Accounted :
      (d : Delivery) (msg : TaskMsg) (id : ℤ) (goal : Bytes) (mode : Mode) (dg : Digest)
      → Yields
          (handle_digest sha mask d msg id goal mode dg)
          (Accounted d (task_of id goal mode) (lock_of id msg dg))
  unfolding handle_digest
  handle_digest-Accounted d msg id goal mode (invalid e) = discard_poison-Accounted d _ _ _
  handle_digest-Accounted d msg id goal mode (digest dg) =
      handle_task-Accounted d msg id goal mode dg

  accepted-Accounted :
      (d : Delivery) (msg : TaskMsg) (media_id : Option ℤ)
      → let goal = or_empty msg.user_goal in
        let mode = mode_from_nullable (or_empty msg.mode) in
        Yields
          (elim media_id [
            | none ↦ discard_poison sha d []
            | some id ↦ handle_digest sha mask d msg id goal mode (goal_digest sha goal mode)
          ])
          (Accounted d
            (task_of (or_zero media_id) goal mode)
            (lock_of (or_zero media_id) msg (goal_digest sha goal mode)))
  accepted-Accounted d msg none = discard_poison-Accounted d _ _ []
  accepted-Accounted d msg (some id) = handle_digest-Accounted d msg id _ _ _

  handle_accepted-Accounted :
      (d : Delivery) (m : Option TaskMsg)
      → Yields (handle_accepted sha mask d m) (Accounted d (named_task m) (named_lock m))
  unfolding handle_accepted
  handle_accepted-Accounted d none = discard_poison-Accounted d _ _ []
  handle_accepted-Accounted d (some msg) = accepted-Accounted d msg msg.media_id

  handle-Yields :
      (d : Delivery)
      → Yields (handle sha mask d) (Accounted d (named_task d.msg) (named_lock d.msg))
  unfolding handle
  handle-Yields d =
      Yields-if (is_empty (refusal d)) (handle_accepted-Accounted d d.msg)
        (discard_poison-Accounted d _ _ _)

  -- Whatever the services answer: a delivery that the consumer reports as handled, so that its offset
  -- may be committed, is accounted for by a call of the handler. As a success: the analysis of the
  -- message's task succeeded, or the reuse of an earlier result for it, which answered that there is
  -- one; as skipped: the media of the task was said to be gone, or the lock of the task to be taken;
  -- as over budget: a call failed with a budget error in its chain; as retried: the message's key and
  -- value were produced to a retry topic; as dead-lettered: to the dead letters; as poisoned: to the
  -- dead letters, or a row was recorded in the ledger of failures.
  pub handle-Accounted :
      (d : Delivery) (env : Env) (o : Outcome)
      → (handle sha mask d env []).0 ≡ answer o
      → Accounted d (named_task d.msg) (named_lock d.msg) o (handle sha mask d env []).1
  handle-Accounted d env o e = (handle-Yields d).at env [] e
