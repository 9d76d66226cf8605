-- ===== src/Mq/Consumer/Work.antt =====
-- An attempt that ends in success has analyzed the task, or taken over an earlier result.
use vparser.Prelude.{
  ◌≡◌, refl, sym, subst, ◌⊎◌, inl, inr, Bool, true, false, not, if◌then◌else◌, Option, none, some,
}
use vparser.Prelude.Int.{ℤ}
use vparser.Go.Bytes.{Bytes}
use vparser.Go.Decimal.{parse_int}
use vparser.Model.{TaskMsg, Stage, Status, is_revision}
use vparser.Errors.{Error, Kind, has_kind}
use vparser.Mq.Effects.{
  Task, Call, Entry, Trace, Env, answer, error, Answer, M, pure, ◌>>◌, run, Did,
}
use vparser.Mq.Effects.Blames.{
  IsOver, Blames, blames_rules, Blames-bind, Blames-if, Blames-option, Blames-fail,
  Blames-outcome_of,
}
use vparser.Mq.Effects.Rules.{
  Grows, grows_rules, Grows-bind, Grows-if, Grows-option, Yields-option, Yields, Yields-pure,
  Yields-fail, Yields-if, Yields-map, Yields-both, Yields-then, Yields-bind, Yields-run_then,
  Yields-outcome_of, answer_injective, IsSaid, ask-Said, Did-map,
}
use vparser.Mq.Consumer.{
  Outcome, success, skipped, try_reuse, prepare, conclude, analyze_task, process, reuse_from,
  or_else, Attempt, under_lock, locked_body, begin_revision, find_completed,
}

-- The task is analyzed, or a result is taken over, which is answered with one.
abbrev pub IsWork : Task → Entry → Type 0
IsWork task e =
    (e.fault ≡ none)
    × ((e.call ≡ Call.analyze task)
        ⊎ ((source : ℤ) × (e.call ≡ Call.reuse task source) × (e.yes ≡ true)))

-- The media is said to be gone, or the lock to be with another worker.
abbrev pub IsSkip : Task → Bytes → Entry → Type 0
IsSkip task lock_key e =
    (e.fault ≡ none)
    × (e.yes ≡ false)
    × ((e.call ≡ Call.exists task.media_id) ⊎ (e.call ≡ Call.try_lock lock_key))

-- The two ways in which an attempt ends well.
abbrev pub Ended : Task → Bytes → Outcome → Trace → Type 0
Ended task lock_key o t =
    ((o ≡ skipped) × Did (IsSkip task lock_key) t) ⊎ ((o ≡ success) × Did (IsWork task) t)

abbrev Reused : Task → Bool → Trace → Type 0
Reused task b t = b ≡ true → Did (IsWork task) t

conclude-Blames : (msg : TaskMsg) (task : Task) (k : Bytes) → Blames (conclude msg task k)
unfolding conclude
conclude-Blames msg task k = Blames-bind _ _ (search blames_rules) (λ u.
    Blames-bind _ _ (search blames_rules) (λ x. Blames-if (not x) (search blames_rules) (
      Blames-bind _ _ (search blames_rules) (λ v. Blames-bind _ _ (search blames_rules) (λ res.
        Blames-if (not res.found) (search blames_rules)
          (Blames-option res.status (search blames_rules) (λ s. search blames_rules)))))))

reuse_from-Blames : (task : Task) (k : Bytes) (source : ℤ) → Blames (reuse_from task k source)
unfolding reuse_from
reuse_from-Blames task k source = Blames-bind _ _ (search blames_rules) (λ src.
    Blames-if (not src.found) (search blames_rules) (
      Blames-bind _ _ (search blames_rules) (λ reused.
        Blames-if (not reused.found) (search blames_rules) (
          Blames-option (or_else reused.status src.status) (search blames_rules)
            (λ s. search blames_rules)))))

prepare-Blames : (msg : TaskMsg) (task : Task) (k : Bytes) → Blames (prepare msg task k)
unfolding prepare begin_revision find_completed try_reuse has_kind
prepare-Blames msg task k =
    Blames-if (is_revision msg)
      (Blames-bind _ _ (search blames_rules)
        (λ begun. Blames-if (not begun) (Blames-fail _ refl) (search blames_rules)))
      (Blames-bind _ _ (search blames_rules) (λ value.
        Blames-option value (search blames_rules)
          (λ v. Blames-option (parse_int v) (search blames_rules) (reuse_from-Blames task k))))

process-Blames : (msg : TaskMsg) (task : Task) (k : Bytes) → Blames (process msg task k)
unfolding process analyze_task
process-Blames msg task k = Blames-bind _ _ (search blames_rules) (λ x.
    Blames-if (not x) (search blames_rules) (
      Blames-bind _ _ (search blames_rules) (λ u.
        Blames-bind _ _ (prepare-Blames msg task k) (λ reused.
          Blames-if reused (search blames_rules) (
            Blames-bind _ _ (search blames_rules)
              (λ v. Blames-bind _ _ (search blames_rules) (λ w. conclude-Blames msg task k)))))))

conclude-Grows : (msg : TaskMsg) (task : Task) (k : Bytes) → Grows (conclude msg task k)
unfolding conclude
conclude-Grows msg task k = Grows-bind _ _ (search grows_rules) (λ u.
    Grows-bind _ _ (search grows_rules) (λ x. Grows-if (not x) (search grows_rules) (
      Grows-bind _ _ (search grows_rules) (λ v. Grows-bind _ _ (search grows_rules) (λ res.
        Grows-if (not res.found) (search grows_rules)
          (Grows-option res.status (search grows_rules) (λ s. search grows_rules)))))))

module _ (task : Task) where
  forgotten : (k : Bytes) → Yields (run (Call.delete k) >> pure false) (Reused task)
  forgotten k = Yields-then _ _ (λ u. Yields-pure false (λ t e. absurd (cc e)))

  -- Behind the answer to the reuse.
  took-Reused :
      (k : Bytes) (source : ℤ) (o : Option Status) (found : Bool) (env : Env) (t : Trace) (b : Bool)
      → Did (IsSaid (Call.reuse task source) found) t
      → let m = if not found then (run (Call.delete k) >> pure false) else elim o [
        | none ↦ pure true
        | some s ↦ run (Call.publish task s Stage.completed_reused) >> pure true
      ] in
        (m env t).0 ≡ answer b → Reused task b (m env t).1
  took-Reused k source o false env t b d e = (forgotten k).at env t e
  took-Reused k source o true env t b d e = λ same.
      (Grows-option o (search grows_rules) (λ s. search grows_rules)).at (IsWork task) env t
        (Did-map _ _ t (λ x (ok, is, found). (ok, inr (source, is, found))) d)

  reuse_from-Yields : (k : Bytes) (source : ℤ) → Yields (reuse_from task k source) (Reused task)
  unfolding reuse_from
  reuse_from-Yields k source = Yields-then _ _ (λ src. Yields-if (not src.found) (forgotten k) (
      Yields-bind _ _ (ask-Said _ _ _)
        (λ reused. took-Reused k source (or_else reused.status src.status) reused.found)))

  try_reuse-Yields : (k v : Bytes) → Yields (try_reuse task k v) (Reused task)
  unfolding try_reuse
  try_reuse-Yields k v =
      Yields-option (parse_int v) (Yields-then _ _ (λ u. forgotten k))
        (λ source. reuse_from-Yields k source)

  prepare-Yields : (msg : TaskMsg) (k : Bytes) → Yields (prepare msg task k) (Reused task)
  unfolding prepare begin_revision find_completed
  prepare-Yields msg k =
      Yields-if (is_revision msg)
        (Yields-then _ _ (λ begun. Yields-if (not begun) (Yields-fail _) (forgotten k)))
        (Yields-then _ _ (λ value.
          Yields-option value (Yields-pure false (λ t e. absurd (cc e)))
            (λ source. try_reuse-Yields k source)))

  analyze_task-Yields :
      (msg : TaskMsg) (k : Bytes) → Yields (analyze_task msg task k) (λ o t. Did (IsWork task) t)
  unfolding analyze_task
  analyze_task-Yields msg k =
      Yields-map _ (λ b t d. Did-map _ (IsWork task) t (λ x (ok, is). (ok, inl is)) d)
        (Yields-then _ _
          (λ u. Yields-run_then (Call.analyze task) _ (λ v. conclude-Grows msg task k)))

  conclude-succeeds :
      (msg : TaskMsg) (k : Bytes) → Yields (conclude msg task k) (λ o t. o ≡ success)
  unfolding conclude
  conclude-succeeds msg k =
      let done = Yields-pure success (λ t. refl) in
      Yields-then _ _ (λ u. Yields-then _ _ (λ x. Yields-if (not x) (Yields-then _ _ (λ v. done)) (
        Yields-then _ _ (λ v. Yields-then _ _ (λ res.
          Yields-if (not res.found) done
            (Yields-option res.status done (λ s. Yields-then _ _ (λ w. done))))))))

  analyze_task-succeeds :
      (msg : TaskMsg) (k : Bytes) → Yields (analyze_task msg task k) (λ o t. o ≡ success)
  unfolding analyze_task
  analyze_task-succeeds msg k =
      Yields-then _ _ (λ u. Yields-then _ _ (λ v. conclude-succeeds msg k))

  module _ (lock_key : Bytes) where
    rest-Ended :
        (msg : TaskMsg) (k : Bytes) (reused : Bool) (env : Env) (t : Trace) (o : Outcome)
        → Reused task reused t
        → let m = if reused then pure success else analyze_task msg task k in
          (m env t).0 ≡ answer o → Ended task lock_key o (m env t).1
    unfolding pure
    rest-Ended msg k true env t o d e = inr (cc e, d refl)
    rest-Ended msg k false env t o d e =
        inr ((Yields-both _ (analyze_task-succeeds msg k) (analyze_task-Yields msg k)).at env t e)

    -- Behind the question whether the media is there.
    exists-Ended :
        (m : M Outcome)
        → Yields m (Ended task lock_key)
        → (x : Bool) (env : Env) (t : Trace) (o : Outcome)
        → Did (IsSaid (Call.exists task.media_id) x) t
        → let n = if not x then pure skipped else m in
          (n env t).0 ≡ answer o → Ended task lock_key o (n env t).1
    unfolding pure
    exists-Ended m y true env t o d e = y.at env t e
    exists-Ended m y false env t o d e =
        inl (cc e, Did-map _ _ t (λ x (ok, is, no_media). (ok, no_media, inl is)) d)

    process-Ended : (msg : TaskMsg) (k : Bytes) → Yields (process msg task k) (Ended task lock_key)
    unfolding process
    process-Ended msg k = Yields-bind _ _ (ask-Said _ _ _) (
        exists-Ended _
          (Yields-then _ _ (λ v. Yields-bind _ _ (prepare-Yields msg k) (rest-Ended msg k))))

-- The attempt behind the lock: how it ended well, or which call is to blame for a budget error.
abbrev pub Attempted : Task → Bytes → Attempt → Trace → Type 0
Attempted task lock_key a t =
    ((o : Outcome) → a.ended ≡ answer o → Ended task lock_key o t)
    × ((e : Error) → a.ended ≡ error e → has_kind e Kind.budget_exhausted ≡ true → Did IsOver t)

module _ (msg : TaskMsg) (task : Task) (lock_key : Bytes) where
  under_lock-Attempted :
      (k : Bytes) (got : Answer Bool) (env : Env) (t : Trace) (b : Attempt)
      → ((x : Bool) → got ≡ answer x → Did (IsSaid (Call.try_lock lock_key) x) t)
        × ((e : Error) → got ≡ error e → has_kind e Kind.budget_exhausted ≡ true → Did IsOver t)
      → (under_lock msg task k got env t).0 ≡ answer b
      → Attempted task lock_key b (under_lock msg task k got env t).1
  unfolding under_lock pure
  under_lock-Attempted k (error e) env t b (said, blame) h =
      subst (λ a. Attempted task lock_key a t) (answer_injective h)
        (λ o q. absurd (cc q), λ x q. blame x (cc q))
  under_lock-Attempted k (answer false) env t b (said, blame) h =
      subst (λ a. Attempted task lock_key a t) (answer_injective h)
        (
          λ o q. inl (
            sym (answer_injective q),
            Did-map _ _ t (λ x (ok, is, taken). (ok, taken, inr is)) (said false refl),
          ),
          λ x q. absurd (cc q),
        )
  under_lock-Attempted k (answer true) env t b (said, blame) h =
      (Yields-bind _ _
          (Yields-both _ (Yields-outcome_of _ (process-Ended task lock_key msg k))
            (Blames-outcome_of _ (process-Blames msg task k)))
          (λ r env t b p e.
            unfold pure in subst (λ a. Attempted task lock_key a t) (answer_injective e) p)).at
        env t h

  pub locked_body-Attempted :
      (completed_key : Bytes)
      → Yields (locked_body msg task lock_key completed_key) (Attempted task lock_key)
  unfolding locked_body
  locked_body-Attempted completed_key =
      Yields-bind _ _
        (Yields-both _ (Yields-outcome_of _ (ask-Said _ _ _))
          (Blames-outcome_of _ (search blames_rules)))
        (under_lock-Attempted completed_key)
