-- ===== src/Mq/Consumer.antt =====
-- server-go/internal/mq/consumer.go: one attempt at a task, under its lock. Logs, metrics and
-- contexts are left out; a call that a cancelled context stops is a call that fails.
pub mod Work
use vparser.Prelude.{Bool, true, false, not, ◌&&◌, Option, none, some, [], if◌then◌else◌}
use vparser.Prelude.Int.{ℤ}
use vparser.Go.Bytes.{Bytes, lit}
use vparser.Go.Decimal.{format_int, parse_int}
use vparser.Errors.{Kind, of_kind}
use vparser.Model.{Stage, State, Status, status_of, TaskMsg, is_revision}
use vparser.Mq.Effects.{
  Task, Call, Answer, answer, error, M, pure, fail, ask, outcome_of, ◌>>=◌, ◌>>◌, run, attempt,
}

pub data Outcome : Type 0 where
  success skipped retried dead_lettered over_budget poisoned : Outcome

abbrev or_else : Option Status → Option Status → Option Status
or_else none other = other
or_else (some s) other = some s

-- `tryReuse`, from the media that the completed key names.
reuse_from : Task → Bytes → ℤ → M Bool
reuse_from task completed_key source = do
  src ←
      ask (Call.result (record task { media_id = source })) (λ r. r.found)
        (λ env t. env.found t (record task { media_id = source }))
  if not src.found then (run (Call.delete completed_key) >> pure false) else do
    reused ← ask (Call.reuse task source) (λ r. r.found) (λ env t. env.reused t task source)
    if not reused.found
        then (run (Call.delete completed_key) >> pure false)
        else elim (or_else reused.status src.status) [
          | none ↦ pure true
          | some s ↦ run (Call.publish task s Stage.completed_reused) >> pure true
        ]

unfoldable pub try_reuse : Task → Bytes → Bytes → M Bool
unfolding reuse_from
try_reuse task completed_key completed_media_id = elim (parse_int completed_media_id) [
  | none ↦ attempt (Call.delete completed_key) >> (run (Call.delete completed_key) >> pure false)
  | some source ↦ reuse_from task completed_key source
]

begin_revision : Task → Bytes → M Bool
begin_revision task completed_key = do
  begun ← ask (Call.begin_revision task) (λ b. b) (λ env t. env.begun t task)
  if not begun
      then fail (of_kind Kind.internal (lit "修订任务状态不存在，等待重试") [])
      else (run (Call.delete completed_key) >> pure false)

find_completed : Task → Bytes → M Bool
find_completed task completed_key = do
  value ← ask (Call.get completed_key) (λ v. true) (λ env t. env.value t completed_key)
  elim value [ none ↦ pure false | some source ↦ try_reuse task completed_key source ]

-- A revision is begun, and the old result forgotten; the result of a first analysis may be there
-- already, which `true` says.
unfoldable pub prepare : TaskMsg → Task → Bytes → M Bool
unfolding begin_revision find_completed
prepare msg task completed_key =
    if is_revision msg then begin_revision task completed_key else find_completed task completed_key

-- Behind the analysis: the result is recorded and announced, unless the media is gone.
unfoldable pub conclude : TaskMsg → Task → Bytes → M Outcome
conclude msg task completed_key = do
  if is_revision msg then run (Call.complete_revision task) else pure tt
  exists ← ask (Call.exists task.media_id) (λ b. b) (λ env t. env.exists t task.media_id)
  if not exists then (attempt (Call.purge task.media_id) >> pure success) else do
    run (Call.store completed_key (format_int task.media_id))
    res ← ask (Call.result task) (λ r. r.found) (λ env t. env.found t task)
    if not res.found then pure success else elim res.status [
      | none ↦ pure success
      | some s ↦ run (Call.publish task s Stage.completed) >> pure success
    ]

-- The analysis itself, and what follows it.
analyze_task : TaskMsg → Task → Bytes → M Outcome
analyze_task msg task completed_key = do
  attempt (Call.save_stage task Stage.consuming)
  run (Call.analyze task)
  conclude msg task completed_key

-- `process`: one attempt while the task's lock is held.
unfoldable pub process : TaskMsg → Task → Bytes → M Outcome
unfolding analyze_task
process msg task completed_key = do
  exists ← ask (Call.exists task.media_id) (λ b. b) (λ env t. env.exists t task.media_id)
  if not exists then pure skipped else do
    run (Call.publish task (status_of State.processing (lit "视频分析任务开始执行")) Stage.consuming)
    reused ← prepare msg task completed_key
    if reused then pure success else analyze_task msg task completed_key

-- What the attempt did: whether the lock was taken, and how it ended.
pub record Attempt : Type 0 where
  pub locked : Bool
  pub ended : Answer Outcome

-- What follows the call that takes the lock. When another worker has the lock, its outcome covers
-- this delivery.
under_lock : TaskMsg → Task → Bytes → Answer Bool → M Attempt
under_lock msg task completed_key (error e) = pure (record { locked = false; ended = error e })
under_lock msg task completed_key (answer ok) =
    if ok
    then (do
      r ← outcome_of (process msg task completed_key)
      pure (record { locked = true; ended = r }))
    else pure (record { locked = false; ended = answer skipped })

-- The body of `Handle` with the lock.
unfoldable pub locked_body : TaskMsg → Task → Bytes → Bytes → M Attempt
unfolding under_lock
locked_body msg task lock_key completed_key = do
  got ← outcome_of (ask (Call.try_lock lock_key) (λ b. b) (λ env t. env.locked t lock_key))
  under_lock msg task completed_key got

-- The deferred unlock.
unfoldable pub release_lock : Bytes → Bool → M (Unit {0})
release_lock lock_key locked env t =
    if locked && env.held t then attempt (Call.unlock lock_key) env t else (answer tt, t)
