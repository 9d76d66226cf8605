-- ===== src/Analysis/Status.antt =====
-- server-go/internal/analysis/status.go: where an analysis is, from the result, the checkpoint of its
-- stage and the active key, in that order. The agent's answer is the result of the one call of it.
pub mod Shown
use vparser.Prelude.{Bool, true, false, ◌||◌, Option, none, some, if◌then◌else◌}
use vparser.Prelude.Int.{ℤ}
use vparser.Go.Bytes.{Bytes, lit}
use vparser.Model.{Mode, Stage, State, Status, status_of}
use vparser.Mq.Effects.{Answer, answer, error, Found}
use vparser.Checkpoint.{Stores, Links}
use vparser.Checkpoint.Stages.{load_stage, is_unknown}
use vparser.Checkpoint.Context.{has_result}
use vparser.Analysis.Dispatch.{is_active}

abbrev pub of_found : Answer Found → Answer (Option Found)
of_found (error e) = error e
of_found (answer f) = answer (if f.found then some f else none)

-- The agent is asked only if there is a checkpoint of the result.
abbrev pub result_if : Answer Bool → Answer Found → Answer (Option Found)
result_if (error e) asked = error e
result_if (answer false) asked = answer none
result_if (answer true) asked = of_found asked

-- `StatusMessage`; the first clause is also that of the empty stage.
unfoldable pub status_message : Stage → Bytes
status_message Stage.unknown = lit "任务已排队"
status_message Stage.queued = lit "任务已排队"
status_message Stage.video_context = lit "正在解析视频语音和关键画面"
status_message Stage.context_completed = lit "正在解析视频语音和关键画面"
status_message Stage.chunks_completed = lit "正在检索与目标相关的视频证据"
status_message Stage.plan_completed = lit "Planner 已完成任务拆解"
status_message Stage.executor_started = lit "Executor 正在生成结构化产物"
status_message Stage.executor_completed = lit "Executor 正在生成结构化产物"
status_message Stage.critic_started = lit "Critic 正在核验结论和证据"
status_message Stage.critic_retry_required = lit "正在根据 Critic 反馈补充证据"
status_message Stage.evidence_refreshed = lit "正在根据 Critic 反馈补充证据"
status_message Stage.retrying = lit "任务执行异常，正在自动重试"
status_message s = lit "正在分析视频"

-- The status of a task that has a key.
abbrev pub in_progress : Stage → Status
in_progress stage =
    status_of (if is_unknown stage then State.queued else State.processing) (status_message stage)

-- The status of a task that has none.
unfoldable pub at_rest : Stage → Status
at_rest Stage.budget_exhausted = status_of State.failed (lit "Agent 已达到本次任务预算，请调整目标后重试")
at_rest Stage.failed = status_of State.failed (lit "分析失败，请稍后重试")
at_rest Stage.dead_lettered = status_of State.failed (lit "分析失败，请稍后重试")
at_rest s = status_of State.not_started (lit "尚未提交分析任务")

abbrev pub of_active : Stage → Answer Bool → Answer Status
of_active stage (error e) = error e
of_active stage (answer active) = answer (if active then in_progress stage else at_rest stage)

abbrev pub of_stage : Answer Stage → Answer Bool → Answer Status
of_stage (error e) active = error e
of_stage (answer stage) active = of_active stage active

-- The stage and the key are read only if the result has no status.
abbrev pub of_status :
    Stores → Answer Stage × Stores → Answer Bool → Option Status → Answer Status × Stores
of_status s loaded active (some status) = (answer status, s)
of_status s (stage, s') active none = (of_stage stage active, s')

abbrev status_in : Option Found → Option Status
status_in none = none
status_in (some f) = f.status

abbrev pub of_result :
    Stores → Answer Stage × Stores → Answer Bool → Answer (Option Found) → Answer Status × Stores
of_result s loaded active (error e) = (error e, s)
of_result s loaded active (answer found) = of_status s loaded active (status_in found)

-- What one status query meets: the reads of the two checkpoints, the agent, the keys of Redis and the
-- media's content hash.
pub record Calls : Type 0 where
  pub result_links : Links
  pub stage_links : Links
  pub asked : Answer Found
  pub keys : Bytes → Bool
  pub content_hash : Answer Bytes

module _ (sha256_hex : Bytes → Bytes) (a : Calls) (s : Stores) (media_id : ℤ) (goal : Bytes)
    (mode : Mode) where
  -- `LoadResult`.
  unfoldable pub load_result : Answer (Option Found)
  load_result = result_if (has_result sha256_hex a.result_links s media_id goal mode) a.asked

  -- `Current`.
  unfoldable pub current : Answer Status × Stores
  unfolding load_result
  current =
      of_result s (load_stage sha256_hex a.stage_links s media_id goal mode)
        (is_active sha256_hex a.keys a.content_hash media_id goal mode) load_result
