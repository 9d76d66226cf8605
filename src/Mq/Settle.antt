-- ===== src/Mq/Settle.antt =====
-- server-go/internal/mq/consumer.go: where a delivery goes when its attempt has ended.
pub mod Routes
pub mod Limits
pub mod Schedule
use vparser.Prelude.{ℕ, ◌+◌, none, some, [], ◌∷◌, ◌++◌, max, if◌then◌else◌}
use vparser.Go.Bytes.{Bytes, lit}
use vparser.Go.Text.{is_blank, is_empty}
use vparser.Errors.{Error, Kind, typed, has_kind, code_of, describe, is_permanent_failure}
use vparser.Model.{Stage, State, status_of, TaskMsg}
use vparser.Analysis.Sanitize.{sanitize_error}
use vparser.Mq.Routing.{Topic, Reason, reason_name, retry, dead, route_failure}
use vparser.Mq.Headers.{Message, Delivery, header_dlq_reason, task_headers}
use vparser.Mq.Effects.{Task, Call, answer, error, M, pure, ◌>>◌, run, attempt}
use vparser.Mq.Consumer.{Outcome, retried, dead_lettered, over_budget, Attempt}

unfoldable pub dead_letter : Delivery → ℕ → Bytes → Reason → M (Unit {0})
dead_letter d attempt_no first_error reason = run (
    Call.produce (record {
      topic = Topic.dlq;
      key = d.key;
      value = d.value;
      headers =
          task_headers attempt_no none first_error ((header_dlq_reason, reason_name reason) ∷ []);
    }))

-- `budgetMessage`: the message of the outermost budget error.
budget_text : Error → Bytes
budget_text [] = []
budget_text (typed Kind.budget_exhausted code msg ∷ e) = msg
budget_text (c ∷ e) = budget_text e

unfoldable pub budget_message : Error → Bytes
unfolding budget_text
budget_message e = if is_blank (budget_text e) then lit "Agent 已达到本次任务预算" else budget_text e

-- Stage and event of a task that goes on or has ended, both best effort.
unfoldable pub announce : Task → State → Bytes → Stage → M (Unit {0})
announce task state text stage =
    attempt (Call.save_stage task stage) >> attempt (Call.publish task (status_of state text) stage)

forward_message : Task → Bytes → Message → M Outcome
forward_message task active_key m = do
  run (Call.produce m)
  attempt (Call.expire active_key)
  announce task State.processing (lit "本次执行失败，等待自动重试") Stage.retrying
  pure retried

module _ (mask : Bytes → Bytes) where
  unfoldable pub first_error_of : Delivery → Error → Bytes
  first_error_of d e =
      if is_empty d.first_error
      then code_of e ++ (lit ": " ++ sanitize_error mask (describe e))
      else d.first_error

  -- The record that goes to a retry topic.
  unfoldable pub retry_message : Delivery → ℕ → Topic → ℕ → Bytes → ℕ → Message
  retry_message d attempt_no topic delay first_error now = record {
    topic = topic;
    key = d.key;
    value = d.value;
    headers = task_headers (attempt_no + 1) (some (now + delay)) first_error [];
  }

  unfoldable pub forward_retry : Delivery → Task → Bytes → ℕ → Topic → ℕ → Bytes → M Outcome
  unfolding forward_message
  forward_retry d task active_key attempt_no topic delay first_error env t =
      let m = retry_message d attempt_no topic delay first_error (env.now t) in
      forward_message task active_key m env t

  unfoldable pub bury : Delivery → TaskMsg → Task → Bytes → ℕ → Reason → Bytes → Error → M Outcome
  bury d msg task active_key attempt_no reason first_error e = do
    attempt (Call.record_failure msg attempt_no e)
    dead_letter d attempt_no first_error reason
    attempt (Call.delete active_key)
    announce task State.failed (lit "分析失败，已进入人工处理队列") Stage.dead_lettered
    pure dead_lettered

  unfoldable pub route_error : Delivery → TaskMsg → Task → Bytes → Error → M Outcome
  route_error d msg task active_key e =
      let attempt_no = max d.attempt 1 in
      elim (route_failure (is_permanent_failure e) attempt_no) [
        | retry topic delay ↦
            forward_retry d task active_key attempt_no topic delay (first_error_of d e)
        | dead reason ↦ bury d msg task active_key attempt_no reason (first_error_of d e) e
      ]

  -- `Handle` behind the body.
  unfoldable pub settle : Delivery → TaskMsg → Task → Bytes → Attempt → M Outcome
  settle d msg task active_key a = elim a.ended [
    | answer o ↦ if a.locked then (attempt (Call.delete active_key) >> pure o) else pure o
    | error e ↦
        if has_kind e Kind.budget_exhausted
        then (attempt (Call.delete active_key)
            >> announce task State.failed (budget_message e) Stage.budget_exhausted
            >> pure over_budget)
        else route_error d msg task active_key e
  ]
