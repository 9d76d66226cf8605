-- ===== src/Mq/Handle.antt =====
-- server-go/internal/mq/consumer.go: `Handle`, with the messages that it refuses.
pub mod Delivered
use vparser.Prelude.{
  ℕ, ◌+◌, Bool, true, false, not, ◌&&◌, Option, none, some, [], ◌∷◌, ◌++◌, max, if◌then◌else◌,
}
use vparser.Prelude.Int.{ℤ}
use vparser.Go.Bytes.{Bytes, lit}
use vparser.Go.Decimal.{format_int, parse_int}
use vparser.Go.Text.{is_blank, is_empty}
use vparser.Errors.{
  Error, Kind, Cause, typed, of_kind, has_kind, message, kind_of, code_of, describe,
  is_permanent_failure,
}
use vparser.Model.{
  Mode, mode_from_nullable, Stage, State, Status, status_of, TaskMsg, empty_msg, is_revision,
  has_supported_action, or_empty,
}
use vparser.TaskKeys
use vparser.TaskKeys.{Digest, digest, invalid, goal_digest, normalize_content_hash}
use vparser.Analysis.Sanitize.{sanitize_error}
use vparser.Mq.Routing.{Topic, Reason, reason_name, Route, retry, dead, route_failure}
use vparser.Mq.Headers.{Message, Delivery, header_dlq_reason, task_headers}
use vparser.Mq.Effects.{
  Task, Call, Answer, answer, error, Found, Env, M, pure, fail, ask, outcome_of, succeeds,
  of_answer, ◌>>=◌, ◌>>◌, run, attempt,
}
use vparser.Mq.Consumer.{
  Outcome, success, skipped, retried, dead_lettered, over_budget, poisoned, Attempt, locked_body,
  release_lock,
}
use vparser.Mq.Settle.{dead_letter, announce, settle}

abbrev or_null : Option Bytes → Bytes
or_null none = lit "null"
or_null (some s) = s

-- Why a message is refused; empty if it is acceptable.
unfoldable pub rejection_reason : Option TaskMsg → Bytes
rejection_reason none = lit "消息体为空"
rejection_reason (some m) = elim m.media_id [
  | none ↦ lit "缺少 mediaId"
  | some id ↦
      if is_blank (or_empty m.user_goal)
      then lit "缺少分析目标"
      else if not (has_supported_action m)
      then lit "不支持的 action=" ++ or_null m.action
      else []
]

-- Why a delivery is refused; empty if it is acceptable.
unfoldable pub refusal : Delivery → Bytes
refusal d = elim d.decode_err [ none ↦ rejection_reason d.msg | some e ↦ lit "消息无法解析: " ++ e ]

-- `Error()`.
unfoldable pub error_text : Error → Bytes
error_text [] = []
error_text (c ∷ e) = message c

abbrev or_empty_msg : Option TaskMsg → TaskMsg
or_empty_msg none = empty_msg
or_empty_msg (some m) = m

abbrev pub task_of : ℤ → Bytes → Mode → Task
task_of id goal mode = record { media_id = id; goal = goal; mode = mode }

-- `releasePoisonTaskState`, as far as the message names a task.
release_digest : TaskMsg → ℤ → Bytes → Mode → Digest → M (Unit {0})
release_digest msg id goal mode (invalid e) = pure tt
release_digest msg id goal mode (digest d) = do
  let content_hash = normalize_content_hash id (or_empty msg.content_hash)
  gone ← succeeds (run (Call.delete (TaskKeys.active content_hash d)))
  let task = task_of id goal mode
  if gone then announce task State.failed (lit "任务消息非法，已终止") Stage.dead_lettered else pure tt

module _ (sha256_hex : Bytes → Bytes) where
  unfoldable pub release_poison : TaskMsg → M (Unit {0})
  unfolding release_digest
  release_poison msg = elim msg.media_id [
    | none ↦ pure tt
    | some id ↦
        let goal = or_empty msg.user_goal in
        let mode = mode_from_nullable (or_empty msg.mode) in
        if is_blank goal
        then pure tt
        else release_digest msg id goal mode (goal_digest sha256_hex goal mode)
  ]

  unfoldable pub discard_poison : Delivery → Bytes → M Outcome
  discard_poison d reason = do
    let msg = or_empty_msg d.msg
    let cause = of_kind Kind.invalid_argument (lit "invalid video analysis message: " ++ reason) []
    recorded ← succeeds (run (Call.record_failure msg 0 cause))
    buried ← succeeds (dead_letter d d.attempt (lit "INVALID_ARGUMENT: " ++ reason) Reason.poison)
    if not recorded && not buried
        then fail (of_kind Kind.internal (lit "毒消息无法收敛：失败台账与死信主题均不可用，暂不提交位点") cause)
        else (release_poison msg >> pure poisoned)

  module _ (mask : Bytes → Bytes) where
    unfoldable pub handle_task : Delivery → TaskMsg → ℤ → Bytes → Mode → Bytes → M Outcome
    handle_task d msg id goal mode dg = do
      let content_hash = normalize_content_hash id (or_empty msg.content_hash)
      let task = task_of id goal mode
      let lock_key = TaskKeys.lock content_hash dg
      a ← locked_body msg task lock_key (TaskKeys.completed content_hash dg)
      r ← outcome_of (settle mask d msg task (TaskKeys.active content_hash dg) a)
      release_lock lock_key a.locked
      of_answer r

    handle_digest : Delivery → TaskMsg → ℤ → Bytes → Mode → Digest → M Outcome
    handle_digest d msg id goal mode (invalid e) = discard_poison d (error_text e)
    handle_digest d msg id goal mode (digest dg) = handle_task d msg id goal mode dg

    -- The message is not nil, and has a media and a goal, where no reason refuses it.
    handle_accepted : Delivery → Option TaskMsg → M Outcome
    unfolding handle_digest
    handle_accepted d none = discard_poison d []
    handle_accepted d (some msg) = elim msg.media_id [
      | none ↦ discard_poison d []
      | some id ↦
          let goal = or_empty msg.user_goal in
          let mode = mode_from_nullable (or_empty msg.mode) in
          handle_digest d msg id goal mode (goal_digest sha256_hex goal mode)
    ]

    -- `Handle`: an error means that the delivery was not handled, and is to be tried again.
    unfoldable pub handle : Delivery → M Outcome
    unfolding handle_accepted
    handle d =
        let reason = refusal d in
        if is_empty reason then handle_accepted d d.msg else discard_poison d reason
