-- ===== src/Analysis/FailedTask.antt =====
-- server-go/internal/analysis/failedtask.go: the ledger of failed tasks and the replay of its rows.
-- Each service is called once at most, as in a submission. The times of a row are left out.
pub mod Replay
use vparser.Prelude.{
  ℕ, Bool, true, false, not, ◌||◌, Option, none, some, List, [], ◌∷◌, zero, suc, ◌==◌,
  if◌then◌else◌,
}
use vparser.Prelude.Int.{ℤ, negsuc}
use vparser.Go.Bytes.{Bytes, lit, bytes_eq}
use vparser.Go.Text.{is_blank}
use vparser.Errors.{Error, Kind, of_kind, code_of, root_cause, message}
use vparser.Model.{
  Mode, mode_name, mode_from_nullable, TaskMsg, new_msg, is_supported_action, State, status_of,
  Stage, or_empty,
}
use vparser.TaskKeys
use vparser.TaskKeys.{Digest, digest, invalid, goal_digest, normalize_content_hash}
use vparser.Mq.Effects.{Answer, answer, error}
use vparser.Analysis.Sanitize.{truncate_utf16, sanitize_error}
use vparser.Analysis.Dispatch.{Call}

-- `FailedAnalysisTask`.
pub record Row : Type 0 where
  pub media_id : ℤ
  pub action : Bytes
  pub mode : Bytes
  pub content_hash : Bytes
  pub user_goal : Bytes
  pub attempt_count : ℕ
  pub error_type : Bytes
  pub error_message : Option Bytes
  pub status : Bytes

abbrev pub unknown_media_id : ℤ
unknown_media_id = negsuc 0

unfoldable pub column : Bytes → Bytes → ℕ → Bytes
column value fallback max_len = truncate_utf16 (if is_blank value then fallback else value) max_len

abbrev or_unknown : Option ℤ → ℤ
or_unknown none = unknown_media_id
or_unknown (some id) = id

-- `Record`: the row that is inserted.
unfoldable pub record_row : (Bytes → Bytes) → TaskMsg → ℕ → Error → Row
record_row mask msg attempts cause = record {
  media_id = or_unknown msg.media_id;
  action = column (or_empty msg.action) (lit "UNKNOWN") 32;
  mode = mode_name (mode_from_nullable (or_empty msg.mode));
  content_hash = column (or_empty msg.content_hash) (lit "unknown") 128;
  user_goal = column (or_empty msg.user_goal) (lit "(消息缺少分析目标)") 500;
  attempt_count = attempts;
  error_type = column (code_of cause) (lit "UNKNOWN") 128;
  error_message = elim (root_cause cause) [
    | none ↦ none
    | some c ↦ some (sanitize_error mask (message c))
  ];
  status = lit "FAILED";
}

abbrev is_unknown : ℤ → Bool
is_unknown (negsuc n) = n == 0
is_unknown id = false

unfoldable pub is_placeholder_record : Row → Bool
is_placeholder_record row = is_unknown row.media_id || not (is_supported_action row.action)

-- What the services answer to a replay.
pub record Services : Type 0 where
  pub row : Answer (Option Row)
  pub set_nx : Answer Bool
  pub published : Option Error
  pub requeued : Answer ℕ

-- The error and the calls of a replay.
abbrev pub Replayed : Type 0
Replayed = Option Error × List Call

abbrev cons : Call → Replayed → Replayed
cons c (e, calls) = (e, c ∷ calls)

abbrev reject : Bytes → Replayed
reject text = (some (of_kind Kind.invalid_argument text []), [])

-- The message is out: the key stays, whatever the ledger says.
requeue : Services → ℤ → Row → Mode → Replayed
requeue sv id row mode = cons (Call.mark_requeued id) (elim sv.requeued [
  | error e ↦ (some e, [])
  | answer n ↦
      if n == 1
      then (
        none,
        Call.publish_event row.media_id row.user_goal mode
              (status_of State.queued (lit "失败任务已由管理员重新入队")) Stage.manual_replay
            ∷ [],
      )
      else (some (of_kind Kind.internal (lit "失败任务重放台账更新失败") []), [])
])

dispatch : Services → ℤ → Row → Mode → Bytes → Bytes → Replayed
unfolding requeue
dispatch sv id row mode content_hash key =
    cons (Call.publish_task (new_msg row.media_id row.action content_hash row.user_goal mode))
      (elim sv.published [ some e ↦ (some e, Call.del key ∷ []) | none ↦ requeue sv id row mode ])

claim : Services → ℤ → Row → Mode → Bytes → Digest → Replayed
unfolding dispatch
claim sv id row mode content_hash (invalid e) = (some e, [])
claim sv id row mode content_hash (digest d) =
    let key = TaskKeys.active content_hash d in
    cons (Call.set_nx key) (elim sv.set_nx [
      | error e ↦ (some e, [])
      | answer ok ↦
          if ok then dispatch sv id row mode content_hash key else reject (lit "相同任务正在处理中")
    ])

module _ (sha256_hex : Bytes → Bytes) where
  replay_row : Services → ℤ → Row → Replayed
  unfolding claim
  replay_row sv id row =
      let mode = mode_from_nullable row.mode in
      if not (bytes_eq row.status (lit "FAILED"))
      then reject (lit "该失败任务已经重放")
      else if is_placeholder_record row
      then reject (lit "该记录来自非法任务消息，缺少可重放的原始参数")
      else claim sv id row mode (normalize_content_hash row.media_id row.content_hash)
          (goal_digest sha256_hex row.user_goal mode)

  -- `Replay`.
  unfoldable pub replay : Services → ℤ → Replayed
  unfolding replay_row
  replay sv id = elim sv.row [
    | error e ↦ (some e, [])
    | answer found ↦ elim found [
      | none ↦ (some (of_kind Kind.not_found (lit "失败任务不存在") []), [])
      | some row ↦ replay_row sv id row
    ]
  ]
