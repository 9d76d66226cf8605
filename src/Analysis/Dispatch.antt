-- ===== src/Analysis/Dispatch.antt =====
-- server-go/internal/analysis/dispatch.go: the submission of a task. Each service is called once at
-- most, so its answer is one value; the calls that were made are a list, oldest first. The spend
-- check is that of server-go/internal/billing/billing.go.
pub mod Submission
use vparser.Prelude.{
  ℕ, Bool, true, false, not, ◌&&◌, ◌||◌, Option, none, some, List, [], ◌∷◌, ◌++◌, ltb, leb,
  if◌then◌else◌,
}
use vparser.Prelude.Int.{ℤ}
use vparser.Go.Bytes.{Bytes, lit}
use vparser.Go.Decimal.{format_int}
use vparser.Errors.{
  Error, business_error, code_quota_exhausted, code_service_unavailable, code_rate_limited,
}
use vparser.Model.{
  Mode, resolve, TaskMsg, new_msg, action_start, action_revise, State, Status, status_of, Stage,
}
use vparser.TaskKeys
use vparser.TaskKeys.{Digest, digest, invalid, goal_digest, normalize_content_hash}
use vparser.Mq.Effects.{Answer, answer, error}

pub data SubmissionResult : Type 0 where
  accepted rate_limited duplicate failed : SubmissionResult

-- The calls of a submission, and of the replay of a failed task.
pub data Call : Type 0 where
  set_nx del : Bytes → Call
  take_quota : ℤ → Call
  stage_revision cancel_revision : ℤ → Bytes → Mode → Call
  publish_task : TaskMsg → Call
  mark_requeued : ℤ → Call
  publish_event : ℤ → Bytes → Mode → Status → Stage → Call

-- What the services answer; an answer that is not asked for counts for nothing. The amounts are in
-- the ledger's unit.
pub record Services : Type 0 where
  pub spent : Answer ℕ
  pub content_hash : Answer Bytes
  pub set_nx : Answer Bool
  pub quota : Answer Bool
  pub staged : Option Error
  pub published : Option Error

-- `Ledger`: the limit per day, 0 for none, and the users without a limit.
pub record Ledger : Type 0 where
  pub limit : ℕ
  pub unlimited : ℤ → Bool

-- `Limited`; no ledger limits nobody.
unfoldable pub limited : Option Ledger → ℤ → Bool
limited none uid = false
limited (some l) uid = ltb 0 l.limit && not (l.unlimited uid)

abbrev limit_of : Option Ledger → ℕ
limit_of none = 0
limit_of (some l) = l.limit

-- `Check`: a user over the limit is refused; a ledger that cannot be read lets everybody through.
unfoldable pub check : Option Ledger → ℤ → Answer ℕ → Option Error
check l uid spent = if not (limited l uid) then none else elim spent [
  | error e ↦ none
  | answer n ↦
      if leb (limit_of l) n
      then some (business_error code_quota_exhausted (lit "这个账号今天的 AI 额度已用完，明天再来，或联系作者获取内测账号"))
      else none
]

abbrev pub Submitted : Type 0
Submitted = Answer SubmissionResult × List Call

abbrev cons : Call → Submitted → Submitted
cons c (r, calls) = (r, c ∷ calls)

-- A submission of `goal` for the media of a user; `revision` says whether there is feedback.
pub record Request : Type 0 where
  pub media_id : ℤ
  pub user_id : ℤ
  pub goal : Bytes
  pub revision : Bool
  pub mode : Mode

-- `fail`: the key is free again, and a staged revision is given up.
abort : Request → Bytes → Submitted
abort r key = (
  answer failed,
  Call.del key ∷ (if r.revision then Call.cancel_revision r.media_id r.goal r.mode ∷ [] else []),
)

abbrev message_of : Request → Bytes → TaskMsg
message_of r content_hash =
    new_msg r.media_id (if r.revision then action_revise else action_start) content_hash r.goal
      r.mode

enqueue : Services → Request → Bytes → Bytes → Submitted
unfolding abort
enqueue sv r content_hash key =
    cons (Call.publish_task (message_of r content_hash)) (elim sv.published [
      | some e ↦ abort r key
      | none ↦ (
        answer accepted,
        Call.publish_event r.media_id r.goal r.mode (status_of State.queued (lit "任务已进入异步分析队列"))
              Stage.queued
            ∷ [],
      )
    ])

stage : Services → Request → Bytes → Bytes → Submitted
unfolding abort enqueue
stage sv r content_hash key =
    if r.revision
    then cons (Call.stage_revision r.media_id r.goal r.mode)
        (elim sv.staged [ some e ↦ abort r key | none ↦ enqueue sv r content_hash key ])
    else enqueue sv r content_hash key

charge : Services → Request → Bytes → Bytes → Submitted
unfolding abort stage
charge sv r content_hash key = cons (Call.take_quota r.user_id) (elim sv.quota [
  | error e ↦ abort r key
  | answer ok ↦ if ok then stage sv r content_hash key else (answer rate_limited, Call.del key ∷ [])
])

claim : Services → Request → Bytes → Bytes → Submitted
unfolding charge
claim sv r content_hash key = cons (Call.set_nx key) (elim sv.set_nx [
  | error e ↦ (error e, [])
  | answer ok ↦ if ok then charge sv r content_hash key else (answer duplicate, [])
])

media_scope : ℤ → Bytes
media_scope id = lit "media-" ++ format_int id

-- The content hash of a revision is that of the media alone.
hash_of : Services → Request → Answer Bytes
unfolding media_scope
hash_of sv r =
    if r.revision then answer (lit "media-" ++ format_int r.media_id) else elim sv.content_hash [
      | error e ↦ error e
      | answer h ↦ answer (normalize_content_hash r.media_id h)
    ]

module _ (sha256_hex : Bytes → Bytes) where
  claim_digest : Services → Request → Bytes → Digest → Submitted
  unfolding claim
  claim_digest sv r content_hash (invalid e) = (error e, [])
  claim_digest sv r content_hash (digest d) =
      claim sv r content_hash (TaskKeys.active content_hash d)

  -- `Submit`.
  unfoldable pub submit : Option Ledger → Services → Request → Submitted
  unfolding hash_of claim_digest
  submit ledger sv request =
      let r = record request { mode = resolve request.mode } in
      elim (check ledger r.user_id sv.spent) [
        | some e ↦ (error e, [])
        | none ↦ elim (hash_of sv r) [
          | error e ↦ (error e, [])
          | answer h ↦ claim_digest sv r h (goal_digest sha256_hex r.goal r.mode)
        ]
      ]

active_in : (Bytes → Bool) → ℤ → Answer Bytes → Digest → Answer Bool
unfolding media_scope
active_in keys id content_hash (invalid e) = error e
active_in keys id content_hash (digest d) = elim content_hash [
  | error e ↦ error e
  | answer h ↦ answer (
      keys (TaskKeys.active (normalize_content_hash id h) d)
      || keys (TaskKeys.active (media_scope id) d))
]

-- `IsActive`, where `keys` are the keys that are there.
unfoldable pub is_active :
    (Bytes → Bytes) → (Bytes → Bool) → Answer Bytes → ℤ → Bytes → Mode → Answer Bool
unfolding active_in
is_active sha256_hex keys content_hash id goal mode =
    active_in keys id content_hash (goal_digest sha256_hex goal mode)

-- `RequireAiQuota`.
unfoldable pub require_ai_quota : Option Ledger → Services → ℤ → Option Error
require_ai_quota ledger sv user_id = elim (check ledger user_id sv.spent) [
  | some e ↦ some e
  | none ↦ elim sv.quota [
    | error e ↦ some (business_error code_service_unavailable (lit "AI 服务限流器暂不可用，请稍后再试"))
    | answer ok ↦
        if ok then none else some (business_error code_rate_limited (lit "AI 请求过于频繁，请稍后再试"))
  ]
]

is_error : Answer SubmissionResult → Bool
is_error (error e) = true
is_error (answer failed) = true
is_error r = false

-- `submitLabel`.
unfoldable pub submit_label : Answer SubmissionResult → Bytes
unfolding is_error
submit_label (answer duplicate) = lit "duplicate"
submit_label (answer rate_limited) = lit "rate_limited"
submit_label r = if is_error r then lit "error" else lit "accepted"
