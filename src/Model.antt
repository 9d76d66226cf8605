-- ===== src/Model.antt =====
-- server-go/internal/model/enums.go and the messages and statuses of server-go/internal/model/dto.go.
-- A value of a Go string type that is none of its constants does not arise in the modelled code; the
-- empty one is `unset` or `unknown`.
pub mod Names
use vparser.Prelude.{
  ℕ, ◌-◌, Bool, true, false, ◌&&◌, ◌||◌, Option, none, some, List, [], ◌∷◌, ◌++◌, leb, ◌==◌,
  if◌then◌else◌, String,
}
use vparser.Prelude.Int.{ℤ}
use vparser.Go.Bytes.{Bytes, lit, bytes_eq}
use vparser.Go.Text.{trim_space, is_blank}
use vparser.Errors.{Error, Kind, of_kind}

pub data Mode : Type 0 where
  unset general learning review creation : Mode

unfoldable pub mode_name : Mode → Bytes
mode_name Mode.unset = []
mode_name Mode.general = lit "GENERAL"
mode_name Mode.learning = lit "LEARNING"
mode_name Mode.review = lit "REVIEW"
mode_name Mode.creation = lit "CREATION"

-- `strings.ToUpper`, as far as the result can be ASCII: besides a to z, the dotless i and the long s
-- have capitals in ASCII.
unfoldable pub to_upper : Bytes → Bytes
to_upper [] = []
to_upper (a ∷ []) = (if leb b'a' a && leb a b'z' then a - 32 else a) ∷ []
to_upper (a ∷ b ∷ s) =
    let wide = to_upper s in
    let rest = to_upper (b ∷ s) in
    if a == 0xC4 && b == 0xB1
    then b'I' ∷ wide
    else if a == 0xC5 && b == 0xBF
    then b'S' ∷ wide
    else (if leb b'a' a && leb a b'z' then a - 32 else a) ∷ rest

-- The constant of a list that has the name.
module _ {A : Type 0} (name : A → Bytes) where
  pub find_name : Bytes → List A → Option A
  find_name s [] = none
  find_name s (a ∷ as') = if bytes_eq s (name a) then some a else find_name s as'

unfoldable pub valid_mode : Bytes → Option Mode
unfolding find_name to_upper mode_name
valid_mode s =
    find_name mode_name (to_upper (trim_space s))
      (Mode.general ∷ Mode.learning ∷ Mode.review ∷ Mode.creation ∷ [])

unfoldable pub mode_from_nullable : Bytes → Mode
mode_from_nullable value =
    if is_blank value
    then Mode.general
    else elim (valid_mode value) [ none ↦ Mode.general | some m ↦ m ]

pub data Parsed : Type 0 where
  parsed : Mode → Parsed
  refused : Error → Parsed

unfoldable pub mode_from_request : Bytes → Parsed
mode_from_request value = if is_blank value then parsed Mode.general else elim (valid_mode value) [
  | none ↦ refused (of_kind Kind.invalid_argument (lit "不支持的分析模式: " ++ value) [])
  | some m ↦ parsed m
]

-- `Resolve`.
unfoldable pub resolve : Mode → Mode
resolve Mode.unset = Mode.general
resolve m = m

pub data Stage : Type 0 where
  unknown queued consuming video_context context_completed chunks_completed retrieval agent_loop
        plan_completed executor_started executor_completed critic_started critic_passed
        critic_retry_required evidence_refreshed analysis_completed analysis_completed_warnings
        budget_exhausted retrying completed completed_reused failed dead_lettered manual_replay
        revision_pending revision_applied transcription asr dispatch_failed :
      Stage

unfoldable pub stage_name : Stage → Bytes
stage_name Stage.unknown = []
stage_name Stage.queued = lit "QUEUED"
stage_name Stage.consuming = lit "CONSUMING"
stage_name Stage.video_context = lit "VIDEO_CONTEXT"
stage_name Stage.context_completed = lit "CONTEXT_COMPLETED"
stage_name Stage.chunks_completed = lit "CHUNKS_COMPLETED"
stage_name Stage.retrieval = lit "RETRIEVAL"
stage_name Stage.agent_loop = lit "AGENT_LOOP"
stage_name Stage.plan_completed = lit "PLAN_COMPLETED"
stage_name Stage.executor_started = lit "EXECUTOR_STARTED"
stage_name Stage.executor_completed = lit "EXECUTOR_COMPLETED"
stage_name Stage.critic_started = lit "CRITIC_STARTED"
stage_name Stage.critic_passed = lit "CRITIC_PASSED"
stage_name Stage.critic_retry_required = lit "CRITIC_RETRY_REQUIRED"
stage_name Stage.evidence_refreshed = lit "EVIDENCE_REFRESHED"
stage_name Stage.analysis_completed = lit "ANALYSIS_COMPLETED"
stage_name Stage.analysis_completed_warnings = lit "ANALYSIS_COMPLETED_WITH_WARNINGS"
stage_name Stage.budget_exhausted = lit "BUDGET_EXHAUSTED"
stage_name Stage.retrying = lit "RETRYING"
stage_name Stage.completed = lit "COMPLETED"
stage_name Stage.completed_reused = lit "COMPLETED_REUSED"
stage_name Stage.failed = lit "FAILED"
stage_name Stage.dead_lettered = lit "DEAD_LETTERED"
stage_name Stage.manual_replay = lit "MANUAL_REPLAY"
stage_name Stage.revision_pending = lit "REVISION_PENDING"
stage_name Stage.revision_applied = lit "REVISION_APPLIED"
stage_name Stage.transcription = lit "TRANSCRIPTION"
stage_name Stage.asr = lit "ASR"
stage_name Stage.dispatch_failed = lit "DISPATCH_FAILED"

-- The list of `init`.
abbrev all_stages : List Stage
all_stages =
    Stage.queued ∷ Stage.consuming ∷ Stage.video_context ∷ Stage.context_completed
    ∷ Stage.chunks_completed ∷ Stage.retrieval ∷ Stage.agent_loop ∷ Stage.plan_completed
    ∷ Stage.executor_started ∷ Stage.executor_completed ∷ Stage.critic_started ∷ Stage.critic_passed
    ∷ Stage.critic_retry_required ∷ Stage.evidence_refreshed ∷ Stage.analysis_completed
    ∷ Stage.analysis_completed_warnings ∷ Stage.budget_exhausted ∷ Stage.retrying ∷ Stage.completed
    ∷ Stage.completed_reused ∷ Stage.failed ∷ Stage.dead_lettered ∷ Stage.manual_replay
    ∷ Stage.revision_pending ∷ Stage.revision_applied ∷ Stage.transcription ∷ Stage.asr
    ∷ Stage.dispatch_failed ∷ []

-- `TaskStageFrom`.
unfoldable pub stage_from : Bytes → Stage
unfolding find_name stage_name
stage_from value =
    if is_blank value
    then Stage.unknown
    else elim (find_name stage_name value all_stages) [ none ↦ Stage.unknown | some s ↦ s ]

pub data State : Type 0 where
  not_started queued processing completed failed : State

-- `StatusOf` and the other constructors fill these fields.
pub record Status : Type 0 where
  pub state : State
  pub result : Option Bytes
  pub message : Option Bytes

abbrev pub status_of : State → Bytes → Status
status_of state message = record { state = state; result = none; message = some message }

abbrev pub status_completed : Option Bytes → Status
status_completed result = record {
  state = State.completed;
  result = result;
  message = some (lit "任务完成");
}

-- `AnalysisTaskMsg`: a pointer field that is nil is `none`.
pub record TaskMsg : Type 0 where
  pub media_id : Option ℤ
  pub action : Option Bytes
  pub content_hash : Option Bytes
  pub user_goal : Option Bytes
  pub mode : Option Bytes

abbrev pub empty_msg : TaskMsg
empty_msg = record {
  media_id = none;
  action = none;
  content_hash = none;
  user_goal = none;
  mode = none;
}

unfoldable pub action_start : Bytes
action_start = lit "START_ANALYSIS"

unfoldable pub action_revise : Bytes
action_revise = lit "REVISE_ANALYSIS"

unfoldable pub is_supported_action : Bytes → Bool
is_supported_action a = bytes_eq a action_start || bytes_eq a action_revise

unfoldable pub has_supported_action : TaskMsg → Bool
has_supported_action m = elim m.action [ none ↦ false | some a ↦ is_supported_action a ]

unfoldable pub is_revision : TaskMsg → Bool
is_revision m = elim m.action [ none ↦ false | some a ↦ bytes_eq a action_revise ]

-- `NewTaskMsg`.
unfoldable pub new_msg : ℤ → Bytes → Bytes → Bytes → Mode → TaskMsg
new_msg media_id action content_hash goal mode = record {
  media_id = some media_id;
  action = some action;
  content_hash = some content_hash;
  user_goal = some goal;
  mode = some (mode_name mode);
}

-- `deref0`: nil reads as the empty string.
abbrev pub or_empty : Option Bytes → Bytes
or_empty none = []
or_empty (some s) = s
