-- ===== src/Analysis/Transcription.antt =====
-- server-go/internal/analysis/transcription.go: one media's transcription. Its marker and its state are
-- in Redis, the text in the database. The ends of the two keys, a state that is no constant's name, the
-- stages of the events and the list of the user, which `run` invalidates, are left out.
pub mod Settled
use vparser.Prelude.{Bool, true, false, Option, none, some, List, [], ◌∷◌, if◌then◌else◌}
use vparser.Redis.{Link, up, down, applied}
use vparser.Go.Bytes.{Bytes, lit}
use vparser.Go.Text.{is_blank}
use vparser.Errors.{Error}
use vparser.Model.{State, Stage, Status, status_of, status_completed}
use vparser.Mq.Effects.{Answer, answer, error}

pub record World : Type 0 where
  pub active : Bool
  pub state : Option State
  pub transcript : Option Bytes
  -- what the hub has published, newest first
  pub published : List Status

-- What the calls meet: the marker, the three states that are set, and the work. The media is found or
-- not.
pub record Calls : Type 0 where
  pub mark : Link
  pub begin : Link
  pub finish : Link
  pub clear : Link
  pub found : Answer Bool
  pub source : Option Error
  pub text : Answer Bytes
  pub update : Link

-- `setState`.
abbrev pub set_state : Link → State → World → World
set_state link state w = applied link w (record w { state = some state })

-- `clearActive`.
abbrev pub clear_active : Link → World → World
clear_active link w = applied link w (record w { active = false })

abbrev pub announce : Status → World → World
announce status w = record w { published = status ∷ w.published }

abbrev marked : Link → Link → World → Answer Bool × World
marked (down executed e) begin w = (error e, if executed then record w { active = true } else w)
marked up begin w = if w.active then (answer false, w) else (
  answer true,
  announce (status_of State.queued (lit "文字提取任务已排队"))
      (set_state begin State.queued (record w { active = true })),
)

-- `Queue`.
unfoldable pub queue : Calls → World → Answer Bool × World
queue c w = marked c.mark c.begin w

abbrev fail_run : Calls → World → World
fail_run c w =
    announce (status_of State.failed (lit "文字提取失败，请稍后重试")) (set_state c.finish State.failed w)

abbrev updated : Calls → Bytes → Link → World → World
updated c text (down executed e) w =
    fail_run c (if executed then record w { transcript = some text } else w)
updated c text up w =
    announce (status_completed (some text))
      (set_state c.finish State.completed (record w { transcript = some text }))

abbrev transcribed : Calls → Option Error → Answer Bytes → World → World
transcribed c (some e) text w = fail_run c w
transcribed c none (error e) w = fail_run c w
transcribed c none (answer text) w = updated c text c.update w

abbrev work : Calls → World → World
work c w =
    transcribed c c.source c.text (
      announce (status_of State.processing (lit "正在识别视频语音")) (set_state c.begin State.processing w))

abbrev looked_up : Calls → Answer Bool → World → World
looked_up c (answer true) w = clear_active c.clear (work c w)
looked_up c r w = clear_active c.clear w

-- `run`.
unfoldable pub run : Calls → World → World
run c w = looked_up c c.found w

-- `RejectQueued`.
unfoldable pub reject_queued : Calls → World → World
reject_queued c w =
    announce (status_of State.failed (lit "任务队列已满，请稍后重试"))
      (set_state c.finish State.failed (clear_active c.clear w))

-- A state that is in Redis; the text of a completed task is the media's, if it has one.
abbrev of_state : Option Bytes → State → Status
of_state text State.completed = status_completed text
of_state text State.failed = status_of State.failed (lit "文字提取失败，请稍后重试")
of_state text State.queued = status_of State.queued (lit "文字提取任务已排队")
of_state text State.processing = status_of State.processing (lit "正在提取文字")
of_state text State.not_started = status_of State.not_started (lit "尚未提交文字提取任务")

abbrev of_active : Link → Bool → Answer Status
of_active (down executed e) active = error e
of_active up active = answer (
    if active
    then status_of State.processing (lit "正在提取文字")
    else status_of State.not_started (lit "尚未提交文字提取任务"))

abbrev of_runtime : Link → Link → World → Option State → Answer Status
of_runtime (down executed e) exists w state = error e
of_runtime up exists w none = of_active exists w.active
of_runtime up exists w (some state) = answer (of_state w.transcript state)

abbrev of_transcript : Link → Link → World → Option Bytes → Answer Status
of_transcript get exists w none = of_runtime get exists w w.state
of_transcript get exists w (some text) =
    if is_blank text then of_runtime get exists w w.state else answer (status_completed (some text))

-- `Status`.
unfoldable pub status : Link → Link → World → Answer Status
status get exists w = of_transcript get exists w w.transcript
