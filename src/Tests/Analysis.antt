-- ===== src/Tests/Analysis.antt =====
-- Submissions and replays of server-go/internal/analysis at concrete inputs.
use vparser.Prelude.{◌≡◌, refl, All, Bool, true, false, not, ◌&&◌, ◌||◌, none, some, [], ◌∷◌}
use vparser.Prelude.Int.{pos}
use vparser.Go.Bytes.{Bytes, lit, bytes_eq}
use vparser.Errors.{Error, Kind, of_kind}
use vparser.Model.{TaskMsg, empty_msg, is_supported_action, Mode, resolve, Stage, State, status_of}
use vparser.Redis.{up}
use vparser.TaskKeys
use vparser.Checkpoint.{Stores, Links}
use vparser.Checkpoint.Stages.{load_stage}
use vparser.Analysis.Status.{Calls, load_result, current, status_message}
use vparser.Analysis.Status.Shown.{submitted_shows}
use vparser.Mq.Effects.{answer}
use vparser.Mq.Handle.{rejection_reason}
use vparser.Analysis.Dispatch
use vparser.Analysis.Dispatch.{Ledger, Request, check, submit, is_active, limited}
use vparser.Analysis.Dispatch.Submission.{
  is_accepted, key_after, sets, publishes, key_left, keys_set,
}
use vparser.Analysis.FailedTask
use vparser.Analysis.FailedTask.{Row, record_row, is_placeholder_record, replay}
use vparser.Analysis.FailedTask.Replay.{messages, no_goal, goalless_replayed}

abbrev identity : Bytes → Bytes
identity s = s

abbrev ledger : Ledger
ledger = record { limit = 500; unlimited = λ uid. false }

abbrev broker_down : Error
broker_down = of_kind Kind.transient (lit "broker") []

abbrev services : Dispatch.Services
services = record {
  spent = answer 20;
  content_hash = answer (lit "x");
  set_nx = answer true;
  quota = answer true;
  staged = none;
  published = some broker_down;
}

abbrev request : Request
request = record {
  media_id = pos 7;
  user_id = pos 1;
  goal = lit "find the recipe";
  revision = true;
  mode = Mode.learning;
}

abbrev active_key : Bytes
active_key = TaskKeys.active (lit "x") (lit "digest")

key_left_example :
    let (result, calls) = submit identity (some ledger) services request in
    key_after true active_key false calls
    ≡ (false || (sets active_key calls && (is_accepted result || not true)))
key_left_example =
    key_left identity (some ledger) services request active_key false true (λ set. refl)

abbrev a_row : Row
a_row = record {
  media_id = pos 7;
  action = lit "START_ANALYSIS";
  mode = lit "GENERAL";
  content_hash = lit "x";
  user_goal = lit "find the recipe";
  attempt_count = 3;
  error_type = lit "TRANSIENT";
  error_message = none;
  status = lit "FAILED";
}

abbrev replay_services : Row → FailedTask.Services
replay_services row = record {
  row = answer (some row);
  set_nx = answer true;
  published = none;
  requeued = answer 0;
}

a_row_published : publishes (replay identity (replay_services a_row) (pos 4)).1 ≡ true
unfolding replay bytes_eq lit is_placeholder_record vparser.Model.is_supported_action
    vparser.Model.action_start vparser.TaskKeys.goal_digest vparser.Go.Text.is_blank
a_row_published = refl

-- A message without a goal.
abbrev goalless : TaskMsg
goalless = record empty_msg { media_id = some (pos 7); action = some (lit "START_ANALYSIS") }

start_supported : is_supported_action (lit "START_ANALYSIS") ≡ true
unfolding is_supported_action bytes_eq lit vparser.Model.action_start
start_supported = refl

abbrev goalless_services : FailedTask.Services
goalless_services = replay_services (record_row identity goalless 0 broker_down)

goalless_replayed_example :
    (rejection_reason (some goalless) ≡ lit "缺少分析目标")
    × (m : TaskMsg) × (messages (replay identity goalless_services (pos 4)).1 ≡ m ∷ [])
    × (m.media_id ≡ some (pos 7))
    × (m.user_goal ≡ some no_goal)
unfolding vparser.Go.Text.is_blank
goalless_replayed_example =
    goalless_replayed identity identity goalless_services (pos 4) goalless 7 0
      (lit "START_ANALYSIS") broker_down refl refl start_supported refl refl refl

abbrev broker_up : Dispatch.Services
broker_up = record services { published = none }

abbrev all_keys : Bytes → Bool
all_keys k = true

is_submitted :
    (is_accepted (submit identity (some ledger) broker_up request).0 ≡ true)
    × All (λ k. all_keys k ≡ true) (keys_set (submit identity (some ledger) broker_up request).1)
unfolding submit check limited resolve vparser.TaskKeys.goal_digest vparser.Go.Text.is_blank lit
is_submitted = (refl, (refl, tt))

abbrev all_up : Links
all_up = record {
  read = up;
  drop = up;
  find = up;
  upsert = up;
  pipe = up;
  undo = up;
  mark = up;
  expiry = up;
  remember = up;
}

-- An earlier run has failed.
abbrev earlier : Stores
earlier = record {
  rows = λ id n. some (record { stage = lit "FAILED"; payload = none });
  cache = λ k f. none;
  index = λ i k. false;
}

abbrev query : Calls
query = record {
  result_links = all_up;
  stage_links = all_up;
  asked = answer (record { found = false; status = none });
  keys = all_keys;
  content_hash = answer (lit "x");
}

no_result : load_result identity query earlier (pos 7) request.goal request.mode ≡ answer none
unfolding load_result vparser.Checkpoint.Context.has_result vparser.TaskKeys.goal_digest
    vparser.Go.Text.is_blank lit vparser.Checkpoint.Context.has_digest
no_result = refl

failed_before :
    (load_stage identity all_up earlier (pos 7) request.goal request.mode).0 ≡ answer Stage.failed
unfolding load_stage vparser.TaskKeys.goal_digest vparser.Go.Text.is_blank lit
    vparser.Checkpoint.Stages.load_digest vparser.Model.stage_from bytes_eq
failed_before = refl

submitted_shows_example :
    (current identity query earlier (pos 7) request.goal request.mode).0
    ≡ answer (status_of State.processing (status_message Stage.failed))
submitted_shows_example =
    submitted_shows identity (some ledger) broker_up request query earlier (lit "x") Stage.failed
      refl refl is_submitted.0 is_submitted.1 no_result failed_before
