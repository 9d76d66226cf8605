-- ===== src/Tests/Mq.antt =====
-- The consumer of server-go/internal/mq at concrete deliveries.
use vparser.Prelude.{◌≡◌, refl, inl, true, false, Option, none, some, [], arith}
use vparser.Prelude.Int.{pos}
use vparser.Go.Bytes.{Bytes, lit}
use vparser.Errors.{Error, Kind, of_kind, has_kind, is_permanent_failure}
use vparser.Model.{TaskMsg, Mode, empty_msg}
use vparser.Mq.Routing.{Topic, Reason}
use vparser.Mq.Settle.Schedule.{IsStray, retries_scheduled}
use vparser.Mq.Headers.{
  Delivery, Message, Decoded, decoded, decode_record, task_headers, truncate_bytes,
  max_first_error_bytes,
}
use vparser.Mq.Headers.RoundTrip.{decode-task_headers}
use vparser.Mq.Effects.{Task, Call, Trace, answer, error, Found, Env, Did}
use vparser.Mq.Effects.Avoids.{Made}
use vparser.Mq.Consumer.{retried}
use vparser.Mq.Settle.{settle}
use vparser.Mq.Settle.Routes.{IsRetry}
use vparser.Mq.Settle.Limits.{IsForwarded, last_failure_stays}
use vparser.Mq.Handle.{handle, task_of}
use vparser.Mq.Handle.Delivered.{handle-Accounted}

abbrev identity : Bytes → Bytes
identity s = s

abbrev request : TaskMsg
request = record empty_msg {
  media_id = some (pos 7);
  user_goal = some (lit "summary");
  action = some (lit "START_ANALYSIS");
}

abbrev first_delivery : Delivery
first_delivery = record {
  topic = Topic.analysis;
  key = lit "k";
  value = lit "v";
  msg = some request;
  decode_err = none;
  attempt = 1;
  not_before = none;
  first_error = [];
}

abbrev transient : Error
transient = of_kind Kind.transient (lit "timeout") []

abbrev analysis_fails : Trace → Call → Option Error
analysis_fails t (Call.analyze task) = some transient
analysis_fails t c = none

abbrev nothing_found : Found
nothing_found = record { found = false; status = none }

abbrev services : (Trace → Call → Option Error) → Env
services failure = record {
  locked = λ t k. answer true;
  held = λ t. true;
  failure = failure;
  exists = λ t id. answer true;
  value = λ t k. answer none;
  begun = λ t task. answer true;
  found = λ t task. answer nothing_found;
  reused = λ t task source. answer nothing_found;
  now = λ t. 1000;
}

failing_analysis_is_retried :
    (handle identity identity first_delivery (services analysis_fails) []).0 ≡ answer retried
unfolding handle vparser.Mq.Handle.refusal vparser.Mq.Handle.rejection_reason
    vparser.Go.Text.is_blank lit vparser.Model.has_supported_action
    vparser.Model.is_supported_action vparser.Go.Bytes.bytes_eq vparser.Model.action_start
    vparser.TaskKeys.goal_digest vparser.Mq.Handle.handle_task vparser.Mq.Effects.◌>>=◌
    vparser.Mq.Consumer.locked_body vparser.Mq.Effects.outcome_of vparser.Mq.Effects.ask
    vparser.Mq.Effects.pure vparser.Mq.Consumer.release_lock vparser.Mq.Effects.attempt
    vparser.Errors.has_kind is_permanent_failure vparser.Mq.Consumer.conclude
    vparser.Mq.Consumer.prepare vparser.Mq.Consumer.process vparser.Mq.Consumer.try_reuse
    vparser.Mq.Effects.fail vparser.Mq.Effects.of_answer vparser.Mq.Effects.run
    vparser.Mq.Routing.route_failure vparser.Mq.Settle.announce vparser.Mq.Settle.forward_retry
    vparser.Mq.Settle.route_error vparser.Mq.Settle.settle vparser.Model.is_revision
    vparser.Model.action_revise
failing_analysis_is_retried = refl

handle-Accounted_example :
    Did
      (IsRetry first_delivery)
      (handle identity identity first_delivery (services analysis_fails) []).1
handle-Accounted_example =
    handle-Accounted identity identity first_delivery (services analysis_fails) retried
      failing_analysis_is_retried

abbrev a_task : Task
a_task = task_of (pos 7) (lit "summary") Mode.general

abbrev nothing_fails : Trace → Call → Option Error
nothing_fails t c = none

abbrev forbidden : Error
forbidden = of_kind Kind.internal (lit "agent") (of_kind Kind.forbidden (lit "no access") [])

last_failure_stays_example :
    ¬ Made IsForwarded
      (settle identity first_delivery request a_task
        (lit "key")
        (record { locked = true; ended = error forbidden })
        (services nothing_fails)
        []).1
last_failure_stays_example =
    last_failure_stays identity first_delivery request a_task (lit "key") true forbidden
      (services nothing_fails) (inl (unfold is_permanent_failure in refl))

abbrev over : Error
over = of_kind Kind.transient (lit "call") (of_kind Kind.budget_exhausted (lit "steps") [])

abbrev no_message : Bytes → Decoded
no_message s = decoded none

abbrev timed_out : Error
timed_out = of_kind Kind.transient (lit "agent timed out") []

retries_scheduled_example :
    ¬ Made
      (IsStray no_message first_delivery)
      (settle identity first_delivery request a_task
        (lit "key")
        (record { locked = true; ended = error timed_out })
        (services nothing_fails)
        []).1
retries_scheduled_example =
    retries_scheduled no_message first_delivery identity request a_task (lit "key") true timed_out
      (services nothing_fails)

abbrev a_record : Message
a_record = record { topic = Topic.retry_10s; key = lit "key"; value = lit "value"; headers = [] }

decode-task_headers_example :
    let sent = record a_record { headers = task_headers 2 (some 5000) (lit "TRANSIENT: x") [] } in
    let d = decode_record no_message sent in
    (d.attempt ≡ 2)
    × (d.not_before ≡ some 5000)
    × (d.first_error ≡ truncate_bytes (lit "TRANSIENT: x") max_first_error_bytes)
    × (d.key ≡ lit "key")
    × (d.value ≡ lit "value")
decode-task_headers_example =
    decode-task_headers no_message a_record 2 5000 (lit "TRANSIENT: x") (omega arith) (omega arith)
      (omega arith) (omega arith)
