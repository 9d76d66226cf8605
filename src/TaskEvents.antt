-- ===== src/TaskEvents.antt =====
-- server-go/internal/taskevents/hub.go: the fan-out of task events to the streams of a gateway. A
-- subscription and its first event count as one step; a local publication is one step that takes the
-- streams, and then one for each of them, so that publications overlap. Redis delivers a message to
-- the gateways that listen.
pub mod Delivery
use vparser.Prelude.{
  ℕ, zero, suc, Bool, true, false, ◌&&◌, Option, none, some, List, [], ◌∷◌, ◌++◌, ◌+◌, ◌==◌, ltb,
  length, if◌then◌else◌,
}
use vparser.Prelude.Int.{ℤ}
use vparser.Go.Bytes.{Bytes, lit, bytes_eq}
use vparser.Go.Decimal.{format_int}
use vparser.Errors.{Error}
use vparser.Model.{Mode, State, Status, Stage}
use vparser.TaskKeys.{Digest, digest, invalid, goal_digest}
use vparser.Mq.Effects.{Answer, answer, error}

-- `TaskEvent`; no stage is `none`.
pub record TaskEvent : Type 0 where
  pub state : State
  pub result : Option Bytes
  pub message : Option Bytes
  pub stage : Option Stage

stage_or_null : Stage → Option Stage
stage_or_null Stage.unknown = none
stage_or_null s = some s

unfoldable pub event_of : Status → Stage → TaskEvent
unfolding stage_or_null
event_of status stage = record {
  state = status.state;
  result = status.result;
  message = status.message;
  stage = stage_or_null stage;
}

is_terminal : State → Bool
is_terminal State.completed = true
is_terminal State.failed = true
is_terminal s = false

-- `Terminal`.
unfoldable pub terminal : TaskEvent → Bool
unfolding is_terminal
terminal e = is_terminal e.state

abbrev pub subscriber_buffer : ℕ
subscriber_buffer = 64

unfoldable pub type_analysis : Bytes
type_analysis = lit "analysis"

key_of : ℤ → Bytes → Digest → Answer Bytes
key_of media_id typ (invalid e) = error e
key_of media_id typ (digest d) =
    answer (typ ++ (lit ":" ++ (format_int media_id ++ (lit ":" ++ d))))

-- `Key`.
unfoldable pub key : (Bytes → Bytes) → ℤ → Bytes → Bytes → Mode → Answer Bytes
unfolding key_of
key sha256_hex media_id typ goal mode = key_of media_id typ (
    if bytes_eq typ type_analysis then goal_digest sha256_hex goal mode else digest (lit "default"))

-- The channel of a stream, what its handler has taken out of it, and whether it is in `subs`.
pub record Subscription : Type 0 where
  pub key : Bytes
  pub queue : List TaskEvent
  pub read : List TaskEvent
  pub registered : Bool

-- A local publication under way, with the streams that it has still to send to.
pub record Flight : Type 0 where
  pub key : Bytes
  pub event : TaskEvent
  pub targets : ℕ → Bool

-- The streams by number, in the order in which they came.
pub record Hub : Type 0 where
  pub subs : ℕ → Subscription
  pub count : ℕ
  pub flights : List Flight

-- The `select` of `publishLocal`, for one stream: if the channel is full, the stream is taken out of
-- `subs`.
unfoldable pub offer : TaskEvent → Subscription → Subscription
offer ev s =
    if ltb (length s.queue) subscriber_buffer
    then record s { queue = s.queue ++ ev ∷ [] }
    else record s { registered = false }

-- `publishLocal` under the lock: the streams that are registered for the key by now.
unfoldable pub publish_local : Bytes → TaskEvent → Hub → Hub
publish_local k ev h = record h {
  flights =
      h.flights
      ++ record {
        key = k;
        event = ev;
        targets = λ i. ltb i h.count && ((h.subs i).registered && bytes_eq (h.subs i).key k);
      }
        ∷ [];
}

-- The publication of the given number comes to a stream that it has still to send to: its event, and
-- what is left under way.
unfoldable pub take_target : List Flight → ℕ → ℕ → Option TaskEvent × List Flight
take_target [] i j = (none, [])
take_target (f ∷ fs) zero j =
    if f.targets j
    then (some f.event, record f { targets = λ k. if j == k then false else f.targets k } ∷ fs)
    else (none, f ∷ fs)
take_target (f ∷ fs) (suc i) j = let (o, rest) = take_target fs i j in (o, f ∷ rest)

unfoldable pub offer_any : Option TaskEvent → Subscription → Subscription
unfolding offer
offer_any none s = s
offer_any (some ev) s = offer ev s

-- `publish`, with what Redis answers: where somebody listens, the event comes back as a message.
unfoldable pub publish : Answer ℕ → Bytes → TaskEvent → Hub → Hub
publish (error e) k ev h = publish_local k ev h
publish (answer receivers) k ev h = if ltb 0 receivers then h else publish_local k ev h

unfoldable pub type_transcription : Bytes
type_transcription = lit "transcription"

publish_at : Answer Bytes → Answer ℕ → TaskEvent → Hub → Option Error × Hub
publish_at (error e) receivers ev h = (some e, h)
publish_at (answer k) receivers ev h = (none, publish receivers k ev h)

module _ (sha256_hex : Bytes → Bytes) (receivers : Answer ℕ) (media_id : ℤ) where
  -- `PublishAnalysis`.
  unfoldable pub publish_analysis : Bytes → Mode → Status → Stage → Hub → Option Error × Hub
  unfolding publish_at
  publish_analysis goal mode status stage h =
      publish_at (key sha256_hex media_id type_analysis goal mode) receivers (event_of status stage)
        h

  -- `PublishTranscription`, whose key has no error.
  unfoldable pub publish_transcription : Status → Stage → Hub → Hub
  unfolding publish_at
  publish_transcription status stage h =
      let k = key sha256_hex media_id type_transcription [] Mode.general in
      (publish_at k receivers (event_of status stage) h).1

-- `HandleMessage`, of a payload that is an envelope or not.
unfoldable pub handle_message : Option (Bytes × TaskEvent) → Hub → Hub
handle_message none h = h
handle_message (some (k, ev)) h = publish_local k ev h

set_sub : Hub → ℕ → Subscription → Hub
set_sub h i s = record h { subs = λ j. if i == j then s else h.subs j }

unfoldable pub subscribe : Bytes → TaskEvent → Hub → Hub
unfolding set_sub
subscribe k initial h =
    record (set_sub h h.count
      (record { key = k; queue = initial ∷ []; read = []; registered = true })) {
        count = h.count + 1;
      }

-- The handler of a stream takes the next event out of its channel.
take_event : Subscription → Subscription
take_event s = elim s.queue [ [] ↦ s | ev ∷ q ↦ record s { queue = q; read = s.read ++ ev ∷ [] } ]

pub data Action : Type 0 where
  message : Option (Bytes × TaskEvent) → Action
  emit : Answer ℕ → Bytes → TaskEvent → Action
  join : Bytes → TaskEvent → Action
  receive close : ℕ → Action
  -- the publication of the first number goes on, with the stream of the second
  send : ℕ → ℕ → Action

unfoldable pub step : Hub → Action → Hub
unfolding set_sub take_event take_target offer_any
step h (message m) = handle_message m h
step h (emit receivers k ev) = publish receivers k ev h
step h (join k initial) = subscribe k initial h
step h (receive i) = set_sub h i (take_event (h.subs i))
step h (close i) = set_sub h i (record (h.subs i) { registered = false })
step h (send i j) =
    let (o, rest) = take_target h.flights i j in
    record (set_sub h j (offer_any o (h.subs j))) { flights = rest }

unfoldable pub run : Hub → List Action → Hub
run h [] = h
run h (a ∷ actions) = run (step h a) actions
