-- ===== src/Analysis/FailedTask/Replay.antt =====
-- What a replay leaves behind, and which rows it takes.
use vparser.Prelude.{
  ℕ, ◌≡◌, refl, ap, Bool, true, false, not, ◌||◌, ◌&&◌, Option, none, some, List, [], ◌∷◌, arith,
  Bool-cases, inl, inr, if◌then◌else◌,
}
use vparser.Prelude.Int.{ℤ, pos}
use vparser.Go.Bytes.{Bytes, lit, bytes_eq, eq-of_bytes_eq, bytes_eq_refl}
use vparser.Go.Text.{is_blank, utf16_length}
use vparser.Errors.{Error}
use vparser.Model.{
  TaskMsg, Mode, action_start, action_revise, is_supported_action, mode_from_nullable, new_msg,
  or_empty,
}
use vparser.TaskKeys.{goal_digest, digest, normalize_content_hash}
use vparser.Analysis.Sanitize.{truncate_utf16}
use vparser.Mq.Effects.{answer}
use vparser.Mq.Handle.{rejection_reason}
use vparser.Analysis.Dispatch.{Call}
use vparser.Analysis.Dispatch.Submission.{key_after, sets, publishes}
use vparser.Analysis.FailedTask.{Services, Row, record_row, replay, is_placeholder_record, column}

abbrev pub is_none : {A : Type 0} → Option A → Bool
is_none none = true
is_none (some a) = false

module _ (sha : Bytes → Bytes) (sv : Services) (id : ℤ) where
  -- The same of a replay: behind it a key is there if it was before, or if it was set and the task was
  -- published without an error, also when the ledger could not be updated.
  pub replay_key_left :
      (k : Bytes) (held executed : Bool)
      → (sets k (replay sha sv id).1 ≡ true → sv.set_nx ≡ answer (if held then false else true))
      → let (result, calls) = replay sha sv id in
        key_after executed k held calls
        ≡ (held || (sets k calls && ((publishes calls && is_none sv.published) || not executed)))
  unfolding replay
  replay_key_left k held executed h = ground (arith, h)

  -- Only a row that is marked as failed and is no placeholder is published.
  pub replay_guarded :
      (row : Row)
      → sv.row ≡ answer (some row)
      → publishes (replay sha sv id).1 ≡ true
      → (bytes_eq row.status (lit "FAILED") ≡ true) × (is_placeholder_record row ≡ false)
  unfolding replay
  replay_guarded row h e = (ground arith, ground arith)

-- The messages that the calls publish, with or without success.
abbrev pub messages : List Call → List TaskMsg
messages [] = []
messages (Call.publish_task m ∷ calls) = m ∷ messages calls
messages (c ∷ calls) = messages calls

-- What the ledger writes for a missing goal.
abbrev pub no_goal : Bytes
no_goal = lit "(消息缺少分析目标)"

column-action : (a : Bytes) → is_supported_action a ≡ true → column a (lit "UNKNOWN") 32 ≡ a
unfolding is_supported_action column is_blank lit truncate_utf16 utf16_length action_start
    action_revise
column-action a h = elim (Bool-cases (bytes_eq a action_start)) [
  | inl start ↦ rw (eq-of_bytes_eq a action_start start) refl
  | inr other ↦
      let revise : bytes_eq a action_revise ≡ true = ground (arith, h, other) in
      rw (eq-of_bytes_eq a action_revise revise) refl
]

column-no_goal : (goal : Bytes) → is_blank goal ≡ true → column goal no_goal 500 ≡ no_goal
unfolding column
column-no_goal goal h = rw h (unfold lit truncate_utf16 utf16_length in refl)

digest-no_goal :
    (sha : Bytes → Bytes) (mode : Mode) → (d : Bytes) × (goal_digest sha no_goal mode ≡ digest d)
unfolding goal_digest is_blank lit
digest-no_goal sha mode = (_, refl)

-- What a replay publishes where nothing refuses the row.
replayed :
    (sha : Bytes → Bytes) (sv : Services) (id : ℤ) (row : Row) (d : Bytes)
    → sv.row ≡ answer (some row)
    → sv.set_nx ≡ answer true
    → bytes_eq row.status (lit "FAILED") ≡ true
    → is_placeholder_record row ≡ false
    → goal_digest sha row.user_goal (mode_from_nullable row.mode) ≡ digest d
    → messages (replay sha sv id).1
      ≡ new_msg row.media_id row.action
          (normalize_content_hash row.media_id row.content_hash)
          row.user_goal
          (mode_from_nullable row.mode)
        ∷ []
unfolding replay
replayed sha sv id row d there free failed real hashed =
    rw there (rw failed (rw real (rw hashed (rw free (ground arith)))))

-- A message that names a media and a supported action, but no goal, is refused as poison, and its row
-- in the ledger is no placeholder: a replay of that row, where the active key is free, publishes one
-- task, for that media and with the ledger's padding text as its goal.
pub goalless_replayed :
    (sha mask : Bytes → Bytes) (sv : Services) (id : ℤ) (msg : TaskMsg) (n attempts : ℕ)
    (action : Bytes) (cause : Error)
    → msg.media_id ≡ some (pos n)
    → msg.action ≡ some action
    → is_supported_action action ≡ true
    → is_blank (or_empty msg.user_goal) ≡ true
    → sv.row ≡ answer (some (record_row mask msg attempts cause))
    → sv.set_nx ≡ answer true
    → (rejection_reason (some msg) ≡ lit "缺少分析目标")
      × (m : TaskMsg) × (messages (replay sha sv id).1 ≡ m ∷ [])
      × (m.media_id ≡ some (pos n))
      × (m.user_goal ≡ some no_goal)
unfolding replay rejection_reason record_row new_msg is_placeholder_record
goalless_replayed sha mask sv id msg n attempts action cause media act supported blank h k =
    let row = record_row mask msg attempts cause in
    let mode = mode_from_nullable row.mode in
    let goal : row.user_goal ≡ no_goal = column-no_goal (or_empty msg.user_goal) blank in
    let named : row.media_id ≡ pos n = rw media refl in
    let acted : row.action ≡ action = rw act (column-action action supported) in
    let (d, hashed) = digest-no_goal sha mode in
    let real : is_placeholder_record row ≡ false = rw (named, acted, supported) refl in
    let hashed' : goal_digest sha row.user_goal mode ≡ digest d = rw goal hashed in
    (
      rw (media, blank) refl,
      new_msg row.media_id row.action (normalize_content_hash row.media_id row.content_hash)
          row.user_goal mode,
      replayed sha sv id row d h k (bytes_eq_refl (lit "FAILED")) real hashed',
      ap some named,
      ap some goal,
    )
