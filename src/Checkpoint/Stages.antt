-- ===== src/Checkpoint/Stages.antt =====
-- The stage of a goal: `LoadStage`, `SaveStage` and `SaveFailure`.
use vparser.Prelude.{Bool, true, false, Option, none, some, if◌then◌else◌}
use vparser.Prelude.Int.{ℤ}
use vparser.Redis.{Link, up, down, applied}
use vparser.Go.Bytes.{Bytes}
use vparser.Errors.{Error, code_of}
use vparser.Model.{Mode, Stage, stage_name, stage_from}
use vparser.TaskKeys.{Digest, digest, invalid, goal_digest}
use vparser.Mq.Effects.{Answer, answer, error}
use vparser.Checkpoint.{
  Row, Field, Stores, Links, set_row, set_field, add_index, goal_key, goal_index_key, stage_row,
  is_down, read_failed, save_failed, read_cached,
}

-- `cacheStage`.
unfoldable pub cache_stage : Links → Stores → Bytes → Bytes → Stores
cache_stage l s key value =
    let s1 = applied l.pipe s (set_field s key Field.stage (some value)) in
    if is_down l.pipe then applied l.undo s1 (set_field s1 key Field.stage none) else s1

-- `rememberGoalKey`.
unfoldable pub remember_goal_key : Links → Stores → ℤ → Bytes → Stores
remember_goal_key l s media_id key =
    applied l.remember s (add_index s (goal_index_key media_id) key)

abbrev pub is_unknown : Stage → Bool
is_unknown Stage.unknown = true
is_unknown s = false

abbrev pub persisted : Links → Stores → Bytes → Option Row → Answer Stage × Stores
persisted l s key none = (answer Stage.unknown, s)
persisted l s key (some row) = (answer (stage_from row.stage), cache_stage l s key row.stage)

-- Past the cache, with how the query ends.
abbrev pub find_stage : Link → Links → Stores → ℤ → Bytes → Answer Stage × Stores
find_stage (down executed e) l s media_id d = (error (read_failed (stage_row d) e), s)
find_stage up l s media_id d = persisted l s (goal_key media_id d) (s.rows media_id (stage_row d))

-- With what the cache gave.
abbrev pub with_cached : Option Bytes → Links → Stores → ℤ → Bytes → Answer Stage × Stores
with_cached none l s media_id d = find_stage l.find l s media_id d
with_cached (some cached) l s media_id d =
    if is_unknown (stage_from cached)
    then find_stage l.find l (applied l.drop s (set_field s (goal_key media_id d) Field.stage none))
        media_id d
    else (answer (stage_from cached), s)

-- `LoadStage` behind its digest.
unfoldable pub load_digest : Links → Stores → ℤ → Bytes → Answer Stage × Stores
unfolding cache_stage
load_digest l s media_id d =
    with_cached (read_cached l.read (s.cache (goal_key media_id d) Field.stage)) l s media_id d

-- `SaveStage` behind its digest.
unfoldable pub save_digest : Links → Stores → ℤ → Bytes → Stage → Option Error × Stores
unfolding cache_stage remember_goal_key
save_digest l s media_id d new =
    let key = goal_key media_id d in
    let row : Row = record { stage = stage_name new; payload = none } in
    let s1 = applied l.upsert s (set_row s media_id (stage_row d) row) in
    elim l.upsert [
      | down executed e ↦ (some (save_failed e), s1)
      | up ↦ (none, remember_goal_key l (cache_stage l s1 key (stage_name new)) media_id key)
    ]

-- `SaveFailure` behind its digest.
unfoldable pub fail_digest : Links → Stores → ℤ → Bytes → Stage → Error → Option Error × Stores
unfolding cache_stage remember_goal_key
fail_digest l s media_id d behind cause =
    let key = goal_key media_id d in
    let row : Row = record { stage = stage_name Stage.failed; payload = none } in
    let s1 = applied l.upsert s (set_row s media_id (stage_row d) row) in
    let s2 = cache_stage l s1 key (stage_name Stage.failed) in
    let s3 =
      set_field (set_field s2 key Field.failed_stage (some (stage_name behind))) key
        Field.error_type (some (code_of cause)) in
    let s4 = applied l.mark s2 s3 in
    elim l.upsert [
      | down executed e ↦ (some (save_failed e), s1)
      | up ↦ elim l.mark [
        | down executed e ↦ (some e, s4)
        | up ↦ elim l.expiry [
          | down executed e ↦ (some e, s4)
          | up ↦ (none, remember_goal_key l s4 media_id key)
        ]
      ]
    ]

module _ (sha256_hex : Bytes → Bytes) where
  abbrev load_of : Links → Stores → ℤ → Digest → Answer Stage × Stores
  load_of l s media_id (invalid e) = (error e, s)
  load_of l s media_id (digest d) = load_digest l s media_id d

  abbrev save_of : Links → Stores → ℤ → Digest → Stage → Option Error × Stores
  save_of l s media_id (invalid e) new = (some e, s)
  save_of l s media_id (digest d) new = save_digest l s media_id d new

  abbrev fail_of : Links → Stores → ℤ → Digest → Stage → Error → Option Error × Stores
  fail_of l s media_id (invalid e) behind cause = (some e, s)
  fail_of l s media_id (digest d) behind cause = fail_digest l s media_id d behind cause

  -- `LoadStage`.
  unfoldable pub load_stage : Links → Stores → ℤ → Bytes → Mode → Answer Stage × Stores
  load_stage l s media_id goal mode = load_of l s media_id (goal_digest sha256_hex goal mode)

  -- `SaveStage`.
  unfoldable pub save_stage : Links → Stores → ℤ → Bytes → Mode → Stage → Option Error × Stores
  save_stage l s media_id goal mode new =
      save_of l s media_id (goal_digest sha256_hex goal mode) new

  -- `SaveFailure`.
  unfoldable pub save_failure :
      Links → Stores → ℤ → Bytes → Mode → Stage → Error → Option Error × Stores
  save_failure l s media_id goal mode behind cause =
      fail_of l s media_id (goal_digest sha256_hex goal mode) behind cause
