-- ===== src/Checkpoint/Context.antt =====
-- The context of a media and the result of a goal: `LoadContext`, `SaveContext` and `HasResult`. A
-- context is what `decode` reads from its JSON, and `encode` writes; both are parameters.
use vparser.Prelude.{Bool, true, false, Option, none, some, if◌then◌else◌}
use vparser.Prelude.Int.{ℤ}
use vparser.Redis.{Link, up, down, applied}
use vparser.Go.Bytes.{Bytes, lit}
use vparser.Go.Text.{is_empty}
use vparser.Errors.{Error}
use vparser.Model.{Mode, Stage, stage_name}
use vparser.TaskKeys.{Digest, digest, invalid, goal_digest}
use vparser.Mq.Effects.{Answer, answer, error}
use vparser.Checkpoint.{
  Row, Field, Stores, Links, set_row, set_field, media_key, goal_key, goal_checkpoint, is_down,
  read_failed, save_failed, read_cached,
}

abbrev pub context_row : Bytes
context_row = lit "media:context"

abbrev pub media_stage_row : Bytes
media_stage_row = lit "media:stage"

abbrev cache_stage_too : Stores → Bytes → Bytes → Stores
cache_stage_too s key value = if is_empty value then s else set_field s key Field.stage (some value)

-- `cacheField`.
unfoldable pub cache_field : Links → Stores → Bytes → Field → Bytes → Bytes → Stores
cache_field l s key field payload stage_value =
    let s1 =
      applied l.pipe s (cache_stage_too (set_field s key field (some payload)) key stage_value) in
    if is_down l.pipe
    then applied l.undo s1 (set_field (set_field s1 key field none) key Field.stage none)
    else s1

module _ {ℓ} {Context : Type ℓ} (decode : Bytes → Answer Context)
    (encode : Context → Answer Bytes) where
  -- The stage is asked for once more; without an answer it is empty.
  abbrev stage_value : Link → Option Row → Bytes
  stage_value (down executed e) row = lit ""
  stage_value up none = lit ""
  stage_value up (some row) = row.stage

  abbrev decoded :
      Links → Link → Stores → ℤ → Row → Bytes → Answer Context → Answer (Option Context) × Stores
  decoded l again s media_id row payload (error e) = (error (read_failed context_row e), s)
  decoded l again s media_id row payload (answer vc) = (
    answer (some vc),
    cache_field l s (media_key media_id) Field.context payload (stage_value again (some row)),
  )

  abbrev of_row : Links → Link → Stores → ℤ → Option Row → Answer (Option Context) × Stores
  of_row l again s media_id none = (answer none, s)
  of_row l again s media_id (some row) = elim row.payload [
    | none ↦ (answer none, s)
    | some payload ↦ decoded l again s media_id row payload (decode payload)
  ]

  abbrev find_context : Links → Link → Stores → ℤ → Answer (Option Context) × Stores
  find_context l again s media_id = elim l.find [
    | down executed e ↦ (error (read_failed context_row e), s)
    | up ↦ of_row l again s media_id (s.rows media_id context_row)
  ]

  abbrev dropped : Links → Stores → ℤ → Stores
  dropped l s media_id = applied l.drop s (set_field s (media_key media_id) Field.context none)

  abbrev of_payload :
      Links → Link → Stores → ℤ → Bytes → Answer Context → Answer (Option Context) × Stores
  of_payload l again s media_id payload (answer vc) =
      if is_empty payload then find_context l again s media_id else (answer (some vc), s)
  of_payload l again s media_id payload (error e) =
      if is_empty payload
      then find_context l again s media_id
      else find_context l again (dropped l s media_id) media_id

  -- `LoadContext`; `again` is the second query of the database.
  unfoldable pub load_context : Links → Link → Stores → ℤ → Answer (Option Context) × Stores
  unfolding cache_field
  load_context l again s media_id = elim l.read [
    | down executed e ↦ find_context l again (dropped l s media_id) media_id
    | up ↦ elim (s.cache (media_key media_id) Field.context) [
      | none ↦ find_context l again s media_id
      | some payload ↦ of_payload l again s media_id payload (decode payload)
    ]
  ]

  -- `SaveContext`; `clear` is the context without its goal, with a list of segments.
  unfoldable pub save_context :
      (Context → Context) → Links → Stores → ℤ → Context → Option Error × Stores
  unfolding cache_field
  save_context clear l s media_id vc = elim (encode (clear vc)) [
    | error e ↦ (some (save_failed e), s)
    | answer payload ↦
        let done = stage_name Stage.context_completed in
        let row : Row = record { stage = done; payload = some payload } in
        let s1 = applied l.upsert s (
          set_row (set_row s media_id context_row row) media_id media_stage_row
            (record { stage = done; payload = none })) in
        elim l.upsert [
          | down executed e ↦ (some (save_failed e), s1)
          | up ↦ (none, cache_field l s1 (media_key media_id) Field.context payload done)
        ]
  ]

abbrev has_payload : Option Row → Bool
has_payload none = false
has_payload (some row) = elim row.payload [ none ↦ false | some p ↦ true ]

abbrev is_there : Option Bytes → Bool
is_there none = false
is_there (some v) = true

-- `HasResult` behind its digest.
unfoldable pub has_digest : Links → Stores → ℤ → Bytes → Answer Bool
has_digest l s media_id d =
    let name = goal_checkpoint d (lit "result") in
    if is_there (read_cached l.read (s.cache (goal_key media_id d) Field.result))
    then answer true
    else elim l.find [
      | down executed e ↦ error (read_failed name e)
      | up ↦ answer (has_payload (s.rows media_id name))
    ]

abbrev has_of : Links → Stores → ℤ → Digest → Answer Bool
has_of l s media_id (invalid e) = error e
has_of l s media_id (digest d) = has_digest l s media_id d

-- `HasResult`.
unfoldable pub has_result : (Bytes → Bytes) → Links → Stores → ℤ → Bytes → Mode → Answer Bool
has_result sha256_hex l s media_id goal mode =
    has_of l s media_id (goal_digest sha256_hex goal mode)
