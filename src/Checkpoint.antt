-- ===== src/Checkpoint.antt =====
-- server-go/internal/checkpoint/checkpoint.go: checkpoints of the database and their cache in Redis,
-- with the queries of server-go/internal/repo/repo.go. Whatever a call fails with, its command may
-- have been executed. The end of a cached hash is an event of its own.
pub mod Stages
pub mod Context
pub mod Keys
pub mod Coherence
pub mod Refinement
pub mod Saved
use vparser.Prelude.{ℕ, Bool, true, false, ◌&&◌, Option, none, some, [], ◌∷◌, ◌++◌, if◌then◌else◌}
use vparser.Prelude.Int.{ℤ, int_eq}
use vparser.Redis.{Link, up, down, applied, failure}
use vparser.Go.Bytes.{Bytes, lit, bytes_eq}
use vparser.Go.Decimal.{format_int}
use vparser.Errors.{Error, Kind, of_kind, code_of}
use vparser.Model.{Mode, Stage, stage_name, stage_from}
use vparser.TaskKeys.{Digest, digest, invalid, goal_digest}
use vparser.Mq.Effects.{Answer, answer, error}

-- `AgentCheckpoint`, without its time.
pub record Row : Type 0 where
  pub stage : Bytes
  pub payload : Option Bytes

-- The fields of a cached hash.
pub data Field : Type 0 where
  context stage result failed_stage error_type : Field

abbrev pub same_field : Field → Field → Bool
same_field context context = true
same_field stage stage = true
same_field result result = true
same_field failed_stage failed_stage = true
same_field error_type error_type = true
same_field f g = false

-- The rows, the hashes, and the sets of goal keys.
pub record Stores : Type 0 where
  pub rows : ℤ → Bytes → Option Row
  pub cache : Bytes → Field → Option Bytes
  pub index : Bytes → Bytes → Bool

abbrev pub set_row : Stores → ℤ → Bytes → Row → Stores
set_row s id name row = record s {
  rows = λ i n. if int_eq i id && bytes_eq n name then some row else s.rows i n;
}

-- `HSET` and `HDEL`.
abbrev pub set_field : Stores → Bytes → Field → Option Bytes → Stores
set_field s key field value = record s {
  cache = λ k f. if bytes_eq k key && same_field f field then value else s.cache k f;
}

abbrev pub add_index : Stores → Bytes → Bytes → Stores
add_index s set key = record s {
  index = λ i k. if bytes_eq i set && bytes_eq k key then true else s.index i k;
}

-- The hash ends.
abbrev pub expire : Stores → Bytes → Stores
expire s key = record s { cache = λ k f. if bytes_eq k key then none else s.cache k f }

unfoldable pub media_key : ℤ → Bytes
media_key media_id = lit "agent:checkpoint:" ++ format_int media_id

unfoldable pub goal_index_key : ℤ → Bytes
goal_index_key media_id = media_key media_id ++ lit ":goals"

-- `GoalKey` and `goalCheckpoint` of a digest.
unfoldable pub goal_key : ℤ → Bytes → Bytes
goal_key media_id d = media_key media_id ++ (lit ":goal:" ++ d)

unfoldable pub goal_checkpoint : Bytes → Bytes → Bytes
goal_checkpoint d field = lit "goal:" ++ (d ++ b':' ∷ field)

abbrev pub stage_row : Bytes → Bytes
stage_row d = goal_checkpoint d (lit "stage")

-- What the calls of one operation meet; a call that is not made counts for nothing.
pub record Links : Type 0 where
  -- a read of the cache, the removal of what it read, and the query of the database
  pub read : Link
  pub drop : Link
  pub find : Link
  -- the statement of the database, the pipeline to the cache and the removal when it failed
  pub upsert : Link
  pub pipe : Link
  pub undo : Link
  -- `HSET` and the set of goal keys
  pub mark : Link
  pub expiry : Link
  pub remember : Link

abbrev pub is_down : Link → Bool
is_down up = false
is_down (down executed e) = true

abbrev pub read_failed : Bytes → Error → Error
read_failed name e = of_kind Kind.internal (lit "读取 Agent Checkpoint 失败: " ++ name) e

abbrev pub save_failed : Error → Error
save_failed e = of_kind Kind.internal (lit "保存 Agent Checkpoint 失败") e

-- What a read of the cache gives.
abbrev pub read_cached : Link → Option Bytes → Option Bytes
read_cached up value = value
read_cached (down executed e) value = none
