-- ===== src/Upload/Instant.antt =====
-- server-go/internal/upload/instant.go: instant upload by a proof of possession. MD5 and the parsing of
-- UUIDs are parameters, and so is the random source, by the number that it gave.
pub mod Proof
pub mod Issued
pub mod Protocol
use vparser.Prelude.{
  ℕ, ◌+◌, ◌-◌, ◌^◌, Bool, true, false, not, ◌&&◌, ◌||◌, Option, none, some, List, [], ◌∷◌, ◌++◌,
  ltb, leb, ◌==◌, if◌then◌else◌, min, length,
}
use vparser.Prelude.Int.{ℤ, pos, negsuc}
use vparser.Redis.{Link, up, down, applied}
use vparser.Go.Bytes.{Bytes, lit, bytes_eq}
use vparser.Go.Decimal.{format_int, format_nat, parse_int}
use vparser.Go.Hex.{hex_decode}
use vparser.Errors.{Error, Kind, of_kind, business_error, code_conflict}
use vparser.Mq.Effects.{Answer, answer, error}
use vparser.TaskKeys.{is_md5}
use vparser.Media.Filename.{normalize_video_filename, to_lower}

abbrev pub max_challenge_bytes : ℕ
max_challenge_bytes = 2 ^ 20

-- Two minutes, in milliseconds.
abbrev pub challenge_ttl : ℕ
challenge_ttl = 120000

pub record ChallengeRequest : Type 0 where
  pub md5 : Bytes
  pub size : ℤ
  pub filename : Bytes

abbrev pub invalid : {A : Type 0} → Bytes → Answer A
invalid text = error (of_kind Kind.invalid_argument text [])

abbrev pub size_of : ℤ → ℕ
size_of (pos n) = n
size_of (negsuc n) = 0

-- `ValidateChallengeRequest`.
unfoldable pub validate_challenge_request : ChallengeRequest → Answer ChallengeRequest
validate_challenge_request req =
    if not (is_md5 req.md5)
    then invalid (lit "md5 必须是 32 位十六进制字符串")
    else if size_of req.size == 0
    then invalid (lit "文件大小无效")
    else elim (normalize_video_filename req.filename) [
      | error e ↦ error e
      | answer name ↦ answer (record { md5 = to_lower req.md5; size = req.size; filename = name })
    ]

-- `ChallengeRange` of a positive size: the offset and the length.
unfoldable pub challenge_range : ℕ → (ℕ → Answer ℕ) → Answer (ℕ × ℕ)
challenge_range size rand_int =
    let length = min size max_challenge_bytes in
    let span = size - length + 1 in
    if leb span 1
    then answer (0, length)
    else elim (rand_int span) [ error e ↦ error e | answer offset ↦ answer (offset, length) ]

-- The hash of a challenge.
pub record Stored : Type 0 where
  pub user_id : Bytes
  pub md5 : Bytes
  pub filename : Bytes
  pub file_path : Bytes
  pub offset : Bytes
  pub length : Bytes

pub record Entry : Type 0 where
  pub stored : Stored
  pub expires : ℕ

-- The challenges of Redis, by id.
abbrev pub Store : Type 0
Store = Bytes → Option Entry

abbrev pub put : Store → Bytes → Option Entry → Store
put s id e j = if bytes_eq j id then e else s j

-- A copy of the content, whether its path is managed, and the size of its object.
pub record Copy : Type 0 where
  pub file_path : Bytes
  pub managed : Bool
  pub object_size : Answer ℤ

abbrev same_size : ℤ → ℤ → Bool
same_size (pos m) (pos n) = m == n
same_size m n = false

abbrev fits : Copy → ℤ → Bool
fits c size = c.managed && elim c.object_size [ error e ↦ false | answer n ↦ same_size n size ]

-- The first copy that fits, or an empty path.
unfoldable pub source_of : List Copy → ℤ → Bytes
source_of [] size = []
source_of (c ∷ copies) size = if fits c size then c.file_path else source_of copies size

pub record Challenge : Type 0 where
  pub challenge_id : Bytes
  pub offset : ℕ
  pub length : ℕ

abbrev is_empty : Bytes → Bool
is_empty [] = true
is_empty (b ∷ s) = false

-- A challenge for the range that was chosen.
abbrev pub stored_for : ℤ → ChallengeRequest → Bytes → ℕ → ℕ → Stored
stored_for user req source offset length = record {
  user_id = format_int user;
  md5 = req.md5;
  filename = req.filename;
  file_path = source;
  offset = format_nat offset;
  length = format_nat length;
}

abbrev pub issue :
    Link
    → ℕ
    → Bytes
    → ℤ
    → ChallengeRequest
    → Bytes
    → Store
    → Answer (ℕ × ℕ)
    → Answer (Option Challenge) × Store
issue link now id user req source s (error e) = (error e, s)
issue link now id user req source s (answer (offset, length)) =
    let entry : Entry = record {
      stored = stored_for user req source offset length;
      expires = now + challenge_ttl;
    } in
    let s' = applied link s (put s id (some entry)) in
    elim link [
      | down executed e ↦ (error e, s')
      | up ↦ (answer (some (record { challenge_id = id; offset = offset; length = length })), s')
    ]

abbrev pub challenge_for :
    (ℕ → Answer ℕ)
    → Answer (List Copy)
    → Link
    → ℕ
    → Bytes
    → ℤ
    → Store
    → Answer ChallengeRequest
    → Answer (Option Challenge) × Store
challenge_for rand_int copies link now id user s (error e) = (error e, s)
challenge_for rand_int (error e) link now id user s (answer req) = (error e, s)
challenge_for rand_int (answer copies) link now id user s (answer req) =
    let source = source_of copies req.size in
    if is_empty source
    then (answer none, s)
    else issue link now id user req source s (challenge_range (size_of req.size) rand_int)

-- `Challenge`, with the copies that the database gave and the id that was drawn.
unfoldable pub challenge :
    (ℕ → Answer ℕ)
    → Answer (List Copy)
    → Link
    → ℕ
    → Bytes
    → ℤ
    → ChallengeRequest
    → Store
    → Answer (Option Challenge) × Store
unfolding validate_challenge_request challenge_range source_of
challenge rand_int copies link now id user raw s =
    challenge_for rand_int copies link now id user s (validate_challenge_request raw)
