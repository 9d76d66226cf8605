-- ===== src/Upload/Instant/Proof.antt =====
-- `takeChallenge`, `VerifyRange` and `Prove` of server-go/internal/upload/instant.go. MD5 and the
-- parsing of UUIDs are parameters; what `Prove` does under the object's lock, together with the
-- deletions of the object, is also in Media/Objects.
use vparser.Prelude.{
  ℕ, Bool, false, not, ◌&&◌, ◌||◌, Option, none, some, [], ltb, ◌==◌, if◌then◌else◌, length,
}
use vparser.Prelude.Int.{ℤ, pos, negsuc}
use vparser.Redis.{Link, up, down, applied}
use vparser.Go.Bytes.{Bytes, lit, bytes_eq}
use vparser.Go.Decimal.{format_int, parse_int}
use vparser.Go.Hex.{hex_decode}
use vparser.Errors.{Kind, of_kind, business_error, code_conflict}
use vparser.Mq.Effects.{Answer, answer, error}
use vparser.TaskKeys.{is_md5}
use vparser.Media.Filename.{to_lower}
use vparser.Upload.Instant.{Stored, Entry, Store, put, invalid}

pub record ProofRequest : Type 0 where
  pub challenge_id : Bytes
  pub range_md5 : Bytes

-- What one proof meets: the lock of the object, the read of a range and the new row.
pub record Calls : Type 0 where
  pub pipe : Link
  pub now : ℕ
  pub lock : Answer Bool
  pub read_range : Bytes → ℤ → ℤ → Answer Bytes
  pub save_reference : Bytes → Bytes → ℤ → Bytes → Answer ℤ

-- What Redis reads of a hash: nothing once it has expired.
abbrev pub live : ℕ → Option Entry → Option Stored
live now none = none
live now (some e) = if ltb now e.expires then some e.stored else none

abbrev pub found : Option Stored → Answer Stored
found none = invalid (lit "秒传校验已过期，请重新上传")
found (some ch) = answer ch

-- The reading and the deletion, as one transaction.
abbrev pub piped : Link → Option Stored → Answer Stored
piped (down executed e) ch = error e
piped up ch = found ch

module _ (valid_id : Bytes → Bool) where
  -- `takeChallenge`.
  unfoldable pub take_challenge : Link → ℕ → Bytes → Store → Answer Stored × Store
  take_challenge pipe now id s =
      if not (valid_id id)
      then (invalid (lit "challengeId 无效"), s)
      else (piped pipe (live now (s id)), applied pipe s (put s id none))

module _ (md5 : Bytes → Bytes) where
  abbrev claims : Bytes → Option Bytes → Bool
  claims content none = false
  claims content (some claimed) = length claimed == 16 && bytes_eq (md5 content) claimed

  -- `VerifyRange`.
  unfoldable pub verify_range : Bytes → Bytes → Bool
  verify_range content claimed_hex = claims content (hex_decode (to_lower claimed_hex))

  abbrev pub same_length : ℕ → ℤ → Bool
  same_length n (pos m) = n == m
  same_length n (negsuc m) = false

  abbrev pub checked : Calls → ℤ → Bytes → Stored → ℤ → Answer Bytes → Answer ℤ
  checked a user range_md5 ch asked (error e) = error e
  checked a user range_md5 ch asked (answer content) =
      if not (same_length (length content) asked) || not (verify_range content range_md5)
      then invalid (lit "秒传校验失败，请改用普通上传")
      else a.save_reference ch.filename ch.file_path user ch.md5

  abbrev pub locked : Calls → ℤ → Bytes → Stored → ℤ → ℤ → Answer Bool → Answer ℤ
  locked a user range_md5 ch offset asked (error e) = error e
  locked a user range_md5 ch offset asked (answer ok) =
      if not ok
      then error (business_error code_conflict (lit "文件正在被处理，请稍后重试"))
      else checked a user range_md5 ch asked (a.read_range ch.file_path offset asked)

  abbrev pub broken : Answer ℤ
  broken = error (of_kind Kind.internal (lit "秒传校验状态损坏") [])

  abbrev pub parsed : Calls → ℤ → Bytes → Stored → Option ℤ → Option ℤ → Answer ℤ
  parsed a user range_md5 ch (some offset) (some (pos n)) =
      if n == 0 then broken else locked a user range_md5 ch offset (pos n) a.lock
  parsed a user range_md5 ch offset asked = broken

  abbrev pub taken : Calls → ℤ → Bytes → Answer Stored → Answer ℤ
  taken a user range_md5 (error e) = error e
  taken a user range_md5 (answer ch) =
      if not (bytes_eq ch.user_id (format_int user))
      then error (of_kind Kind.forbidden (lit "无权使用该秒传校验") [])
      else parsed a user range_md5 ch (parse_int ch.offset) (parse_int ch.length)

module _ (md5 : Bytes → Bytes) (valid_id : Bytes → Bool) where
  -- `Prove`.
  unfoldable pub prove : Calls → ℤ → ProofRequest → Store → Answer ℤ × Store
  unfolding take_challenge verify_range
  prove a user req s =
      if not (is_md5 req.range_md5)
      then (invalid (lit "rangeMd5 必须是 32 位十六进制字符串"), s)
      else let (r, s') = take_challenge valid_id a.pipe a.now req.challenge_id s in
        (taken md5 a user req.range_md5 r, s')
