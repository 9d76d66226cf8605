-- ===== src/Media.antt =====
-- server-go/internal/media/media.go: the names of media files, the rows of media and the objects
-- that they point at.
pub mod Filename
pub mod Objects
pub mod Ingest
use vparser.Prelude.{Bool, Option, none, some, [], if◌then◌else◌}
use vparser.Prelude.Int.{ℤ, int_eq}
use vparser.Go.Bytes.{Bytes, lit}
use vparser.Errors.{Kind, of_kind}
use vparser.Mq.Effects.{Answer, answer, error}

-- `MediaFile`, as far as uploads and deletion read it.
pub record MediaFile : Type 0 where
  pub id : ℤ
  pub user_id : ℤ
  pub filename : Bytes
  pub file_path : Bytes
  pub content_hash : Option Bytes

-- `RequireOwnedMedia`, from the answer of its query.
unfoldable pub require_owned_media : Answer (Option MediaFile) → ℤ → Answer MediaFile
require_owned_media (error e) user_id = error e
require_owned_media (answer none) user_id = error (of_kind Kind.not_found (lit "文件不存在") [])
require_owned_media (answer (some m)) user_id =
    if int_eq m.user_id user_id then answer m else error (of_kind Kind.forbidden (lit "无权访问该文件") [])
