-- ===== src/Media/Ingest.antt =====
-- The rows of media with their caches: `SaveUploadedMedia`, `SaveReference`, `IngestFile`,
-- `ContentHash`, `DeleteOwnedMedia` and `ListByUser`. The JSON of a list is a parameter, and so are
-- MD5 and the URL that the object store gives. A cached list ends on its own. Of a deletion only the
-- rows, the object and the caches are here; its lock is in Media.Objects.
pub mod Lists
pub mod Whole
use vparser.Prelude.{
  ℕ, Bool, true, false, not, ◌&&◌, ◌||◌, Option, none, some, List, [], ◌∷◌, ◌++◌, ◌==◌,
  if◌then◌else◌,
}
use vparser.Prelude.Int.{ℤ, int_eq}
use vparser.Redis.{Link, up, down, applied}
use vparser.Go.Bytes.{Bytes, lit, bytes_eq}
use vparser.Go.Text.{is_blank, is_empty}
use vparser.Errors.{Error, Kind, of_kind}
use vparser.Mq.Effects.{Answer, answer, error}
use vparser.Media.{MediaFile, require_owned_media}
use vparser.Media.Filename.{normalize_video_filename}

pub record World : Type 0 where
  -- newest first
  pub rows : List MediaFile
  pub objects : Bytes → Bool
  pub hashes : ℤ → Option Bytes
  pub lists : ℤ → Option Bytes

-- What the calls of an insertion meet, with the id that the row gets.
pub record Calls : Type 0 where
  pub insert : Link
  pub row_id : ℤ
  pub remember : Link
  pub invalidate : Link
  pub remove : Link

-- `RememberContentHash`.
unfoldable pub remember_content_hash : Link → ℤ → Bytes → World → World
remember_content_hash link id md5 w =
    if is_empty md5
    then w
    else applied link w (record w { hashes = λ i. if int_eq i id then some md5 else w.hashes i })

-- `InvalidateUserList`.
unfoldable pub invalidate_user_list : Link → ℤ → World → World
invalidate_user_list link user w =
    applied link w (record w { lists = λ u. if int_eq u user then none else w.lists u })

-- `removeUploadedObject`.
unfoldable pub remove_uploaded_object : Link → Bytes → World → World
remove_uploaded_object link url w =
    applied link w (record w { objects = λ o. if bytes_eq o url then false else w.objects o })

abbrev pub row_of : Calls → Bytes → Bytes → ℤ → Bytes → MediaFile
row_of c name url user md5 = record {
  id = c.row_id;
  user_id = user;
  filename = name;
  file_path = url;
  content_hash = some md5;
}

abbrev pub inserted : Link → MediaFile → World → World
inserted link m w = applied link w (record w { rows = m ∷ w.rows })

-- The row is in: both caches are told.
unfoldable pub told : Calls → MediaFile → Bytes → World → World
unfolding remember_content_hash invalidate_user_list
told c m md5 w =
    invalidate_user_list c.invalidate m.user_id (remember_content_hash c.remember m.id md5 w)

abbrev pub settled :
    (World → World) → Calls → MediaFile → Bytes → World → Link → Answer MediaFile × World
settled undo c m md5 w (down executed e) = (error e, undo w)
settled undo c m md5 w up = (answer m, told c m md5 w)

abbrev pub with_name :
    (World → World) → Calls → Bytes → ℤ → Bytes → World → Answer Bytes → Answer MediaFile × World
with_name undo c url user md5 w (error e) = (error e, undo w)
with_name undo c url user md5 w (answer name) =
    let m = row_of c name url user md5 in settled undo c m md5 (inserted c.insert m w) c.insert

-- `SaveUploadedMedia`: a failure removes the object.
unfoldable pub save_uploaded_media :
    Calls → Bytes → Bytes → ℤ → Bytes → World → Answer MediaFile × World
unfolding told remove_uploaded_object
save_uploaded_media c filename url user md5 w =
    with_name (remove_uploaded_object c.remove url) c url user md5 w
      (normalize_video_filename filename)

-- `SaveReference`: the object belongs to other rows too.
unfoldable pub save_reference : Calls → Bytes → Bytes → ℤ → Bytes → World → Answer MediaFile × World
unfolding told
save_reference c filename url user md5 w =
    with_name (λ v. v) c url user md5 w (normalize_video_filename filename)

pub record Upload : Type 0 where
  pub size : ℕ
  pub filename : Bytes
  -- the first and the second opening, with what is hashed
  pub hash : Answer Bytes
  pub reopened : Option Error
  -- the upload, and the URL of the object
  pub put : Link
  pub url : Bytes

abbrev pub put_object : Link → Bytes → World → World
put_object link url w = applied link w (record w { objects = λ o. bytes_eq o url || w.objects o })

abbrev pub put_then : Link → Calls → Upload → ℤ → Bytes → Bytes → World → Answer MediaFile × World
put_then (down executed e) c f user name md5 w = (error e, w)
put_then up c f user name md5 w = save_uploaded_media c name f.url user md5 w

-- The second opening, and what the first one has hashed.
abbrev pub hashed_file :
    Calls → Upload → ℤ → World → Bytes → Option Error → Answer Bytes → Answer MediaFile × World
hashed_file c f user w name reopened (error e) = (error e, w)
hashed_file c f user w name (some e) (answer md5) = (error e, w)
hashed_file c f user w name none (answer md5) =
    put_then f.put c f user name md5 (put_object f.put f.url w)

abbrev pub named_file : Calls → Upload → ℤ → World → Answer Bytes → Answer MediaFile × World
named_file c f user w (error e) = (error e, w)
named_file c f user w (answer name) = hashed_file c f user w name f.reopened f.hash

-- `IngestFile`.
unfoldable pub ingest_file : Calls → Option Upload → ℤ → World → Answer MediaFile × World
unfolding save_uploaded_media
ingest_file c none user w = (error (of_kind Kind.invalid_argument (lit "上传文件不能为空") []), w)
ingest_file c (some f) user w =
    if f.size == 0
    then (error (of_kind Kind.invalid_argument (lit "上传文件不能为空") []), w)
    else named_file c f user w (normalize_video_filename f.filename)

abbrev pub find_row : ℤ → List MediaFile → Option MediaFile
find_row id [] = none
find_row id (m ∷ rows) = let rest = find_row id rows in if int_eq m.id id then some m else rest

abbrev hash_in : Option MediaFile → Bytes
hash_in none = []
hash_in (some m) = elim m.content_hash [ none ↦ [] | some h ↦ h ]

-- The hash of the row, which is cached unless it is empty.
abbrev hash_of_row : Link → Link → ℤ → World → Answer Bytes × World
hash_of_row (down executed e) remember id w = (error e, w)
hash_of_row up remember id w =
    let h = hash_in (find_row id w.rows) in (answer h, remember_content_hash remember id h w)

abbrev hash_or_row : Link → Link → ℤ → World → Option Bytes → Answer Bytes × World
hash_or_row query remember id w none = hash_of_row query remember id w
hash_or_row query remember id w (some h) =
    if is_blank h then hash_of_row query remember id w else (answer h, w)

-- `ContentHash`.
unfoldable pub content_hash : Link → Link → Link → ℤ → World → Answer Bytes × World
unfolding remember_content_hash
content_hash get query remember id w = elim get [
  | down executed e ↦ hash_of_row query remember id w
  | up ↦ hash_or_row query remember id w (w.hashes id)
]

-- The query of a user's rows; their columns that a list leaves out are kept here.
unfoldable pub rows_of : ℤ → List MediaFile → List MediaFile
rows_of user [] = []
rows_of user (m ∷ rows) =
    let rest = rows_of user rows in if int_eq m.user_id user then m ∷ rest else rest

pub record Deletion : Type 0 where
  pub query : Link
  pub delete : Link
  -- what `ShouldDeleteObject` says, and the removal of the object
  pub removes : Bool
  pub remove : Link
  pub purge : Link
  pub invalidate : Link

abbrev pub without_row : ℤ → List MediaFile → List MediaFile
without_row id [] = []
without_row id (m ∷ rows) =
    let rest = without_row id rows in if int_eq m.id id then rest else m ∷ rest

-- The content hash is among the artifacts that are purged.
abbrev cleaned : Deletion → MediaFile → ℤ → World → World
cleaned d m user w =
    let w1 = if d.removes then remove_uploaded_object d.remove m.file_path w else w in
    invalidate_user_list d.invalidate user
      (applied d.purge w1 (record w1 { hashes = λ i. if int_eq i m.id then none else w1.hashes i }))

abbrev row_deleted : Deletion → ℤ → ℤ → World → MediaFile → Link → Option Error × World
row_deleted d id user w m (down executed e) = (some e, w)
row_deleted d id user w m up = (none, cleaned d m user w)

abbrev pub found_row : Link → Option MediaFile → Answer (Option MediaFile)
found_row (down executed e) m = error e
found_row up m = answer m

abbrev pub delete_owned : Deletion → ℤ → ℤ → World → Answer MediaFile → Option Error × World
delete_owned d id user w (error e) = (some e, w)
delete_owned d id user w (answer m) =
    row_deleted d id user (applied d.delete w (record w { rows = without_row id w.rows })) m
      d.delete

-- `DeleteOwnedMedia`, on the rows and their caches.
unfoldable pub delete_owned_media : Deletion → ℤ → ℤ → World → Option Error × World
unfolding remove_uploaded_object invalidate_user_list
delete_owned_media d id user w =
    delete_owned d id user w (require_owned_media (found_row d.query (find_row id w.rows)) user)

module _ (encode : List MediaFile → Answer Bytes) (decode : Bytes → Option (List MediaFile)) where
  abbrev pub cached : Link → ℤ → World → List MediaFile → Answer Bytes → World
  cached write user w rows (error e) = w
  cached write user w rows (answer text) =
      applied write w (record w { lists = λ u. if int_eq u user then some text else w.lists u })

  -- Past the cache.
  abbrev pub queried : Link → Link → ℤ → World → Answer (List MediaFile) × World
  queried (down executed e) write user w = (error e, w)
  queried up write user w =
      let rows = rows_of user w.rows in (answer rows, cached write user w rows (encode rows))

  abbrev pub decoded :
      Link → Link → ℤ → World → Option (List MediaFile) → Answer (List MediaFile) × World
  decoded query write user w none = queried query write user w
  decoded query write user w (some rows) = (answer rows, w)

  abbrev pub read : Link → Link → ℤ → World → Option Bytes → Answer (List MediaFile) × World
  read query write user w none = queried query write user w
  read query write user w (some text) = decoded query write user w (decode text)

  -- `ListByUser`.
  unfoldable pub list_by_user : Link → Link → Link → ℤ → World → Answer (List MediaFile) × World
  list_by_user get query write user w = elim get [
    | down executed e ↦ queried query write user w
    | up ↦ read query write user w (w.lists user)
  ]
