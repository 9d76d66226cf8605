-- ===== src/Media/Ingest/Whole.antt =====
-- What an ingest leaves of its object and its row.
use vparser.Prelude.{
  ◌≡◌, refl, ◌∙◌, Bool-cases, inl, inr, Bool, true, false, not, ◌||◌, Option, none, some, ◌∷◌,
  arith, ◌==◌,
}
use vparser.Prelude.Int.{ℤ}
use vparser.Redis.{Link, up, down, executed}
use vparser.Go.Bytes.{Bytes, bytes_eq, bytes_eq_iff, bytes_eq_refl}
use vparser.Errors.{Error}
use vparser.Mq.Effects.{Answer, answer, error}
use vparser.Media.{MediaFile}
use vparser.Media.Filename.{normalize_video_filename}
use vparser.Media.Ingest.{
  World, Calls, Upload, remember_content_hash, invalidate_user_list, remove_uploaded_object,
  inserted, told, with_name, save_uploaded_media, ingest_file, row_of, settled, put_then,
  put_object, hashed_file, named_file,
}
use vparser.Media.Ingest.Lists.{is_up}

-- A call that fails was not executed.
abbrev pub is_definite : Link → Bool
is_definite link = is_up link || not (executed link)

-- A media has its row and its object, or neither is left.
abbrev pub IsWhole : World → ℤ → Answer MediaFile × World → Type 0
IsWhole w user (answer m, w') =
    (w'.rows ≡ m ∷ w.rows) × (m.user_id ≡ user) × (w'.objects m.file_path ≡ true)
IsWhole w user (error e, w') = (w'.rows ≡ w.rows) × ((o : Bytes) → w'.objects o ≡ w.objects o)

module _ (c : Calls) (user : ℤ) (w : World) (removed : executed c.remove ≡ true) (url : Bytes)
    (fresh : w.objects url ≡ false) where
  -- The rows are those from before, and so are the objects but for the new one.
  Added : World → Type 0
  Added v =
      (v.rows ≡ w.rows)
      × (v.objects url ≡ true)
      × ((o : Bytes) → bytes_eq o url ≡ false → v.objects o ≡ w.objects o)

  removed-objects :
      (v : World)
      → Added v
      → (o : Bytes) → (remove_uploaded_object c.remove url v).objects o ≡ w.objects o
  unfolding remove_uploaded_object Added
  removed-objects v (rows, there, same) o =
      ground (arith, removed, same o, bytes_eq_iff o url, fresh)

  removed-rows : (v : World) → (remove_uploaded_object c.remove url v).rows ≡ v.rows
  unfolding remove_uploaded_object
  removed-rows v = ground arith

  told-IsWhole :
      (m : MediaFile) (md5 : Bytes) (v : World)
      → Added v
      → m.user_id ≡ user
      → m.file_path ≡ url
      → IsWhole w user (answer m, told c m md5 (inserted up m v))
  unfolding told remember_content_hash invalidate_user_list Added
  told-IsWhole m md5 v (rows, there, same) owner path =
      (ground (arith, rows), owner, ground (arith, there, path))

  settled-IsWhole :
      (link : Link) (m : MediaFile) (md5 : Bytes) (v : World)
      → is_definite link ≡ true
      → Added v
      → m.user_id ≡ user
      → m.file_path ≡ url
      → IsWhole w user
          (settled (remove_uploaded_object c.remove url) c m md5 (inserted link m v) link)
  unfolding Added
  settled-IsWhole up m md5 v definite added owner path = told-IsWhole m md5 v added owner path
  settled-IsWhole (down false e) m md5 v definite added owner path =
      (removed-rows v ∙ added.0, removed-objects v added)
  settled-IsWhole (down true e) m md5 v definite added owner path =
      absurd (ground (arith, definite))

  saved-IsWhole :
      (md5 : Bytes) (name : Answer Bytes) (v : World)
      → is_definite c.insert ≡ true
      → Added v
      → IsWhole w user (with_name (remove_uploaded_object c.remove url) c url user md5 v name)
  unfolding Added
  saved-IsWhole md5 (error e) v definite added = (removed-rows v ∙ added.0, removed-objects v added)
  saved-IsWhole md5 (answer name) v definite added =
      settled-IsWhole c.insert (row_of c name url user md5) md5 v definite added refl refl

module _ (c : Calls) (user : ℤ) (w : World) (removed : executed c.remove ≡ true)
    (inserts : is_definite c.insert ≡ true) (f : Upload) (fresh : w.objects f.url ≡ false) where
  stored-IsWhole :
      (link : Link) (name md5 : Bytes)
      → is_definite link ≡ true
      → IsWhole w user (put_then link c f user name md5 (put_object link f.url w))
  unfolding save_uploaded_media Added
  stored-IsWhole (down true e) name md5 definite = absurd (ground (arith, definite))
  stored-IsWhole (down false e) name md5 definite = (refl, λ o. refl)
  stored-IsWhole up name md5 definite =
      saved-IsWhole c user w removed f.url fresh md5 (normalize_video_filename name)
        (put_object up f.url w) inserts
        (refl, ground (arith, bytes_eq_refl f.url), λ o other. ground (arith, other))

  hashed-IsWhole :
      (name : Bytes) (md5 : Answer Bytes) (reopened : Option Error)
      → is_definite f.put ≡ true
      → IsWhole w user (hashed_file c f user w name reopened md5)
  hashed-IsWhole name (error e) reopened definite = (refl, λ o. refl)
  hashed-IsWhole name (answer md5) (some e) definite = (refl, λ o. refl)
  hashed-IsWhole name (answer md5) none definite = stored-IsWhole f.put name md5 definite

  named-IsWhole :
      (name : Answer Bytes) → is_definite f.put ≡ true → IsWhole w user (named_file c f user w name)
  named-IsWhole (error e) definite = (refl, λ o. refl)
  named-IsWhole (answer name) definite = hashed-IsWhole name f.hash f.reopened definite

-- A URL that is new, calls whose failure says that nothing was executed, and a removal that is
-- executed if it is needed: a media that is ingested has its row, for its user, and the object that
-- the row points at; after a failure the rows and the objects are those from before.
pub ingest-IsWhole :
    (c : Calls) (f : Upload) (user : ℤ) (w : World)
    → executed c.remove ≡ true
    → is_definite c.insert ≡ true
    → is_definite f.put ≡ true
    → w.objects f.url ≡ false
    → IsWhole w user (ingest_file c (some f) user w)
unfolding ingest_file
ingest-IsWhole c f user w removed inserts puts fresh = elim (Bool-cases (f.size == 0)) [
  | inl empty ↦ rw empty (refl, λ o. refl)
  | inr some_bytes ↦
      rw some_bytes
        (named-IsWhole c user w removed inserts f fresh (normalize_video_filename f.filename) puts)
]
