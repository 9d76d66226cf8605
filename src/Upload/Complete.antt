-- ===== src/Upload/Complete.antt =====
-- `Complete`: the chunks become one media file. Completions of one upload run one after another,
-- under its lock; one that does not get the lock changes nothing.
use vparser.Prelude.{
  ℕ, zero, suc, Bool, not, ◌&&◌, Option, none, some, List, [], ◌∷◌, ◌++◌, ltb, ◌==◌, if◌then◌else◌,
  length,
}
use vparser.Prelude.Int.{ℤ, pos, negsuc}
use vparser.Redis.{Link, up, down, applied, executed}
use vparser.Go.Bytes.{Bytes, lit}
use vparser.Go.Decimal.{format_int, format_nat, parse_int}
use vparser.Errors.{Error, Kind, of_kind, business_error, code_conflict}
use vparser.Mq.Effects.{Answer, answer, error}
use vparser.Media.Filename.{normalize_video_filename}
use vparser.Upload.{Meta, Saved, World, Links, invalid, require_upload, uploaded_chunks}

-- What the calls of one completion meet.
pub record Calls : Type 0 where
  pub lock : Answer Bool
  pub marker : Link
  -- the removal of a marker that is no number
  pub drop : Link
  -- `RequireOwnedMedia` of the media that the marker names
  pub owned : Answer ℤ
  pub reads : Links
  -- the temporary file, and what is written and closed at the end of the merge
  pub temp : Option Error
  pub flush : Option Error
  -- the read of each chunk
  pub copy : ℕ → Option Error
  pub upload : Option Error
  -- the row, with the id that it gets
  pub row : Link
  pub row_id : ℤ
  pub mark : Link
  pub remove : ℕ → Link
  pub del : Link

abbrev pub lost : Answer Bytes
lost = error (of_kind Kind.internal (lit "MinIO 文件读取失败") [])

abbrev pub joined : Bytes → Answer Bytes → Answer Bytes
joined c (error e) = error e
joined c (answer s) = answer (c ++ s)

abbrev pub copied : Option Error → Option Bytes → Answer Bytes → Answer Bytes
copied (some e) c rest = error e
copied none none rest = lost
copied none (some c) rest = joined c rest

-- The loop from chunk `i` on, for `n` chunks: what is written.
unfoldable pub merge : (ℕ → Option Error) → (ℕ → Option Bytes) → ℕ → ℕ → Answer Bytes
merge copy objects i zero = answer []
merge copy objects i (suc n) = copied (copy i) (objects i) (merge copy objects (suc i) n)

abbrev without : (ℕ → Link) → ℕ → (ℕ → Option Bytes) → ℕ → Option Bytes
without remove total objects i = if ltb i total && executed (remove i) then none else objects i

-- `cleanup`.
unfoldable pub cleanup : Calls → ℕ → World → World
cleanup a total w =
    let w1 = record w { objects = without a.remove total w.objects } in
    applied a.del w1 (record w1 { meta = none; parts = [] })

-- The row is in, and the success is recorded.
abbrev pub mark_done : Calls → ℕ → World → Answer ℤ × World
mark_done a total w =
    let w1 = applied a.mark w (record w { completed = some (format_int a.row_id) }) in
    elim a.mark [ down executed e ↦ (error e, w1) | up ↦ (answer a.row_id, cleanup a total w1) ]

-- `SaveUploadedMedia`, which normalizes the name once more.
abbrev pub save : Calls → ℕ → ℤ → Bytes → World → Answer Bytes → Answer ℤ × World
save a total user content w (error e) = (error e, w)
save a total user content w (answer name) =
    let row : Saved = record {
      id = a.row_id;
      filename = name;
      user_id = user;
      content = content;
    } in
    let w1 = applied a.row w (record w { saved = row ∷ w.saved }) in
    elim a.row [ down executed e ↦ (error e, w1) | up ↦ mark_done a total w1 ]

abbrev pub stored : Calls → ℕ → ℤ → Meta → World → Answer Bytes → Answer ℤ × World
stored a total user m w (error e) = (error e, w)
stored a total user m w (answer content) = elim a.flush [
  | some e ↦ (error e, w)
  | none ↦ elim a.upload [
    | some e ↦ (error e, w)
    | none ↦ save a total user content w (normalize_video_filename m.filename)
  ]
]

-- The merge, once all chunks are counted.
unfoldable pub merge_all : Calls → ℕ → ℤ → Meta → World → Answer ℤ × World
unfolding merge cleanup
merge_all a total user m w = elim a.temp [
  | some e ↦ (error e, w)
  | none ↦ stored a total user m w (merge a.copy w.objects 0 total)
]

abbrev pub incomplete : {A : Type 0} → ℕ → ℤ → Answer A
incomplete n total =
    let counts = format_nat n ++ (lit "/" ++ (format_int total ++ lit "）")) in
    error (business_error code_conflict (lit "分片尚未全部上传完成（已传 " ++ counts))

-- The number of chunks, if it is that of the parts.
abbrev pub counted : ℤ → List ℤ → Option ℕ
counted (pos n) parts = if length parts == n then some n else none
counted (negsuc n) parts = none

abbrev pub with_parts : Calls → ℤ → Meta → World → ℤ → Answer (List ℤ) → Answer ℤ × World
with_parts a user m w total (error e) = (error e, w)
with_parts a user m w total (answer parts) = elim (counted total parts) [
  | none ↦ (incomplete (length parts) total, w)
  | some n ↦ merge_all a n user m w
]

module _ (valid_id : Bytes → Bool) (id : Bytes) where
  -- The error's quotation of the text is left out.
  abbrev pub with_total : Calls → ℤ → Meta → World → Option ℤ → Answer ℤ × World
  with_total a user m w none = (invalid (lit "invalid number"), w)
  with_total a user m w (some total) =
      with_parts a user m w total (uploaded_chunks valid_id id a.reads user w)

  abbrev pub with_meta : Calls → ℤ → World → Answer Meta → Answer ℤ × World
  with_meta a user w (error e) = (error e, w)
  with_meta a user w (answer m) = with_total a user m w (parse_int m.total_chunks)

  -- Not completed before.
  unfoldable pub fresh : Calls → ℤ → World → Answer ℤ × World
  unfolding merge_all
  fresh a user w = with_meta a user w (require_upload valid_id id a.reads.meta user w)

  -- A marker that is no number is deleted.
  abbrev pub of_marker : Calls → ℤ → World → Option Bytes → Answer ℤ × World
  of_marker a user w none = fresh a user w
  of_marker a user w (some v) = elim (parse_int v) [
    | none ↦ fresh a user (applied a.drop w (record w { completed = none }))
    | some n ↦ (a.owned, w)
  ]

  abbrev pub asked : Link → Calls → ℤ → World → Answer ℤ × World
  asked (down executed e) a user w = (error e, w)
  asked up a user w = of_marker a user w w.completed

  abbrev pub with_lock : Calls → ℤ → World → Answer Bool → Answer ℤ × World
  with_lock a user w (error e) = (error e, w)
  with_lock a user w (answer ok) =
      if ok
      then asked a.marker a user w
      else (error (business_error code_conflict (lit "该上传任务正在合并中，请稍后重试")), w)

  -- `Complete`.
  unfoldable pub complete : Calls → ℤ → World → Answer ℤ × World
  unfolding fresh
  complete a user w =
      if not (valid_id id) then (invalid (lit "invalid uploadId"), w) else with_lock a user w a.lock
