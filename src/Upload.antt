-- ===== src/Upload.antt =====
-- server-go/internal/upload/chunk.go: the state of one chunked upload and the operations on it. The
-- upload's hash, its set of parts and its completion marker are in Redis, the chunks in the object
-- store, the media rows in the database. The parsing of UUIDs is a parameter.
pub mod Complete
pub mod Outcomes
pub mod Once
pub mod Parts
pub mod Consistency
pub mod Counting
pub mod Whole
pub mod Instant
use vparser.Prelude.{
  ℕ, zero, suc, ◌+◌, ◌*◌, ◌≡◌, refl, Bool, true, false, not, ◌&&◌, ◌||◌, Option, none, some, List,
  [], ◌∷◌, ltb, leb, ◌==◌, if◌then◌else◌,
}
use vparser.Prelude.Int.{ℤ, pos, negsuc, int_eq}
use vparser.Redis.{Link, up, down, applied, failure}
use vparser.Go.Bytes.{Bytes, lit, bytes_eq}
use vparser.Go.Decimal.{format_int, format_nat, parse_int}
use vparser.Errors.{Error, Kind, of_kind}
use vparser.Mq.Effects.{Answer, answer, error}
use vparser.Media.Filename.{normalize_video_filename}

abbrev pub max_chunk_bytes : ℕ
max_chunk_bytes = 5 * 1024 * 1024

abbrev pub max_total_chunks : ℕ
max_total_chunks = 410

-- The hash of an upload.
pub record Meta : Type 0 where
  pub filename : Bytes
  pub total_chunks : Bytes
  pub user_id : Bytes

-- A media row that a completion inserted, with the content of its object.
pub record Saved : Type 0 where
  pub id : ℤ
  pub filename : Bytes
  pub user_id : ℤ
  pub content : Bytes

pub record World : Type 0 where
  pub meta : Option Meta
  -- a set, without repetitions
  pub parts : List Bytes
  pub objects : ℕ → Option Bytes
  pub completed : Option Bytes
  -- newest first
  pub saved : List Saved

abbrev pub invalid : {A : Type 0} → Bytes → Answer A
invalid text = error (of_kind Kind.invalid_argument text [])

abbrev in_range : ℤ → Bool
in_range (pos n) = ltb 0 n && leb n max_total_chunks
in_range (negsuc n) = false

-- `Initialize`, with the id that was drawn: what it answers, and the hash that it stores.
unfoldable pub initialize : Link → Bytes → Bytes → ℤ → ℤ → Answer Bytes × Option Meta
initialize link id filename total user = elim (normalize_video_filename filename) [
  | error e ↦ (error e, none)
  | answer name ↦
      let meta : Meta = record {
        filename = name;
        total_chunks = format_int total;
        user_id = format_int user;
      } in
      if not (in_range total)
      then (invalid (lit "totalChunks must be between 1 and 410"), none)
      else elim link [
        | up ↦ (answer id, some meta)
        | down executed e ↦ (error e, if executed then some meta else none)
      ]
]

-- `SADD`.
abbrev pub member : Bytes → List Bytes → Bool
member p [] = false
member p (q ∷ parts) = let rest = member p parts in bytes_eq p q || rest

unfoldable pub add_part : Bytes → List Bytes → List Bytes
add_part p parts = if member p parts then parts else p ∷ parts

-- `Atoi` of every member; the error's quotation of the member is left out.
unfoldable pub parse_parts : List Bytes → Answer (List ℤ)
parse_parts [] = answer []
parse_parts (p ∷ parts) = elim (parse_int p) [
  | none ↦ invalid (lit "invalid number")
  | some n ↦ elim (parse_parts parts) [ error e ↦ error e | answer ns ↦ answer (n ∷ ns) ]
]

abbrev int_leb : ℤ → ℤ → Bool
int_leb (pos m) (pos n) = leb m n
int_leb (pos m) (negsuc n) = false
int_leb (negsuc m) (pos n) = true
int_leb (negsuc m) (negsuc n) = leb n m

-- `sort.Ints`.
abbrev pub insert : ℤ → List ℤ → List ℤ
insert x [] = x ∷ []
insert x (y ∷ ys) = let rest = insert x ys in if int_leb x y then x ∷ y ∷ ys else y ∷ rest

unfoldable pub sort : List ℤ → List ℤ
sort [] = []
sort (x ∷ xs) = insert x (sort xs)

-- What the calls of `UploadedChunks` and `UploadChunk` meet.
pub record Links : Type 0 where
  pub meta : Link
  pub members : Link
  pub put : Link
  pub pipe : Link

pub record File : Type 0 where
  pub size : ℕ
  pub content : Bytes
  pub opened : Option Error

-- The chunk index, if it is below the number of chunks.
abbrev pub index_of : ℤ → ℤ → Option ℕ
index_of (pos i) (pos n) = if ltb i n then some i else none
index_of i n = none

module _ (valid_id : Bytes → Bool) (id : Bytes) where
  abbrev owned : Option Meta → ℤ → Answer Meta
  owned none user = invalid (lit "uploadId does not exist or has expired")
  owned (some m) user =
      if bytes_eq (format_int user) m.user_id
      then answer m
      else error (of_kind Kind.forbidden (lit "无权访问该上传任务") [])

  -- `requireUpload`.
  unfoldable pub require_upload : Link → ℤ → World → Answer Meta
  require_upload link user w =
      if not (valid_id id)
      then invalid (lit "invalid uploadId")
      else elim link [ down executed e ↦ error e | up ↦ owned w.meta user ]

  abbrev sorted : Answer (List ℤ) → Answer (List ℤ)
  sorted (error e) = error e
  sorted (answer ns) = answer (sort ns)

  -- `UploadedChunks`.
  unfoldable pub uploaded_chunks : Links → ℤ → World → Answer (List ℤ)
  unfolding require_upload parse_parts sort
  uploaded_chunks l user w = elim (require_upload l.meta user w) [
    | error e ↦ error e
    | answer m ↦ elim l.members [ down executed e ↦ error e | up ↦ sorted (parse_parts w.parts) ]
  ]

  -- How the two writes end.
  abbrev pub written : Link → Link → World → World → Option Error × World
  written (down executed e) pipe w1 w2 = (some e, w1)
  written up pipe w1 w2 = (failure pipe, w2)

  -- The chunk is stored, and then marked as received.
  abbrev pub receive : Links → ℕ → Bytes → World → Option Error × World
  receive l i content w =
      let w1 =
        applied l.put w
          (record w { objects = λ j. if j == i then some content else w.objects j }) in
      written l.put l.pipe w1
        (applied l.pipe w1 (record w1 { parts = add_part (format_nat i) w1.parts }))

  abbrev pub opened : Links → File → ℕ → World → Option Error → Option Error × World
  opened l f i w (some e) = (some e, w)
  opened l f i w none = receive l i f.content w

  abbrev pub bad_index : Error
  bad_index = of_kind Kind.invalid_argument (lit "invalid chunk index or totalChunks") []

  abbrev pub checked : Links → ℤ → ℤ → File → World → Option ℤ → Option Error × World
  checked l index total f w none =
      (some (of_kind Kind.invalid_argument (lit "invalid number") []), w)
  checked l index total f w (some expected) =
      if not (int_eq total expected) then (some bad_index, w) else elim (index_of index expected) [
        | none ↦ (some bad_index, w)
        | some i ↦ opened l f i w f.opened
      ]

  abbrev pub accepted : Links → ℤ → ℤ → File → World → Answer Meta → Option Error × World
  accepted l index total f w (error e) = (some e, w)
  accepted l index total f w (answer m) = checked l index total f w (parse_int m.total_chunks)

  -- `UploadChunk`.
  unfoldable pub upload_chunk : Links → ℤ → ℤ → Option File → ℤ → World → Option Error × World
  unfolding require_upload add_part
  upload_chunk l index total none user w =
      (some (of_kind Kind.invalid_argument (lit "chunk is empty") []), w)
  upload_chunk l index total (some f) user w =
      if f.size == 0
      then (some (of_kind Kind.invalid_argument (lit "chunk is empty") []), w)
      else if ltb max_chunk_bytes f.size
      then (some (of_kind Kind.invalid_argument (lit "chunk size cannot exceed 5MB") []), w)
      else accepted l index total f w (require_upload l.meta user w)
