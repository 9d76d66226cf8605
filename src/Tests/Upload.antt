-- ===== src/Tests/Upload.antt =====
-- server-go/internal/upload/chunk.go at concrete inputs.
use vparser.Prelude.{
  ℕ, ◌+◌, ◌≤◌, ◌<◌, ◌≡◌, refl, Bool, true, false, Option, none, some, List, [], ◌∷◌, ◌==◌,
  if◌then◌else◌, arith, length,
}
use vparser.Prelude.Int.{pos}
use vparser.Redis.{up, down}
use vparser.Go.Bytes.{Bytes, lit, bytes_eq}
use vparser.Go.Decimal.{format_nat, format_int, parse_int}
use vparser.Errors.{Error, Kind, of_kind}
use vparser.Mq.Effects.{answer, error}
use vparser.Go.Text.{is_blank, utf16_length}
use vparser.Media.Filename.{normalize_video_filename}
use vparser.Upload.{
  uploaded_chunks, require_upload, Meta, Saved, World, Links, File, initialize, member,
}
use vparser.Upload.Complete.{Calls, complete}
use vparser.Upload.Once.{Event, upload, finish, after, saved_once, saved_twice}
use vparser.Upload.Consistency.{Consistent, after-Consistent, started}
use vparser.Upload.Whole.{complete_whole, IsJoined}

abbrev any_id : Bytes → Bool
any_id id = true

abbrev clip : Meta
clip = record { filename = lit "clip.mp4"; total_chunks = lit "2"; user_id = lit "3" }

initialized :
    initialize up (lit "u") (lit "clip.mp4") (pos 2) (pos 3) ≡ (answer (lit "u"), some clip)
unfolding initialize lit normalize_video_filename is_blank utf16_length bytes_eq format_int
    format_nat
initialized = refl

abbrev links : Links
links = record { meta = up; members = up; put = up; pipe = up }

abbrev chunk : Bytes → Option File
chunk s = some (record { size = length s; content = s; opened = none })

abbrev calls : Calls
calls = record {
  lock = answer true;
  marker = up;
  drop = up;
  owned = answer (pos 9);
  reads = links;
  temp = none;
  flush = none;
  copy = λ i. none;
  upload = none;
  row = up;
  row_id = pos 9;
  mark = up;
  remove = λ i. up;
  del = up;
}

abbrev life : List Event
life =
    upload links (pos 1) (pos 2) (chunk (lit "cd")) (pos 3)
    ∷ upload links (pos 0) (pos 2) (chunk (lit "ab")) (pos 3)
    ∷ finish calls (pos 3)
    ∷ finish calls (pos 3)
    ∷ []

saved_once_example : length (after any_id (lit "u") life (started (some clip))).saved ≤ 1
saved_once_example =
    saved_once any_id (lit "u") (started (some clip)) life refl
      (tt, (tt, ((refl, omega arith), ((refl, omega arith), tt))))

clip-Consistent : Consistent 2 (started (some clip))
unfolding parse_int lit
clip-Consistent = (refl, ([], refl, tt, tt))

after-Consistent_example : Consistent 2 (after any_id (lit "u") life (started (some clip)))
after-Consistent_example =
    after-Consistent any_id (lit "u") 2 life (started (some clip)) clip-Consistent

-- Both chunks are there.
abbrev ready : World
ready = record (started (some clip)) {
  parts = lit "1" ∷ lit "0" ∷ [];
  objects = λ i. if i == 0 then some (lit "ab") else if i == 1 then some (lit "cd") else none;
}

ready-Consistent : Consistent 2 ready
unfolding parse_int lit format_nat
ready-Consistent = (refl, (1 ∷ 0 ∷ [], refl, (refl, (refl, tt)), (omega arith, (omega arith, tt))))

completes : (complete any_id (lit "u") calls (pos 3) ready).0 ≡ answer (pos 9)
unfolding complete lit require_upload bytes_eq format_int format_nat parse_int uploaded_chunks
    normalize_video_filename is_blank utf16_length
completes = refl

complete_whole_example :
    (row : Saved) × ((complete any_id (lit "u") calls (pos 3) ready).1.saved ≡ row ∷ [])
    × (row.id ≡ pos 9)
    × (row.user_id ≡ pos 3)
    × IsJoined ready.objects 0 2 row.content
    × ((i : ℕ) → i < 2 → member (format_nat i) ready.parts ≡ true)
complete_whole_example =
    complete_whole any_id (lit "u") 2 calls (pos 3) (pos 9) ready (omega arith) ready-Consistent
      refl completes

abbrev no_marker : Error
no_marker = of_kind Kind.transient (lit "redis") []

saved_twice_example :
    let lossy = record calls { mark = down false no_marker } in
    let w' = (complete any_id (lit "u") lossy (pos 3) ready).1 in
    ((complete any_id (lit "u") lossy (pos 3) ready).0 ≡ error no_marker)
    × (length (complete any_id (lit "u") calls (pos 3) w').1.saved ≡ 0 + 2)
saved_twice_example =
    saved_twice any_id (lit "u") calls (pos 3) (pos 9) ready no_marker refl completes
