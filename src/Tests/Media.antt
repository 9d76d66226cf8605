-- ===== src/Tests/Media.antt =====
-- server-go/internal/media/media.go at concrete inputs.
use vparser.Prelude.{
  ap, sym, subst, inl, inr, Bool, Bool-cases, ◌&&◌, if◌then◌else◌, ◌≡◌, refl, true, false, Option,
  none, some, List, [], ◌∷◌, run, arith,
}
use vparser.Media.Objects.{
  World, Event, step, begin, delete_row, count, remove, take, verify, insert, release,
}
use vparser.Prelude.Int.{pos, int_eq, int_eq_iff}
use vparser.Redis.{up, down}
use vparser.Go.Bytes.{Bytes, lit, bytes_eq, eq-of_bytes_eq}
use vparser.Errors.{Error, Kind, of_kind}
use vparser.Mq.Effects.{Answer, answer, error}
use vparser.Media.{MediaFile}
use vparser.Media.Ingest
use vparser.Media.Ingest.{Calls, Upload, ingest_file, rows_of, list_by_user}
use vparser.Media.Ingest.Lists.{save, ask, fill, Site}
use vparser.Media.Ingest.Lists.Current.{lists_current}
use vparser.Media.Ingest.Lists
use vparser.Media.Ingest.Whole.{IsWhole, ingest-IsWhole}
use vparser.Media.Objects.Referenced.{at_rest, no_dangling_row}

-- The last row is being deleted without the lock while another user proves the content.
abbrev race : List Event
race =
    begin 0 false 4
    ∷ take 1
    ∷ verify 1
    ∷ delete_row 0
    ∷ count 0
    ∷ remove 0 true
    ∷ insert 1 5
    ∷ release 1
    ∷ []

abbrev from : World
from = at_rest (4 ∷ [])

abbrev world_or : World → Option World → World
world_or w none = w
world_or w (some v) = v

abbrev after_race : World
after_race = world_or from (run (step true) from race)

race_runs : run (step true) from race ≡ some after_race
unfolding run step
race_runs = refl

race_leaves : after_race.rows ≡ 5 ∷ []
unfolding run step
race_leaves = refl

no_dangling_row_example : after_race.object ≡ true
no_dangling_row_example = no_dangling_row true (4 ∷ []) race after_race race_runs 5 [] race_leaves

abbrev calls : Calls
calls = record { insert = up; row_id = pos 1; remember = up; invalidate = up; remove = up }

abbrev lost : Error
lost = of_kind Kind.transient (lit "connection") []

-- The row is refused.
abbrev refused : Calls
refused = record calls { insert = down false lost }

abbrev nothing : Ingest.World
nothing = record { rows = []; objects = λ o. false; hashes = λ i. none; lists = λ u. none }

abbrev file : Upload
file = record {
  size = 3;
  filename = lit "clip.mp4";
  hash = answer (lit "h");
  reopened = none;
  put = up;
  url = lit "/bucket/1.mp4";
}

ingest-IsWhole_example : IsWhole nothing (pos 7) (ingest_file refused (some file) (pos 7) nothing)
ingest-IsWhole_example = ingest-IsWhole refused file (pos 7) nothing refl refl refl refl

abbrev clip : MediaFile
clip = record {
  id = pos 1;
  user_id = pos 7;
  filename = lit "clip.mp4";
  file_path = lit "/bucket/1.mp4";
  content_hash = some (lit "h");
}

abbrev hash_or : Option Bytes → Bytes
hash_or none = []
hash_or (some h) = h

abbrev is_some : Option Bytes → Bool
is_some none = false
is_some (some h) = true

abbrev is_clip : MediaFile → Bool
is_clip m =
    int_eq m.id clip.id
    && (int_eq m.user_id clip.user_id
        && (bytes_eq m.filename clip.filename
            && (bytes_eq m.file_path clip.file_path
                && (is_some m.content_hash && bytes_eq (hash_or m.content_hash) (lit "h")))))

hash_known : (h : Option Bytes) (s : Bytes) → is_some h ≡ true → hash_or h ≡ s → h ≡ some s
hash_known none s a b = absurd (cc a)
hash_known (some h) s a b = ap some b

is_clip-same : (m : MediaFile) → is_clip m ≡ true → m ≡ clip
is_clip-same m h =
    let a : m.id ≡ clip.id = ground (arith, h, int_eq_iff m.id clip.id) in
    let b : m.user_id ≡ clip.user_id = ground (arith, h, int_eq_iff m.user_id clip.user_id) in
    let c : m.filename ≡ clip.filename =
      ground (arith, h, eq-of_bytes_eq m.filename clip.filename) in
    let d : m.file_path ≡ clip.file_path =
      ground (arith, h, eq-of_bytes_eq m.file_path clip.file_path) in
    let e : m.content_hash ≡ some (lit "h") =
      hash_known m.content_hash (lit "h") (ground (arith, h))
        (ground (arith, h, eq-of_bytes_eq (hash_or m.content_hash) (lit "h"))) in
    λ i. record { id = a i; user_id = b i; filename = c i; file_path = d i; content_hash = e i }

-- Texts for the empty list and the list of that row.
abbrev encode : List MediaFile → Answer Bytes
encode [] = answer (lit "[]")
encode (m ∷ []) = if is_clip m then answer (lit "[clip]") else error lost
encode (m ∷ n ∷ rows) = error lost

abbrev decode : Bytes → Option (List MediaFile)
decode text = if bytes_eq text (lit "[]") then some [] else some (clip ∷ [])

encode_reads :
    (rows : List MediaFile) (text : Bytes) → encode rows ≡ answer text → decode text ≡ some rows
unfolding bytes_eq lit
encode_reads [] text h = let is : lit "[]" ≡ text = cc h in subst (λ s. decode s ≡ some []) is refl
encode_reads (m ∷ []) text h = elim (Bool-cases (is_clip m)) [
  | inl same ↦
      let is : lit "[clip]" ≡ text = cc (rw same at h) in
      subst (λ s. decode s ≡ some (m ∷ [])) is (ap (λ x. some (x ∷ [])) (sym (is_clip-same m same)))
  | inr other ↦ absurd (ground (arith, other, h))
]
encode_reads (m ∷ n ∷ rows) text h = absurd (cc h)

abbrev one_row : Calls
one_row = record calls { row_id = pos 1 }

-- The list is cached, a row comes, and the list is cached again.
abbrev visits : List Lists.Event
visits =
    ask up up (pos 7)
    ∷ fill up
    ∷ save one_row (lit "clip.mp4") (lit "/bucket/1.mp4") (pos 7) (lit "h")
    ∷ ask up up (pos 7)
    ∷ fill up
    ∷ []

abbrev at_first : Site
at_first = record { world = nothing; drafts = [] }

abbrev site_or : Option Site → Site
site_or none = at_first
site_or (some s) = s

abbrev visited : Site
visited = site_or (run (Lists.step encode decode) at_first visits)

visits_done : run (Lists.step encode decode) at_first visits ≡ some visited
unfolding run Lists.step rows_of
visits_done = refl

lists_current_example :
    (list_by_user encode decode up up up (pos 7) visited.world).0
    ≡ answer (rows_of (pos 7) visited.world.rows)
lists_current_example =
    lists_current encode decode encode_reads visits nothing visited up up (pos 7) (λ u. tt) tt
      visits_done
