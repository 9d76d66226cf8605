-- ===== src/Upload/Once.antt =====
-- How many media rows one upload makes.
use vparser.Prelude.{
  ℕ, ◌+◌, ◌≤◌, ◌≡◌, refl, Bool, true, false, not, Option, none, some, List, [], ◌∷◌, arith, ◌==◌,
  if◌then◌else◌, length, All, ◌⊎◌, inl,
}
use vparser.Prelude.Int.{ℤ}
use vparser.Redis.{Link, up, down, applied, executed}
use vparser.Go.Bytes.{Bytes}
use vparser.Go.Decimal.{parse_int, InRange, parse_int-format_int}
use vparser.Errors.{Error}
use vparser.Mq.Effects.{answer, error}
use vparser.Upload
use vparser.Upload.{World, File, Links, upload_chunk, uploaded_chunks, require_upload, add_part}
use vparser.Upload.Outcomes.{complete-cases}
use vparser.Upload.Complete.{Calls, complete, fresh, merge_all, cleanup}

-- What happens to an upload; keys and objects end on their own.
pub data Event : Type 0 where
  upload : Links → ℤ → ℤ → Option File → ℤ → Event
  finish : Calls → ℤ → Event
  meta_ends parts_end marker_ends : Event
  object_ends : ℕ → Event

module _ (valid_id : Bytes → Bool) (id : Bytes) where
  unfoldable pub step : World → Event → World
  step w (upload l index total f user) = (upload_chunk valid_id id l index total f user w).1
  step w (finish a user) = (complete valid_id id a user w).1
  step w meta_ends = record w { meta = none }
  step w parts_end = record w { parts = [] }
  step w marker_ends = record w { completed = none }
  step w (object_ends i) = record w { objects = λ j. if j == i then none else w.objects j }

  unfoldable pub after : List Event → World → World
  after [] w = w
  after (e ∷ events) w = after events (step w e)

-- A row that was inserted was reported so, and then the marker was stored, which has not ended.
abbrev pub recorded : Calls → Bool
recorded a = elim a.row [ up ↦ executed a.mark | down done e ↦ not done ]

abbrev pub IsRecorded : Event → Type 0
IsRecorded (finish a user) = (recorded a ≡ true) × InRange a.row_id
IsRecorded marker_ends = ⊥
IsRecorded e = Unit

abbrev is_number : Option Bytes → Bool
is_number none = false
is_number (some v) = elim (parse_int v) [ none ↦ false | some n ↦ true ]

-- No row, or one and its marker.
abbrev Once : World → Type 0
Once w = (length w.saved ≡ 0) ⊎ ((length w.saved ≡ 1) × (is_number w.completed ≡ true))

merge_all-Once :
    (a : Calls) (total : ℕ) (user : ℤ) (m : Upload.Meta) (w : World)
    → recorded a ≡ true
    → InRange a.row_id
    → length w.saved ≡ 0
    → Once (merge_all a total user m w).1
unfolding merge_all cleanup
merge_all-Once a total user m w ok range h =
    ground (arith, ok, h, parse_int-format_int a.row_id range)

drop-saved :
    (link : Link) (w : World) → (applied link w (record w { completed = none })).saved ≡ w.saved
drop-saved up w = refl
drop-saved (down executed e) w = ground arith

module _ (valid_id : Bytes → Bool) (id : Bytes) where
  complete-Once :
      (a : Calls) (user : ℤ) (w : World)
      → recorded a ≡ true
      → InRange a.row_id
      → Once w
      → Once (complete valid_id id a user w).1
  complete-Once a user w ok range h =
      complete-cases Once a user valid_id id w h
        (λ none_yet n m. merge_all-Once a n user m w ok range (ground (arith, none_yet, h)))
        (λ s marked bad.
          let dropped = applied a.drop w (record w { completed = none }) in
          let empty : length dropped.saved ≡ 0 =
            rw (drop-saved a.drop w) (ground (arith, marked, bad, h)) in
          (inl empty, λ n m. merge_all-Once a n user m dropped ok range empty))

  upload-saved :
      (l : Links) (index total : ℤ) (f : Option File) (user : ℤ) (w : World)
      → ((upload_chunk valid_id id l index total f user w).1.saved ≡ w.saved)
        × ((upload_chunk valid_id id l index total f user w).1.completed ≡ w.completed)
  unfolding upload_chunk require_upload add_part
  upload-saved l index total f user w = (ground arith, ground arith)

  step-Once : (w : World) (e : Event) → IsRecorded e → Once w → Once (step valid_id id w e)
  unfolding step
  step-Once w (upload l index total f user) ok h =
      let (same, kept) = upload-saved l index total f user w in rw same (rw kept h)
  step-Once w (finish a user) (ok, range) h = complete-Once a user w ok range h
  step-Once w meta_ends ok h = h
  step-Once w parts_end ok h = h
  step-Once w marker_ends ok h = absurd ok
  step-Once w (object_ends i) ok h = h

  after-Once :
      (events : List Event) (w : World)
      → All IsRecorded events
      → Once w
      → Once (after valid_id id events w)
  unfolding after
  after-Once [] w ok h = h
  after-Once (e ∷ events) w (ok, oks) h = after-Once events _ oks (step-Once w e ok h)

  -- From an upload without rows: while every completion that inserts its row is told so and then
  -- stores its marker, with an id that fits in 64 bits, and while the marker has not ended, which it
  -- does after 24 hours, one media row is made at most, whatever else fails, ends or comes in between.
  pub saved_once :
      (w : World) (events : List Event)
      → w.saved ≡ []
      → All IsRecorded events
      → length (after valid_id id events w).saved ≤ 1
  saved_once w events h ok =
      let once = after-Once events w ok (inl (ground (arith, h))) in ground (arith, once)

  -- An upload without a marker, whose completion would succeed: if the marker cannot be stored,
  -- it fails behind the insertion of its row, and the next completion inserts a second row.
  pub saved_twice :
      (a : Calls) (user x : ℤ) (w : World) (e : Error)
      → w.completed ≡ none
      → (complete valid_id id a user w).0 ≡ answer x
      → let w' = (complete valid_id id (record a { mark = down false e }) user w).1 in
        ((complete valid_id id (record a { mark = down false e }) user w).0 ≡ error e)
        × (length (complete valid_id id a user w').1.saved ≡ length w.saved + 2)
  unfolding complete fresh merge_all cleanup require_upload uploaded_chunks
  saved_twice a user x w e none_yet done =
      (ground (arith, none_yet, done), ground (arith, none_yet, done))
