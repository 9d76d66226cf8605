-- ===== src/Upload/Consistency.antt =====
-- The parts of an upload through all that happens to it.
use vparser.Prelude.{
  ℕ, ◌≤◌, ◌≡◌, refl, sym, Bool, true, false, Option, none, some, List, [], ◌∷◌, arith, ◌⊎◌, inl,
  inr,
}
use vparser.Prelude.Int.{ℤ, pos, negsuc}
use vparser.Redis.{Link, up, down, applied}
use vparser.Go.Bytes.{Bytes}
use vparser.Go.Decimal.{parse_int, parse_int-format_int}
use vparser.Mq.Effects.{answer}
use vparser.Upload.{Meta, World, initialize, max_total_chunks, Links, File, upload_chunk}
use vparser.Upload.Complete.{Calls, complete, merge_all, cleanup}
use vparser.Upload.Outcomes.{complete-cases}
use vparser.Upload.Once.{
  Event, upload, finish, meta_ends, parts_end, marker_ends, object_ends, step, after,
}
use vparser.Upload.Parts.{Sound, add_part-Sound, upload-parts, upload-meta, upload-none}

-- The hash, while it is there, says `n` chunks.
abbrev pub Says : ℕ → Option Meta → Type 0
Says n none = Unit
Says n (some m) = parse_int m.total_chunks ≡ some (pos n)

abbrev pub Consistent : ℕ → World → Type 0
Consistent n w = Says n w.meta × Sound n w.parts

empty-Sound : (n : ℕ) → Sound n []
empty-Sound n = ([], refl, tt, tt)

merge_all-keeps :
    (a : Calls) (total : ℕ) (user : ℤ) (m : Meta) (w : World)
    → (((merge_all a total user m w).1.meta ≡ w.meta)
        × ((merge_all a total user m w).1.parts ≡ w.parts))
      ⊎ (((merge_all a total user m w).1.meta ≡ none) × ((merge_all a total user m w).1.parts ≡ []))
unfolding merge_all cleanup
merge_all-keeps a total user m w = ground arith

merge_all-Consistent :
    (n : ℕ) (a : Calls) (total : ℕ) (user : ℤ) (m : Meta) (w : World)
    → Consistent n w
    → Consistent n (merge_all a total user m w).1
merge_all-Consistent n a total user m w (says, sound) = elim (merge_all-keeps a total user m w) [
  | inl (meta, parts) ↦ (rw meta says, rw parts sound)
  | inr (meta, parts) ↦ (rw meta tt, rw parts (empty-Sound n))
]

drop-Consistent :
    (n : ℕ) (link : Link) (w : World)
    → Consistent n w
    → Consistent n (applied link w (record w { completed = none }))
drop-Consistent n up w h = h
drop-Consistent n (down true e) w h = h
drop-Consistent n (down false e) w h = h

module _ (valid_id : Bytes → Bool) (id : Bytes) (n : ℕ) where
  complete-Consistent :
      (a : Calls) (user : ℤ) (w : World)
      → Consistent n w
      → Consistent n (complete valid_id id a user w).1
  complete-Consistent a user w h =
      complete-cases (Consistent n) a user valid_id id w h
        (λ none_yet total m. merge_all-Consistent n a total user m w h)
        (λ s marked bad.
          let h' = drop-Consistent n a.drop w h in
          (h', λ total m. merge_all-Consistent n a total user m _ h'))

  upload-Sound :
      (l : Links) (index total : ℤ) (f : Option File) (user : ℤ) (w : World) (meta : Option Meta)
      → meta ≡ w.meta
      → Says n meta
      → Sound n w.parts
      → Sound n (upload_chunk valid_id id l index total f user w).1.parts
  upload-Sound l index total f user w none there says sound =
      rw (upload-none valid_id id l index total f user w (sym there)) sound
  upload-Sound l index total f user w (some m) there says sound =
      upload-parts valid_id id (Sound n) l w sound n
        (λ i small. add_part-Sound n i w.parts small sound) index total f user m (sym there) says

  step-Consistent : (w : World) (e : Event) → Consistent n w → Consistent n (step valid_id id w e)
  unfolding step
  step-Consistent w (upload l index total f user) (says, sound) = (
    rw (upload-meta valid_id id l index total f user w) says,
    upload-Sound l index total f user w w.meta refl says sound,
  )
  step-Consistent w (finish a user) h = complete-Consistent a user w h
  step-Consistent w meta_ends (says, sound) = (tt, sound)
  step-Consistent w parts_end (says, sound) = (says, empty-Sound n)
  step-Consistent w marker_ends h = h
  step-Consistent w (object_ends i) h = h

  -- From a consistent state of an upload of `n` chunks, in all that can happen to it: its hash,
  -- if it is there, names `n`, and its parts are different indexes below `n`, as they are
  -- printed.
  pub after-Consistent :
      (events : List Event) (w : World) → Consistent n w → Consistent n (after valid_id id events w)
  unfolding after
  after-Consistent [] w h = h
  after-Consistent (e ∷ events) w h = after-Consistent events _ (step-Consistent w e h)

-- The world of an upload whose hash was just stored.
abbrev pub started : Option Meta → World
started meta = record { meta = meta; parts = []; objects = λ i. none; completed = none; saved = [] }

-- An upload starts with 1 to 410 chunks, and consistent.
pub initialize-Consistent :
    (link : Link) (id filename : Bytes) (total user : ℤ) (answered : Bytes) (meta : Option Meta)
    → initialize link id filename total user ≡ (answer answered, meta)
    → (n : ℕ) × (total ≡ pos n) × (1 ≤ n) × (n ≤ max_total_chunks) × Consistent n (started meta)
initialize-Consistent link id filename (negsuc k) user answered meta h =
    absurd (unfold initialize in ground (arith, h))
initialize-Consistent link id filename (pos n) user answered meta h =
    let few : (1 ≤ n) × (n ≤ max_total_chunks) = unfold initialize in ground (arith, h) in
    let printed : Says n meta =
      unfold initialize in ground (arith, h, parse_int-format_int (pos n) (omega (arith, few.1))) in
    (n, refl, few.0, few.1, (printed, empty-Sound n))
