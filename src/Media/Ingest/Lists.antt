-- ===== src/Media/Ingest/Lists.antt =====
-- What happens to the list of a user, in the cache and the database.
pub mod Rows
pub mod Current
use vparser.Prelude.{
  run, ap, subst, ◌⊎◌, ◌∙◌, sym, inl, inr, Bool-cases, ◌++◌, ◌≡◌, refl, Bool, true, false, not,
  ◌&&◌, ◌||◌, Option, none, some, List, [], ◌∷◌, arith, All, if◌then◌else◌,
}
use vparser.Prelude.Int.{ℤ, int_eq, int_eq_iff}
use vparser.Redis.{Link, up, down, executed}
use vparser.Go.Bytes.{Bytes}
use vparser.Mq.Effects.{Answer, answer, error}
use vparser.Media.{MediaFile, require_owned_media}
use vparser.Prelude.Runs.{run_keeps}
use vparser.Media.Ingest.{
  World, Calls, remember_content_hash, invalidate_user_list, remove_uploaded_object, inserted, told,
  with_name, save_uploaded_media, save_reference, rows_of, cached, list_by_user, row_of,
  without_row, find_row, Deletion, delete_owned_media, delete_owned, found_row,
}

pub data Event : Type 0 where
  save : Calls → Bytes → Bytes → ℤ → Bytes → Event
  refer : Calls → Bytes → Bytes → ℤ → Bytes → Event
  delete : Deletion → ℤ → ℤ → Event
  -- a list is looked for in the cache, and asked of the database if it is not there
  ask : Link → Link → ℤ → Event
  -- the oldest answer of the database goes into the cache, or the request ends without that
  fill : Link → Event
  list_ends : ℤ → Event

abbrev pub is_up : Link → Bool
is_up up = true
is_up (down done e) = false

-- A row that was inserted was reported so, and then the list was invalidated.
abbrev pub invalidates : Calls → Bool
invalidates c = not (executed c.insert) || (is_up c.insert && executed c.invalidate)

abbrev pub delete_invalidates : Deletion → Bool
delete_invalidates d = not (executed d.delete) || (is_up d.delete && executed d.invalidate)

-- A user with the rows that the database gave for a list.
abbrev pub Draft : Type 0
Draft = ℤ × List MediaFile

pub record Site : Type 0 where
  pub world : World
  -- oldest first
  pub drafts : List Draft

-- No list of the user is between the query and the cache.
abbrev pub no_draft : ℤ → List Draft → Bool
no_draft user [] = true
no_draft user (d ∷ drafts) = let rest = no_draft user drafts in not (int_eq d.0 user) && rest

abbrev pub has_id : ℤ → List MediaFile → Bool
has_id id [] = false
has_id id (m ∷ rows) = let rest = has_id id rows in int_eq m.id id || rest

abbrev pub guarded : Bool → Site → Option Site
guarded ready s = if ready then some s else none

module _ (encode : List MediaFile → Answer Bytes) (decode : Bytes → Option (List MediaFile)) where
  abbrev pub is_hit : Option Bytes → Bool
  is_hit none = false
  is_hit (some text) = elim (decode text) [ none ↦ false | some rows ↦ true ]

  -- The rows that a request has still to cache.
  abbrev pub drafted : Link → Link → ℤ → World → List Draft
  drafted get query user w =
      if is_up get && is_hit (w.lists user)
      then []
      else if is_up query
      then (user, rows_of user w.rows) ∷ []
      else []

  abbrev pub filled : Link → World → List Draft → Site
  filled write w [] = record { world = w; drafts = [] }
  filled write w (d ∷ drafts) = record {
    world = cached encode decode write d.0 w d.1 (encode d.1);
    drafts = drafts;
  }

  -- A step is taken only if a new row has a new id, a change of rows is reported so and followed by
  -- an invalidation, and no list of that user is between the query and the cache.
  unfoldable pub step : Site → Event → Option Site
  step s (save c name url user md5) =
      guarded (invalidates c && (not (has_id c.row_id s.world.rows) && no_draft user s.drafts))
        (record s { world = (save_uploaded_media c name url user md5 s.world).1 })
  step s (refer c name url user md5) =
      guarded (invalidates c && (not (has_id c.row_id s.world.rows) && no_draft user s.drafts))
        (record s { world = (save_reference c name url user md5 s.world).1 })
  step s (delete d id user) =
      guarded (delete_invalidates d && no_draft user s.drafts)
        (record s { world = (delete_owned_media d id user s.world).1 })
  step s (ask get query user) =
      some (record s { drafts = s.drafts ++ drafted get query user s.world })
  step s (fill write) = some (filled write s.world s.drafts)
  step s (list_ends user) = some (record s {
    world = record s.world { lists = λ u. if int_eq u user then none else s.world.lists u };
  })

  abbrev pub Says : Option Bytes → List MediaFile → Type 0
  Says none rows = Unit
  Says (some text) rows = decode text ≡ some rows

  -- Every cached list is that of the database.
  abbrev pub Agrees : World → Type 0
  Agrees w = (u : ℤ) → Says (w.lists u) (rows_of u w.rows)
