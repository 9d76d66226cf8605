-- ===== src/Media/Objects.antt =====
-- The rows that share one stored object: `DeleteOwnedMedia`, and the part of `Instant.Prove` of
-- server-go/internal/upload/instant.go under the object's lock. Both run concurrently: a step is one
-- access to the database, the object store or the lock. The lock is exclusive, and its lease does not
-- run out. The object has a content hash, without which nothing takes the lock and nothing but one
-- row can refer to it.
pub mod Referenced
use vparser.Prelude.{
  ℕ, Bool, true, false, ◌&&◌, Option, none, some, List, [], ◌∷◌, ◌==◌, if◌then◌else◌, length,
}

-- Where a deletion or a proof is. A deletion holds the lock or does not; a proof holds it.
pub data Phase : Type 0 where
  idle : Phase
  found : Bool → ℕ → Phase  -- the row `m` is about to be deleted
  deleted : Bool → Phase
  counted : Bool → ℕ → Phase
  proving : Phase
  verified : Phase
  leaving : Bool → Phase  -- with the lock, or without it

pub record World : Type 0 where
  pub rows : List ℕ
  pub object : Bool
  pub lock : Option ℕ
  pub phase : ℕ → Phase

pub data Event : Type 0 where
  -- `RequireOwnedMedia` and `TryLock`, which got the lock or did not
  begin : ℕ → Bool → ℕ → Event
  delete_row : ℕ → Event  -- `DeleteByID`
  lose_row : ℕ → Event  -- `DeleteByID` fails
  count : ℕ → Event  -- `CountFileReferences`
  lose_count : ℕ → Event  -- it fails
  remove : ℕ → Bool → Event  -- `ShouldDeleteObject` and `RemoveFile`, which is executed or not
  take : ℕ → Event  -- `TryLock` of a proof
  verify : ℕ → Event  -- `ReadRange` and `VerifyRange` succeed
  reject : ℕ → Event  -- they do not
  insert : ℕ → ℕ → Event  -- `SaveReference`, as the row `m`
  give_up : ℕ → Event  -- `SaveReference` fails
  release : ℕ → Event

-- `ShouldDeleteObject`.
abbrev pub should_delete_object : Bool → Bool → ℕ → Bool
should_delete_object managed locked remaining_refs = managed && locked && remaining_refs == 0

abbrev set_phase : World → ℕ → Phase → World
set_phase w p x = record w { phase = λ q. if q == p then x else w.phase q }

abbrev pub without : ℕ → List ℕ → List ℕ
without m [] = []
without m (n ∷ ns) = let rest = without m ns in if n == m then rest else n ∷ rest

abbrev is_free : Option ℕ → Bool
is_free none = true
is_free (some p) = false

-- A deletion whose `TryLock` fails goes on without the lock.
abbrev begin_delete : World → ℕ → Bool → ℕ → Phase → Option World
begin_delete w p true m idle =
    if is_free w.lock then some (set_phase (record w { lock = some p }) p (found true m)) else none
begin_delete w p false m idle = some (set_phase w p (found false m))
begin_delete w p got m x = none

abbrev delete_at : World → ℕ → Phase → Option World
delete_at w p (found locked m) =
    some (set_phase (record w { rows = without m w.rows }) p (deleted locked))
delete_at w p x = none

abbrev lose_row_at : World → ℕ → Phase → Option World
lose_row_at w p (found locked m) = some (set_phase w p (leaving locked))
lose_row_at w p x = none

abbrev count_at : World → ℕ → Phase → Option World
count_at w p (deleted locked) = some (set_phase w p (counted locked (length w.rows)))
count_at w p x = none

abbrev lose_count_at : World → ℕ → Phase → Option World
lose_count_at w p (deleted locked) = some (set_phase w p (leaving locked))
lose_count_at w p x = none

-- `managed` says whether the object is the server's own.
abbrev remove_at : Bool → World → ℕ → Bool → Phase → Option World
remove_at managed w p executed (counted locked n) =
    let gone = should_delete_object managed locked n && executed in
    some (set_phase (if gone then record w { object = false } else w) p (leaving locked))
remove_at managed w p executed x = none

abbrev take_at : World → ℕ → Phase → Option World
take_at w p idle =
    if is_free w.lock then some (set_phase (record w { lock = some p }) p proving) else none
take_at w p x = none

-- Only an object that is there can be read.
abbrev verify_at : World → ℕ → Phase → Option World
verify_at w p proving = if w.object then some (set_phase w p verified) else none
verify_at w p x = none

abbrev reject_at : World → ℕ → Phase → Option World
reject_at w p proving = some (set_phase w p (leaving true))
reject_at w p x = none

abbrev insert_at : World → ℕ → ℕ → Phase → Option World
insert_at w p m verified = some (set_phase (record w { rows = m ∷ w.rows }) p (leaving true))
insert_at w p m x = none

abbrev give_up_at : World → ℕ → Phase → Option World
give_up_at w p verified = some (set_phase w p (leaving true))
give_up_at w p x = none

abbrev release_at : World → ℕ → Phase → Option World
release_at w p (leaving true) = some (set_phase (record w { lock = none }) p idle)
release_at w p (leaving false) = some (set_phase w p idle)
release_at w p x = none

unfoldable pub step : Bool → World → Event → Option World
step managed w (begin p got m) = begin_delete w p got m (w.phase p)
step managed w (delete_row p) = delete_at w p (w.phase p)
step managed w (lose_row p) = lose_row_at w p (w.phase p)
step managed w (count p) = count_at w p (w.phase p)
step managed w (lose_count p) = lose_count_at w p (w.phase p)
step managed w (remove p executed) = remove_at managed w p executed (w.phase p)
step managed w (take p) = take_at w p (w.phase p)
step managed w (verify p) = verify_at w p (w.phase p)
step managed w (reject p) = reject_at w p (w.phase p)
step managed w (insert p m) = insert_at w p m (w.phase p)
step managed w (give_up p) = give_up_at w p (w.phase p)
step managed w (release p) = release_at w p (w.phase p)
