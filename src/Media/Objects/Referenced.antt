-- ===== src/Media/Objects/Referenced.antt =====
-- An object is there as long as a row points at it.
use vparser.Prelude.{
  ℕ, zero, ◌≡◌, refl, Bool, true, false, none, some, List, [], ◌∷◌, arith, ==_iff, run, run_keeps,
  length,
}
use vparser.Media.Objects.{
  World, Phase, Event, step, idle, found, deleted, counted, proving, verified, leaving, begin,
  delete_row, lose_row, count, lose_count, remove, take, verify, reject, insert, give_up, release,
  without,
}

-- Whether a phase holds the lock.
abbrev holds_lock : Phase → Bool
holds_lock idle = false
holds_lock (found locked m) = locked
holds_lock (deleted locked) = locked
holds_lock (counted locked n) = locked
holds_lock proving = true
holds_lock verified = true
holds_lock (leaving locked) = locked

abbrev is_none_left : List ℕ → Bool
is_none_left [] = true
is_none_left (m ∷ ms) = false

-- What a phase under the lock knows.
abbrev Knows : World → Phase → Type 0
Knows w (counted true zero) = is_none_left w.rows ≡ true
Knows w verified = w.object ≡ true
Knows w x = Unit

abbrev actor : Event → ℕ
actor (begin p got m) = p
actor (delete_row p) = p
actor (lose_row p) = p
actor (count p) = p
actor (lose_count p) = p
actor (remove p executed) = p
actor (take p) = p
actor (verify p) = p
actor (reject p) = p
actor (insert p m) = p
actor (give_up p) = p
actor (release p) = p

abbrev row_of : Phase → ℕ
row_of (found locked m) = m
row_of x = 0

-- A count of no rows is right.
zero_rows : (rows : List ℕ) → length rows ≡ 0 → is_none_left rows ≡ true
zero_rows [] h = refl
zero_rows (m ∷ rows) h = absurd (omega (arith, h))

without-left :
    (m : ℕ) (rows : List ℕ) → is_none_left rows ≡ true → is_none_left (without m rows) ≡ true
without-left m [] h = refl
without-left m (n ∷ rows) h = absurd (ground (arith, h))

pub record IsSafe (w : World) : Type 0 where
  pub owned : (p : ℕ) → holds_lock (w.phase p) ≡ true → w.lock ≡ some p
  pub known : (p : ℕ) → Knows w (w.phase p)
  pub referenced : is_none_left w.rows ≡ false → w.object ≡ true

module _ (managed : Bool) (w v : World) (h : IsSafe w) where
  step-referenced :
      (e : Event) → step managed w e ≡ some v → is_none_left v.rows ≡ false → v.object ≡ true
  unfolding step
  step-referenced (begin p got m) e left = ground (arith, h.referenced)
  step-referenced (delete_row p) e left =
      ground (arith, h.referenced, left, without-left (row_of (w.phase p)) w.rows)
  step-referenced (remove p executed) e left = ground (arith, h.referenced, h.known p)
  step-referenced (insert p m) e left = ground (arith, h.known p)
  step-referenced (release p) e left = ground (arith, h.referenced)
  step-referenced x e left = ground (arith, h.referenced)

  step-owned :
      (e : Event)
      → step managed w e ≡ some v
      → (q : ℕ) → holds_lock (v.phase q) ≡ true
      → v.lock ≡ some q
  unfolding step
  step-owned x e q held = ground (arith, ==_iff q (actor x), h.owned q, h.owned (actor x))

  step-known : (e : Event) → step managed w e ≡ some v → (q : ℕ) → Knows v (v.phase q)
  unfolding step
  step-known x e q = ground (
    arith,
    ==_iff q (actor x),
    h.owned q,
    h.owned (actor x),
    h.known q,
    h.known (actor x),
    zero_rows w.rows,
    without-left (row_of (w.phase (actor x))) w.rows,
  )

abbrev pub at_rest : List ℕ → World
at_rest rows = record { rows = rows; object = true; lock = none; phase = λ p. idle }

step-IsSafe :
    (managed : Bool) (w v : World) (e : Event) → step managed w e ≡ some v → IsSafe w → IsSafe v
step-IsSafe managed w v e moved h = record {
  owned = step-owned managed w v h e moved;
  known = step-known managed w v h e moved;
  referenced = step-referenced managed w v h e moved;
}

-- However deletions and instant uploads of one object interleave, and whichever of their calls fail,
-- a row that is left points at an object that is there.
pub no_dangling_row :
    (managed : Bool) (rows : List ℕ) (events : List Event) (w : World)
    → run (step managed) (at_rest rows) events ≡ some w
    → (m : ℕ) (ms : List ℕ) → w.rows ≡ m ∷ ms
    → w.object ≡ true
no_dangling_row managed rows events w h m ms left =
    let safe =
      run_keeps (step managed) IsSafe (step-IsSafe managed) (at_rest rows) w events h (record {
        owned = λ p held. absurd (ground (arith, held));
        known = λ p. tt;
        referenced = λ some_left. refl;
      }) in
    safe.referenced (rw left refl)
