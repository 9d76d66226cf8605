-- ===== src/Checkpoint/Coherence.antt =====
-- The cache answers for the database.
use vparser.Prelude.{
  ◌≡◌, refl, true, ◌&&◌, ◌||◌, Option, none, some, arith, Bool-cases, inl, inr, ◌∙◌, if◌then◌else◌,
  subst,
}
use vparser.Prelude.Int.{ℤ, int_eq, int_eq_iff}
use vparser.Redis.{Link, up, down, applied, executed}
use vparser.Go.Bytes.{Bytes, bytes_eq, bytes_eq_iff}
use vparser.Model.{Stage, stage_from}
use vparser.Mq.Effects.{answer}
use vparser.Checkpoint.{Row, Field, Stores, Links, goal_key, stage_row, set_field, set_row}
use vparser.Checkpoint.Stages.{
  persisted, find_stage, with_cached, is_unknown, load_digest, cache_stage,
}
use vparser.Checkpoint.Keys.{goal_key_same, stage_row_same}

-- A cached stage is the stage of the row.
abbrev pub Agrees : Option Bytes → Option Row → Type 0
Agrees none row = Unit
Agrees (some v) none = ⊥
Agrees (some v) (some row) = v ≡ row.stage

unfoldable pub Coherent : Stores → Type 0
Coherent s =
    (id : ℤ) (d : Bytes) → Agrees (s.cache (goal_key id d) Field.stage) (s.rows id (stage_row d))

abbrev stage_of : Option Row → Stage
stage_of none = Stage.unknown
stage_of (some row) = stage_from row.stage

-- What the database says of each goal: the specification of the store.
abbrev pub stages : Stores → ℤ → Bytes → Stage
stages s id d = stage_of (s.rows id (stage_row d))

pub cache_stage-rows :
    (l : Links) (s : Stores) (key v : Bytes) → (cache_stage l s key v).rows ≡ s.rows
unfolding cache_stage
cache_stage-rows l s key v = ground arith

-- A stage that the row has may be cached, whatever happens to the calls.
cache_stage-Coherent :
    (l : Links) (s : Stores) (id : ℤ) (d v : Bytes)
    → Coherent s
    → Agrees (some v) (s.rows id (stage_row d))
    → Coherent (cache_stage l s (goal_key id d) v)
unfolding cache_stage Coherent
cache_stage-Coherent l s id d v h right i e =
    ground (arith, h i e, right, goal_key_same i id e d, int_eq_iff i id, bytes_eq_iff e d)

-- A cached stage that names no stage may be dropped.
drop-Coherent :
    (l : Link) (s : Stores) (id : ℤ) (d : Bytes)
    → Coherent s
    → Coherent (applied l s (set_field s (goal_key id d) Field.stage none))
unfolding Coherent
drop-Coherent up s id d h i e = ground (arith, h i e)
drop-Coherent (down executed x) s id d h i e = ground (arith, h i e)

persisted-Coherent :
    (l : Links) (s : Stores) (id : ℤ) (d : Bytes) (row : Option Row)
    → row ≡ s.rows id (stage_row d)
    → Coherent s
    → Coherent (persisted l s (goal_key id d) row).1
persisted-Coherent l s id d none e h = h
persisted-Coherent l s id d (some row) e h =
    cache_stage-Coherent l s id d row.stage h (subst (Agrees (some row.stage)) e refl)

find_stage-Coherent :
    (link : Link) (l : Links) (s : Stores) (id : ℤ) (d : Bytes)
    → Coherent s
    → Coherent (find_stage link l s id d).1
find_stage-Coherent up l s id d h = persisted-Coherent l s id d (s.rows id (stage_row d)) refl h
find_stage-Coherent (down executed e) l s id d h = h

pub with_cached-Coherent :
    (cached : Option Bytes) (l : Links) (s : Stores) (id : ℤ) (d : Bytes)
    → Coherent s
    → Coherent (with_cached cached l s id d).1
with_cached-Coherent none l s id d h = find_stage-Coherent l.find l s id d h
with_cached-Coherent (some v) l s id d h = elim (Bool-cases (is_unknown (stage_from v))) [
  | inl unknown ↦ rw unknown (find_stage-Coherent l.find l _ id d (drop-Coherent l.drop s id d h))
  | inr known ↦ rw known h
]

-- Loading leaves the rows alone.
persisted-rows :
    (l : Links) (s : Stores) (key : Bytes) (row : Option Row)
    → (persisted l s key row).1.rows ≡ s.rows
persisted-rows l s key none = refl
persisted-rows l s key (some row) = cache_stage-rows l s key row.stage

find_stage-rows :
    (link : Link) (l : Links) (s : Stores) (id : ℤ) (d : Bytes)
    → (find_stage link l s id d).1.rows ≡ s.rows
find_stage-rows up l s id d = persisted-rows l s (goal_key id d) (s.rows id (stage_row d))
find_stage-rows (down executed e) l s id d = refl

drop-rows :
    (link : Link) (s : Stores) (key : Bytes)
    → (applied link s (set_field s key Field.stage none)).rows ≡ s.rows
drop-rows up s key = refl
drop-rows (down executed e) s key = ground arith

pub with_cached-rows :
    (cached : Option Bytes) (l : Links) (s : Stores) (id : ℤ) (d : Bytes)
    → (with_cached cached l s id d).1.rows ≡ s.rows
with_cached-rows none l s id d = find_stage-rows l.find l s id d
with_cached-rows (some v) l s id d = elim (Bool-cases (is_unknown (stage_from v))) [
  | inl unknown ↦ rw unknown (find_stage-rows l.find l _ id d ∙ drop-rows l.drop s (goal_key id d))
  | inr known ↦ rw known refl
]

pub load-answer :
    (l : Links) (s : Stores) (id : ℤ) (d : Bytes)
    → Coherent s
    → l.find ≡ up
    → (load_digest l s id d).0 ≡ answer (stages s id d)
unfolding load_digest Coherent
load-answer l s id d h found = ground (arith, h id d, found, drop-rows l.drop s (goal_key id d))

-- The row of a goal is replaced.
pub set_row-stages :
    (s : Stores) (id i : ℤ) (d e : Bytes) (row : Row)
    → stages (set_row s id (stage_row d) row) i e
      ≡ (if int_eq i id && bytes_eq e d then stage_from row.stage else stages s i e)
set_row-stages s id i d e row = ground (arith, stage_row_same e d)

-- Once the row has a stage, it may be cached if the pipeline or the removal is executed.
pub save-Coherent :
    (l : Links) (s : Stores) (id : ℤ) (d : Bytes) (row : Row)
    → (executed l.pipe || executed l.undo) ≡ true
    → Coherent s
    → Coherent (cache_stage l (set_row s id (stage_row d) row) (goal_key id d) row.stage)
unfolding cache_stage Coherent
save-Coherent l s id d row done h i e =
    ground (arith, done, h i e, goal_key_same i id e d, stage_row_same e d)
