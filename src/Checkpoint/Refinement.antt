-- ===== src/Checkpoint/Refinement.antt =====
-- The store of stages behaves like the database alone.
use vparser.Prelude.{
  ◌≡◌, refl, ◌∙◌, ap, ap₂, true, ◌&&◌, ◌||◌, Option, none, some, List, [], ◌∷◌, arith,
  if◌then◌else◌, All,
}
use vparser.Prelude.Int.{ℤ, int_eq}
use vparser.Redis.{up, executed}
use vparser.Go.Bytes.{Bytes, bytes_eq}
use vparser.Errors.{Error}
use vparser.Model.{Stage, stage_name}
use vparser.Model.Names.{stage_from-stage_name}
use vparser.Mq.Effects.{Answer, answer}
use vparser.Checkpoint.{Row, Field, Stores, Links, goal_key, stage_row, set_row, expire}
use vparser.Checkpoint.Stages.{
  load_digest, save_digest, fail_digest, cache_stage, remember_goal_key,
}
use vparser.Checkpoint.Coherence.{
  Coherent, stages, load-answer, with_cached-Coherent, with_cached-rows, save-Coherent,
  set_row-stages, cache_stage-rows,
}

-- The operations on the stages of goals, by digest, with what their calls meet; a hash may end.
pub data Op : Type 0 where
  load : Links → ℤ → Bytes → Op
  save : Links → ℤ → Bytes → Stage → Op
  fail : Links → ℤ → Bytes → Stage → Error → Op
  ends : Bytes → Op

-- The stage that a load gives, and the stores behind the operation.
unfoldable pub perform : Op → Stores → Option (Answer Stage) × Stores
unfolding load_digest save_digest fail_digest
perform (load l id d) s = let (r, s') = load_digest l s id d in (some r, s')
perform (save l id d new) s = (none, (save_digest l s id d new).1)
perform (fail l id d behind e) s = (none, (fail_digest l s id d behind e).1)
perform (ends key) s = (none, expire s key)

-- The database answers, and what is written to it is written to the cache or removed from it.
abbrev pub Reliable : Op → Type 0
Reliable (load l id d) = l.find ≡ up
Reliable (save l id d new) = (l.upsert ≡ up) × (executed l.pipe || executed l.undo ≡ true)
Reliable (fail l id d behind e) = (l.upsert ≡ up) × (executed l.pipe || executed l.undo ≡ true)
Reliable (ends key) = Unit

-- The specification: a stage for each goal.
abbrev pub Spec : Type 0
Spec = ℤ → Bytes → Stage

abbrev pub update : Spec → ℤ → Bytes → Stage → Spec
update m id d new i e = if int_eq i id && bytes_eq e d then new else m i e

abbrev pub specified : Op → Spec → Option (Answer Stage) × Spec
specified (load l id d) m = (some (answer (m id d)), m)
specified (save l id d new) m = (none, update m id d new)
specified (fail l id d behind e) m = (none, update m id d Stage.failed)
specified (ends key) m = (none, m)

abbrev pub outputs : List Op → Stores → List (Option (Answer Stage))
outputs [] s = []
outputs (op ∷ ops) s = (perform op s).0 ∷ outputs ops (perform op s).1

abbrev pub specified_outputs : List Op → Spec → List (Option (Answer Stage))
specified_outputs [] m = []
specified_outputs (op ∷ ops) m = (specified op m).0 ∷ specified_outputs ops (specified op m).1

-- The row of a stage written, and the stage cached.
abbrev written : Links → Stores → ℤ → Bytes → Stage → Stores
written l s id d new =
    let row : Row = record { stage = stage_name new; payload = none } in
    cache_stage l (set_row s id (stage_row d) row) (goal_key id d) (stage_name new)

-- Stores that show the same of every goal.
SameView : Stores → Stores → Type 0
SameView s s' =
    ((k : Bytes) → s'.cache k Field.stage ≡ s.cache k Field.stage)
    × ((i : ℤ) (n : Bytes) → s'.rows i n ≡ s.rows i n)

SameView-Coherent : (s s' : Stores) → SameView s s' → Coherent s → Coherent s'
unfolding SameView Coherent
SameView-Coherent s s' (cached, stored) h i e =
    rw (cached (goal_key i e)) (rw (stored i (stage_row e)) (h i e))

save-SameView :
    (l : Links) (s : Stores) (id : ℤ) (d : Bytes) (new : Stage)
    → l.upsert ≡ up
    → SameView (written l s id d new) (save_digest l s id d new).1
unfolding save_digest remember_goal_key SameView
save-SameView l s id d new stored = (λ k. ground arith, λ i n. ground arith)

fail-SameView :
    (l : Links) (s : Stores) (id : ℤ) (d : Bytes) (behind : Stage) (x : Error)
    → l.upsert ≡ up
    → SameView (written l s id d Stage.failed) (fail_digest l s id d behind x).1
unfolding fail_digest remember_goal_key SameView
fail-SameView l s id d behind x stored = (λ k. ground arith, λ i n. ground arith)

written-Coherent :
    (l : Links) (s : Stores) (id : ℤ) (d : Bytes) (new : Stage)
    → (executed l.pipe || executed l.undo) ≡ true
    → Coherent s
    → Coherent (written l s id d new)
written-Coherent l s id d new cached h =
    save-Coherent l s id d (record { stage = stage_name new; payload = none }) cached h

written-stages :
    (l : Links) (s : Stores) (id : ℤ) (d : Bytes) (new : Stage) (i : ℤ) (e : Bytes)
    → stages (written l s id d new) i e ≡ update (stages s) id d new i e
written-stages l s id d new i e =
    let row : Row = record { stage = stage_name new; payload = none } in
    let s1 = set_row s id (stage_row d) row in
    rw (cache_stage-rows l s1 (goal_key id d) (stage_name new))
      (set_row-stages s id i d e row ∙ rw (stage_from-stage_name new) refl)

expire-Coherent : (s : Stores) (key : Bytes) → Coherent s → Coherent (expire s key)
unfolding Coherent
expire-Coherent s key h i e = ground (arith, h i e)

perform-Coherent : (op : Op) (s : Stores) → Reliable op → Coherent s → Coherent (perform op s).1
unfolding perform load_digest
perform-Coherent (load l id d) s ok h = with_cached-Coherent _ l s id d h
perform-Coherent (save l id d new) s (stored, cached) h =
    SameView-Coherent _ _ (save-SameView l s id d new stored)
      (written-Coherent l s id d new cached h)
perform-Coherent (fail l id d behind x) s (stored, cached) h =
    SameView-Coherent _ _ (fail-SameView l s id d behind x stored)
      (written-Coherent l s id d Stage.failed cached h)
perform-Coherent (ends key) s ok h = expire-Coherent s key h

SameView-stages :
    (s s' : Stores) → SameView s s' → (i : ℤ) (e : Bytes) → stages s' i e ≡ stages s i e
unfolding SameView
SameView-stages s s' (cached, stored) i e = rw (stored i (stage_row e)) refl

perform-stages :
    (op : Op) (s : Stores)
    → Reliable op
    → (i : ℤ) (e : Bytes) → stages (perform op s).1 i e ≡ (specified op (stages s)).1 i e
unfolding perform load_digest
perform-stages (load l id d) s ok i e = rw (with_cached-rows _ l s id d) refl
perform-stages (save l id d new) s (stored, cached) i e =
    SameView-stages _ _ (save-SameView l s id d new stored) i e ∙ written-stages l s id d new i e
perform-stages (fail l id d behind x) s (stored, cached) i e =
    SameView-stages _ _ (fail-SameView l s id d behind x stored) i e
    ∙ written-stages l s id d Stage.failed i e
perform-stages (ends key) s ok i e = refl

perform-output :
    (op : Op) (s : Stores)
    → Reliable op
    → Coherent s
    → (perform op s).0 ≡ (specified op (stages s)).0
unfolding perform
perform-output (load l id d) s ok h = ap some (load-answer l s id d h ok)
perform-output (save l id d new) s ok h = refl
perform-output (fail l id d behind x) s ok h = refl
perform-output (ends key) s ok h = refl

-- From stores whose cache agrees with the database, every sequence of reliable operations gives the
-- stages that the specification gives: that of the last write, whatever reads of the cache, writes
-- to it or ends of its hashes come between.
pub outputs-specified :
    (ops : List Op) (s : Stores)
    → All Reliable ops
    → Coherent s
    → outputs ops s ≡ specified_outputs ops (stages s)
outputs-specified [] s ok h = refl
outputs-specified (op ∷ ops) s (ok, oks) h =
    let s' = (perform op s).1 in
    let same : stages s' ≡ (specified op (stages s)).1 = λ j i e. perform-stages op s ok i e j in
    ap₂ (λ o os. o ∷ os) (perform-output op s ok h)
      (outputs-specified ops s' oks (perform-Coherent op s ok h) ∙ ap (specified_outputs ops) same)
