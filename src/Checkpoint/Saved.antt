-- ===== src/Checkpoint/Saved.antt =====
-- What is saved is loaded; a load that is late undoes a save.
use vparser.Prelude.{◌≡◌, refl, true, false, ◌||◌, some, arith}
use vparser.Prelude.Int.{ℤ, int_eq, int_eq_iff}
use vparser.Redis.{Link, up, executed}
use vparser.Go.Bytes.{Bytes, lit, bytes_eq, bytes_eq_refl}
use vparser.Go.Text.{is_empty}
use vparser.Model.{Stage}
use vparser.Model.Names.{stage_from-stage_name}
use vparser.Mq.Effects.{Answer, answer}
use vparser.Checkpoint.{Stores, Links, goal_key, media_key, stage_row}
use vparser.Checkpoint.Stages.{
  load_digest, save_digest, cache_stage, remember_goal_key, is_unknown, persisted,
}
use vparser.Checkpoint.Context.{
  load_context, save_context, cache_field, context_row, media_stage_row,
}
use vparser.Checkpoint.Coherence.{stages}

int_eq_refl : (a : ℤ) → int_eq a a ≡ true
int_eq_refl a = (int_eq_iff a a).1 refl

-- A load that asked the database, and found a known stage, before a save that succeeded, and that
-- writes what it got to the cache behind it, hides the new stage: the database has it, but every
-- load that the cache answers gives the old one.
pub late_refill :
    (l later : Links) (s : Stores) (id : ℤ) (d : Bytes) (new : Stage)
    → is_unknown (stages s id d) ≡ false
    → l.upsert ≡ up
    → l.pipe ≡ up
    → later.read ≡ up
    → let got = s.rows id (stage_row d) in
      let s' = (persisted l (save_digest l s id d new).1 (goal_key id d) got).1 in
      ((load_digest later s' id d).0 ≡ answer (stages s id d)) × (stages s' id d ≡ new)
unfolding load_digest save_digest cache_stage remember_goal_key
late_refill l later s id d new known stored piped asked = (
  ground (arith, known, stored, piped, asked, bytes_eq_refl (goal_key id d)),
  ground (
    arith,
    known,
    stored,
    piped,
    int_eq_refl id,
    bytes_eq_refl (stage_row d),
    stage_from-stage_name new,
  ),
)

context_row_stage : bytes_eq context_row media_stage_row ≡ false
unfolding lit bytes_eq
context_row_stage = refl

module _ {ℓ} {Context : Type ℓ} (decode : Bytes → Answer Context) (encode : Context → Answer Bytes)
    (clear : Context → Context) where
  -- A context whose text is not empty and can be decoded, and whose row is stored: it is loaded
  -- as it is decoded, whether the cache still has it or not and whatever the cache had before, if
  -- the write to the cache or the removal was executed and the database can be asked.
  pub saved_context :
      (l later : Links) (again : Link) (s : Stores) (id : ℤ) (vc vc' : Context) (payload : Bytes)
      → encode (clear vc) ≡ answer payload
      → is_empty payload ≡ false
      → decode payload ≡ answer vc'
      → l.upsert ≡ up
      → (executed l.pipe || executed l.undo) ≡ true
      → later.find ≡ up
      → (load_context decode encode later again (save_context decode encode clear l s id vc).1 id).0
        ≡ answer (some vc')
  unfolding load_context save_context cache_field
  saved_context l later again s id vc vc' payload encoded some_bytes decoded stored done found =
      ground (
        arith,
        encoded,
        some_bytes,
        decoded,
        stored,
        done,
        found,
        int_eq_refl id,
        bytes_eq_refl context_row,
        bytes_eq_refl (media_key id),
        context_row_stage,
      )
