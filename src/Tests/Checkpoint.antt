-- ===== src/Tests/Checkpoint.antt =====
-- server-go/internal/checkpoint/checkpoint.go at concrete inputs.
use vparser.Prelude.{◌≡◌, refl, false, none, some, List, [], ◌∷◌}
use vparser.Prelude.Int.{pos}
use vparser.Redis.{up, down}
use vparser.Go.Bytes.{Bytes, lit, bytes_eq}
use vparser.Go.Text.{is_blank}
use vparser.Errors.{Error, Kind, of_kind}
use vparser.Model.{Stage, stage_name, stage_from}
use vparser.Mq.Effects.{Answer, answer}
use vparser.Checkpoint.{Stores, Row, Links, goal_key, stage_row, set_row, goal_checkpoint}
use vparser.Checkpoint.Stages.{load_digest, save_digest, persisted}
use vparser.Checkpoint.Context.{load_context, save_context}
use vparser.Checkpoint.Coherence.{Coherent, stages}
use vparser.Checkpoint.Refinement.{
  Op, load, save, fail, ends, outputs, specified_outputs, outputs-specified,
}
use vparser.Checkpoint.Saved.{late_refill, saved_context}

abbrev empty : Stores
empty = record { rows = λ id n. none; cache = λ k f. none; index = λ i k. false }

abbrev all_up : Links
all_up = record {
  read = up;
  drop = up;
  find = up;
  upsert = up;
  pipe = up;
  undo = up;
  mark = up;
  expiry = up;
  remember = up;
}

abbrev broken : Error
broken = of_kind Kind.transient (lit "redis") []

abbrev no_pipe : Links
no_pipe = record all_up { pipe = down false broken; read = down false broken }

abbrev some_ops : List Op
some_ops =
    load all_up (pos 7) (lit "d")
    ∷ save no_pipe (pos 7) (lit "d") Stage.retrieval
    ∷ load no_pipe (pos 7) (lit "d")
    ∷ ends (goal_key (pos 7) (lit "d"))
    ∷ fail all_up (pos 7) (lit "d") Stage.retrieval broken
    ∷ load all_up (pos 7) (lit "d")
    ∷ []

outputs-specified_example : outputs some_ops empty ≡ specified_outputs some_ops (stages empty)
unfolding Coherent
outputs-specified_example =
    outputs-specified some_ops empty
      (refl, ((refl, refl), (refl, (tt, ((refl, refl), (refl, tt)))))) (λ id d. tt)

abbrev retrying : Row
retrying = record { stage = lit "RETRYING"; payload = none }

abbrev held : Stores
held = set_row empty (pos 7) (stage_row (lit "d")) retrying

late_refill_example :
    let got = held.rows (pos 7) (stage_row (lit "d")) in
    let s' =
      (persisted all_up
        (save_digest all_up held (pos 7) (lit "d") Stage.failed).1
        (goal_key (pos 7) (lit "d"))
        got).1 in
    ((load_digest all_up s' (pos 7) (lit "d")).0 ≡ answer (stages held (pos 7) (lit "d")))
    × (stages s' (pos 7) (lit "d") ≡ Stage.failed)
unfolding lit bytes_eq stage_from goal_checkpoint stage_name is_blank
late_refill_example =
    late_refill all_up all_up held (pos 7) (lit "d") Stage.failed refl refl refl refl

-- A context that is its own JSON.
abbrev as_it_is : Bytes → Answer Bytes
as_it_is s = answer s

saved_context_example :
    (load_context as_it_is as_it_is no_pipe up
      (save_context as_it_is as_it_is (λ s. s) all_up empty (pos 7) (lit "{}")).1
      (pos 7)).0
    ≡ answer (some (lit "{}"))
unfolding lit
saved_context_example =
    saved_context as_it_is as_it_is (λ s. s) all_up no_pipe up empty (pos 7) (lit "{}") (lit "{}")
      (lit "{}") refl refl refl refl refl refl
