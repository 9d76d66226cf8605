-- ===== src/Analysis/Status/Shown.antt =====
-- What the status shows of a submission and of the stages that were saved.
use vparser.Prelude.{◌≡◌, refl, true, Option, none, All, if◌then◌else◌}
use vparser.Go.Bytes.{Bytes}
use vparser.Model.{Stage, State, status_of}
use vparser.Mq.Effects.{answer}
use vparser.Checkpoint.{Stores}
use vparser.Checkpoint.Stages.{load_stage, is_unknown}
use vparser.Analysis.Dispatch.{Ledger, Services, Request, submit}
use vparser.Analysis.Dispatch.Submission.{is_accepted, keys_set, accepted_active}
use vparser.Analysis.Status.{Calls, load_result, current, status_message}

-- Once a task is accepted, and as long as the keys that the submission has set are there, its status
-- is that of a task in progress, QUEUED until a stage is saved and PROCESSING behind, whatever an
-- earlier run left as its stage; the content hash and the checkpoints can be read, and there is no
-- result yet.
pub submitted_shows :
    (sha : Bytes → Bytes) (ledger : Option Ledger) (sv : Services) (r : Request) (a : Calls)
    (s : Stores) (h : Bytes) (stage : Stage)
    → sv.content_hash ≡ answer h
    → a.content_hash ≡ sv.content_hash
    → is_accepted (submit sha ledger sv r).0 ≡ true
    → All (λ k. a.keys k ≡ true) (keys_set (submit sha ledger sv r).1)
    → load_result sha a s r.media_id r.goal r.mode ≡ answer none
    → (load_stage sha a.stage_links s r.media_id r.goal r.mode).0 ≡ answer stage
    → (current sha a s r.media_id r.goal r.mode).0
      ≡ answer (
          status_of
            (if is_unknown stage then State.queued else State.processing)
            (status_message stage))
unfolding current
submitted_shows sha ledger sv r a s h stage hash same ok there no_result loaded =
    let active = accepted_active sha ledger sv r a.keys h hash ok there in
    rw (no_result, loaded, same, active) refl
