-- ===== src/Analysis/Dispatch/Submission.antt =====
-- What a submission leaves behind.
use vparser.Prelude.{
  ◌≡◌, refl, All, Bool, true, false, not, ◌||◌, ◌&&◌, Option, none, List, [], ◌∷◌, arith,
  if◌then◌else◌, ◌↔◌,
}
use vparser.Go.Bytes.{Bytes, bytes_eq}
use vparser.Model.{Mode, resolve}
use vparser.TaskKeys.{goal_digest, digest_text}
use vparser.Mq.Effects.{Answer, answer}
use vparser.Analysis.Dispatch.{
  SubmissionResult, accepted, Call, Services, Ledger, Request, check, submit, is_active,
}

abbrev pub is_accepted : Answer SubmissionResult → Bool
is_accepted (answer accepted) = true
is_accepted r = false

-- Whether a key is there after the calls; `executed` says whether `DEL`, whose error is not looked at,
-- was executed.
abbrev pub key_after : Bool → Bytes → Bool → List Call → Bool
key_after executed k held [] = held
key_after executed k held (Call.set_nx j ∷ calls) =
    key_after executed k (if bytes_eq k j then true else held) calls
key_after executed k held (Call.del j ∷ calls) =
    key_after executed k (if bytes_eq k j && executed then false else held) calls
key_after executed k held (c ∷ calls) = key_after executed k held calls

abbrev pub publishes : List Call → Bool
publishes [] = false
publishes (Call.publish_task m ∷ calls) = true
publishes (c ∷ calls) = publishes calls

abbrev pub cancels : List Call → Bool
cancels [] = false
cancels (Call.cancel_revision id goal mode ∷ calls) = true
cancels (c ∷ calls) = cancels calls

abbrev pub keys_set : List Call → List Bytes
keys_set [] = []
keys_set (Call.set_nx k ∷ calls) = k ∷ keys_set calls
keys_set (c ∷ calls) = keys_set calls

-- Whether the calls set the key.
abbrev pub sets : Bytes → List Call → Bool
sets k [] = false
sets k (Call.set_nx j ∷ calls) = let rest = sets k calls in bytes_eq k j || rest
sets k (c ∷ calls) = sets k calls

goal_digest-resolve :
    (sha : Bytes → Bytes) (goal : Bytes) (m : Mode)
    → goal_digest sha goal (resolve m) ≡ goal_digest sha goal m
unfolding goal_digest digest_text resolve
goal_digest-resolve sha goal Mode.unset = refl
goal_digest-resolve sha goal _ = refl

module _ (sha : Bytes → Bytes) (ledger : Option Ledger) (sv : Services) (r : Request) where
  -- For every key, where Redis sets it exactly when it is missing: behind the submission the key is
  -- there if it was before, or if it is the one that was set and the task was accepted. Where a `DEL`
  -- was not executed, which the code does not look at, the key of any task that was not accepted
  -- stays as well.
  pub key_left :
      (k : Bytes) (held executed : Bool)
      → (sets k (submit sha ledger sv r).1 ≡ true
          → sv.set_nx ≡ answer (if held then false else true))
      → let (result, calls) = submit sha ledger sv r in
        key_after executed k held calls
        ≡ (held || (sets k calls && (is_accepted result || not executed)))
  unfolding submit
  key_left k held executed h = ground (arith, h)

  -- A task is published only if the ledger let the user through, the quota was granted and the key
  -- was set; it is accepted exactly if it was published without an error; and a revision whose task
  -- was published with an error is given up.
  pub publish_guarded :
      let (result, calls) = submit sha ledger sv r in
      (publishes calls ≡ true
        → (check ledger r.user_id sv.spent ≡ none)
          × (sv.quota ≡ answer true)
          × (sv.set_nx ≡ answer true))
      × ((is_accepted result ≡ true) ↔ ((publishes calls ≡ true) × (sv.published ≡ none)))
      × (publishes calls ≡ true
          → r.revision ≡ true
          → is_accepted result ≡ false
          → cancels calls ≡ true)
  unfolding submit
  publish_guarded = (ground arith, ground arith, ground arith)

  -- An accepted task is active, if the keys that the submission has set are there and the media's
  -- content hash can be read.
  pub accepted_active :
      (keys : Bytes → Bool) (h : Bytes)
      → sv.content_hash ≡ answer h
      → is_accepted (submit sha ledger sv r).0 ≡ true
      → All (λ k. keys k ≡ true) (keys_set (submit sha ledger sv r).1)
      → is_active sha keys sv.content_hash r.media_id r.goal r.mode ≡ answer true
  unfolding submit is_active
  accepted_active keys h hash ok there = ground (arith, goal_digest-resolve sha r.goal r.mode)
