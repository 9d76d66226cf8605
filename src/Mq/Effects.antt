-- ===== src/Mq/Effects.antt =====
-- What the consumer calls: Redis, the lock, the analyzer, the agent, the stage checkpoints, Kafka,
-- the ledger, the media service and the task events. Each call is recorded in a trace, newest first,
-- with its error and what it answered; its answer is the environment's, which may depend on all that went
-- before. So nothing is assumed of other workers, of failures or of their order.
pub mod Rules
pub mod Avoids
pub mod Blames
use vparser.Prelude.{ℕ, Bool, true, false, Option, none, some, List, [], ◌∷◌, ◌⊎◌, ◌≡◌}
use vparser.Prelude.Int.{ℤ}
use vparser.Go.Bytes.{Bytes}
use vparser.Errors.{Error}
use vparser.Model.{Mode, Stage, Status, TaskMsg}
use vparser.Mq.Headers.{Message}

-- One analysis task: the media, the goal and the mode.
pub record Task : Type 0 where
  pub media_id : ℤ
  pub goal : Bytes
  pub mode : Mode

pub data Call : Type 0 where
  try_lock unlock : Bytes → Call
  delete expire get : Bytes → Call
  store : Bytes → Bytes → Call
  exists purge : ℤ → Call
  publish : Task → Status → Stage → Call
  begin_revision complete_revision result : Task → Call
  reuse : Task → ℤ → Call
  analyze : Task → Call
  save_stage : Task → Stage → Call
  produce : Message → Call
  record_failure : TaskMsg → ℕ → Error → Call

-- A call with its error, and whether it answered yes, as far as it answers that.
pub record Entry : Type 0 where
  pub call : Call
  pub fault : Option Error
  pub yes : Bool

abbrev pub Trace : Type 0
Trace = List Entry

pub data Answer {ℓ} (A : Type ℓ) : Type ℓ where
  answer : A → Answer A
  error : Error → Answer A

-- `ResultResponse` and `ReuseResponse` of agentclient, as far as they are read.
pub record Found : Type 0 where
  pub found : Bool
  pub status : Option Status

pub record Env : Type 0 where
  pub locked : Trace → Bytes → Answer Bool
  -- `lock.IsHeld()`
  pub held : Trace → Bool
  -- the error of a call that answers nothing else
  pub failure : Trace → Call → Option Error
  pub exists : Trace → ℤ → Answer Bool
  -- a missing key is `none`
  pub value : Trace → Bytes → Answer (Option Bytes)
  pub begun : Trace → Task → Answer Bool
  pub found : Trace → Task → Answer Found
  pub reused : Trace → Task → ℤ → Answer Found
  pub now : Trace → ℕ

abbrev pub M {ℓ} : Type ℓ → Type ℓ
M A = Env → Trace → Answer A × Trace

module _ {ℓ} {A : Type ℓ} where
  unfoldable pub pure : A → M A
  pure a env t = (answer a, t)

  unfoldable pub fail : Error → M A
  fail e env t = (error e, t)

  abbrev pub is_answer : Answer A → Bool
  is_answer (answer a) = true
  is_answer (error e) = false

  abbrev pub fault_of : Answer A → Option Error
  fault_of (answer a) = none
  fault_of (error e) = some e

  abbrev pub said : (A → Bool) → Answer A → Bool
  said says (answer a) = says a
  said says (error e) = false

  -- A call that answers; `says` tells whether an answer is a yes.
  unfoldable pub ask : Call → (A → Bool) → (Env → Trace → Answer A) → M A
  ask c says f env t =
      let r = f env t in (r, record { call = c; fault = fault_of r; yes = said says r } ∷ t)

  -- Runs an action for what it ends with, error or not.
  unfoldable pub outcome_of : M A → M (Answer A)
  outcome_of m env t = let (r, t') = m env t in (answer r, t')

  -- The same, for whether it succeeded.
  unfoldable pub succeeds : M A → M Bool
  succeeds m env t = let (r, t') = m env t in (answer (is_answer r), t')

  unfoldable pub of_answer : Answer A → M A
  of_answer r env t = (r, t)

module _ {ℓ κ} {A : Type ℓ} {B : Type κ} where
  abbrev pub continue : Answer A → (A → M B) → M B
  continue (answer a) f env t = f a env t
  continue (error e) f env t = (error e, t)

  infixl 10 ◌>>=◌ ◌>>◌
  unfoldable pub ◌>>=◌ : M A → (A → M B) → M B
  ◌>>=◌ m f env t = let (r, t') = m env t in continue r f env t'

  abbrev pub ◌>>◌ : M A → M B → M B
  m >> n = m >>= λ _. n

abbrev unit_answer : Option Error → Answer (Unit {0})
unit_answer none = answer tt
unit_answer (some e) = error e

-- A call that answers nothing but an error.
unfoldable pub run : Call → M (Unit {0})
unfolding ask
run c = ask c (λ u. true) (λ env t. unit_answer (env.failure t c))

-- The same with its error ignored or only logged.
unfoldable pub attempt : Call → M (Unit {0})
unfolding run
attempt c env t = (answer tt, (run c env t).1)

-- Whether an entry of the trace fits a predicate.
abbrev pub Did : (Entry → Type 0) → Trace → Type 0
Did P [] = ⊥
Did P (e ∷ t) = P e ⊎ Did P t
