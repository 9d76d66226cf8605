-- ===== src/Redis.antt =====
-- Commands of Redis, and statements of the database, whose call may fail before or after they were
-- executed.
use vparser.Prelude.{Bool, true, Option, none, some, if◌then◌else◌}
use vparser.Errors.{Error}
use vparser.Mq.Effects.{Answer, answer, error}

pub data Link : Type 0 where
  up : Link
  -- whether it was executed, and the error of the call
  down : Bool → Error → Link

-- The state behind a call.
abbrev pub applied {ℓ} : {S : Type ℓ} → Link → S → S → S
applied up s s' = s'
applied (down executed e) s s' = if executed then s' else s

abbrev pub result {ℓ} : {A : Type ℓ} → Link → A → Answer A
result up a = answer a
result (down executed e) a = error e

abbrev pub failure : Link → Option Error
failure up = none
failure (down executed e) = some e

abbrev pub executed : Link → Bool
executed up = true
executed (down done e) = done
