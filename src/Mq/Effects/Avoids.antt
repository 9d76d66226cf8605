-- ===== src/Mq/Effects/Avoids.antt =====
-- Calls that an action does not make: one rule for each way to build an action.
use vparser.Prelude.{◌⊎◌, inl, inr, Bool, true, false, [], ◌∷◌, if◌then◌else◌}
use vparser.Mq.Effects.{
  Call, Trace, Answer, answer, error, Env, M, pure, ask, continue, ◌>>=◌, run, attempt,
}

-- Whether a call of the trace fits a predicate, successful or not.
abbrev pub Made : (Call → Type 0) → Trace → Type 0
Made P [] = ⊥
Made P (e ∷ t) = P e.call ⊎ Made P t

-- A call that fits was made before.
pub record Avoids {ℓ} (P : Call → Type 0) {A : Type ℓ} (m : M A) : Type ℓ where
  pub at : (env : Env) (t : Trace) → Made P (m env t).1 → Made P t

before : (P : Call → Type 0) (c : Call) {X : Type 0} → ¬ P c → P c ⊎ X → X
before P c h (inl p) = absurd (h p)
before P c h (inr x) = x

module _ {ℓ} {P : Call → Type 0} {A : Type ℓ} where
  pub Avoids-pure : (a : A) → Avoids P (pure a)
  unfolding pure
  Avoids-pure a = record { at = λ env t d. d }

  pub Avoids-ask :
      (c : Call) (says : A → Bool) (f : Env → Trace → Answer A) → ¬ P c → Avoids P (ask c says f)
  unfolding ask
  Avoids-ask c says f h = record { at = λ env t d. before P c h d }

  pub Avoids-if : (b : Bool) {m n : M A} → Avoids P m → Avoids P n → Avoids P (if b then m else n)
  Avoids-if true g h = g
  Avoids-if false g h = h

module _ {P : Call → Type 0} where
  pub Avoids-run : (c : Call) → ¬ P c → Avoids P (run c)
  unfolding run
  Avoids-run c h = Avoids-ask c _ _ h

  pub Avoids-attempt : (c : Call) → ¬ P c → Avoids P (attempt c)
  unfolding attempt
  Avoids-attempt c h = record { at = (Avoids-run c h).at }

module _ {ℓ κ} {P : Call → Type 0} {A : Type ℓ} {B : Type κ} where
  continue-Avoids :
      (r : Answer A) (f : A → M B) (env : Env) (t : Trace)
      → ((a : A) → Avoids P (f a))
      → Made P (continue r f env t).1
      → Made P t
  continue-Avoids (answer a) f env t h d = (h a).at env t d
  continue-Avoids (error e) f env t h d = d

  pub Avoids-bind :
      (m : M A) (f : A → M B) → Avoids P m → ((a : A) → Avoids P (f a)) → Avoids P (m >>= f)
  unfolding ◌>>=◌
  Avoids-bind m f g h = record {
    at = λ env t d. g.at env t (continue-Avoids (m env t).0 f env (m env t).1 h d);
  }
