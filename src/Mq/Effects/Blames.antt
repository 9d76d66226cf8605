-- ===== src/Mq/Effects/Blames.antt =====
-- Where a budget error comes from: one rule for each way to build an action.
use vparser.Prelude.{◌≡◌, ap, ◌∙◌, inl, Option, none, some, Bool, true, false, if◌then◌else◌}
use vparser.Errors.{Error, Kind, has_kind}
use vparser.Mq.Effects.{
  Call, Entry, Trace, Answer, answer, error, fault_of, Env, M, pure, fail, ask, outcome_of,
  continue, ◌>>=◌, run, attempt, Did,
}
use vparser.Mq.Effects.Rules.{Yields, answer_injective}

-- A call that failed with a budget error in its chain.
abbrev pub IsOver : Entry → Type 0
IsOver x = (e : Error) × (x.fault ≡ some e) × (has_kind e Kind.budget_exhausted ≡ true)

-- A budget error with which the action ends is that of a call.
pub record Blames {ℓ} {A : Type ℓ} (m : M A) : Type ℓ where
  pub at :
      (env : Env) (t : Trace) (e : Error)
      → (m env t).0 ≡ error e
      → has_kind e Kind.budget_exhausted ≡ true
      → Did IsOver (m env t).1

module _ {ℓ} {A : Type ℓ} where
  pub Blames-pure : (a : A) → Blames (pure a)
  unfolding pure
  Blames-pure a = record { at = λ env t e h k. absurd (cc h) }

  pub Blames-fail : (x : Error) → has_kind x Kind.budget_exhausted ≡ false → Blames (fail {A = A} x)
  unfolding fail
  Blames-fail x other = record { at = λ env t e h k. absurd (cc (h, k, other)) }

  pub Blames-ask : (c : Call) (says : A → Bool) (f : Env → Trace → Answer A) → Blames (ask c says f)
  unfolding ask
  Blames-ask c says f = record { at = λ env t e h k. inl (e, ap fault_of h, k) }

  pub Blames-if : (b : Bool) {m n : M A} → Blames m → Blames n → Blames (if b then m else n)
  Blames-if true g h = g
  Blames-if false g h = h

pub Blames-run : (c : Call) → Blames (run c)
unfolding run
Blames-run c = Blames-ask c _ _

pub Blames-attempt : (c : Call) → Blames (attempt c)
unfolding attempt
Blames-attempt c = record { at = λ env t e h k. absurd (cc h) }

module _ {ℓ κ} {A : Type ℓ} {B : Type κ} where
  continue-Blames :
      (r : Answer A) (f : A → M B) (env : Env) (t : Trace) (e : Error)
      → ((x : Error) → r ≡ error x → has_kind x Kind.budget_exhausted ≡ true → Did IsOver t)
      → ((a : A) → Blames (f a))
      → (continue r f env t).0 ≡ error e
      → has_kind e Kind.budget_exhausted ≡ true
      → Did IsOver (continue r f env t).1
  continue-Blames (answer a) f env t e h g q k = (g a).at env t e q k
  continue-Blames (error x) f env t e h g q k = h e (cc q) k

  pub Blames-bind : (m : M A) (f : A → M B) → Blames m → ((a : A) → Blames (f a)) → Blames (m >>= f)
  unfolding ◌>>=◌
  Blames-bind m f g h = record {
    at = λ env t e q k.
        let (r, t') = m env t in continue-Blames r f env t' e (λ x. g.at env t x) h q k;
  }

pub Blames-option {ℓ κ} :
    {A : Type ℓ} {B : Type κ} (o : Option A) {m : M B} {f : A → M B}
    → Blames m
    → ((a : A) → Blames (f a))
    → Blames (elim o [ none ↦ m | some a ↦ f a ])
Blames-option none g h = g
Blames-option (some a) g h = h a

pub ruleset blames_rules =
    (Blames-pure, Blames-fail, Blames-ask, Blames-if, Blames-run, Blames-attempt, Blames-bind)

-- Behind an action that was run for what it ends with.
pub Blames-outcome_of :
    {A : Type 0} (m : M A)
    → Blames m
    → Yields
        (outcome_of m)
        (λ r t. (e : Error) → r ≡ error e → has_kind e Kind.budget_exhausted ≡ true → Did IsOver t)
unfolding outcome_of
Blames-outcome_of m b = record { at = λ env t h e q k. b.at env t e (answer_injective h ∙ q) k }
