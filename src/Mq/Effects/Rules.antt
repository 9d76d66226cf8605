-- ===== src/Mq/Effects/Rules.antt =====
-- What actions keep and establish: one rule for each way to build an action.
use vparser.Prelude.{
  ◌≡◌, Option, none, some, refl, ap, subst, ◌∙◌, inl, inr, Bool, true, false, [], ◌∷◌,
  if◌then◌else◌,
}
use vparser.Errors.{Error}
use vparser.Mq.Effects.{
  Call, Entry, Trace, Answer, answer, error, is_answer, fault_of, said, Env, M, pure, fail, ask,
  outcome_of, succeeds, of_answer, continue, ◌>>=◌, run, attempt, Did,
}

-- What was done stays done.
pub record Grows {ℓ} {A : Type ℓ} (m : M A) : Type (ℓ ⊔ 1) where
  pub at : (P : Entry → Type 0) (env : Env) (t : Trace) → Did P t → Did P (m env t).1

module _ {ℓ} {A : Type ℓ} where
  pub Grows-pure : (a : A) → Grows (pure a)
  unfolding pure
  Grows-pure a = record { at = λ P env t d. d }

  pub Grows-fail : (e : Error) → Grows (fail {A = A} e)
  unfolding fail
  Grows-fail e = record { at = λ P env t d. d }

  pub Grows-of_answer : (r : Answer A) → Grows (of_answer r)
  unfolding of_answer
  Grows-of_answer r = record { at = λ P env t d. d }

  pub Grows-ask : (c : Call) (says : A → Bool) (f : Env → Trace → Answer A) → Grows (ask c says f)
  unfolding ask
  Grows-ask c says f = record { at = λ P env t d. inr d }

  pub Grows-outcome_of : (m : M A) → Grows m → Grows (outcome_of m)
  unfolding outcome_of
  Grows-outcome_of m g = record { at = g.at }

  pub Grows-succeeds : (m : M A) → Grows m → Grows (succeeds m)
  unfolding succeeds
  Grows-succeeds m g = record { at = g.at }

  pub Grows-if : (b : Bool) {m n : M A} → Grows m → Grows n → Grows (if b then m else n)
  Grows-if true g h = g
  Grows-if false g h = h

pub Grows-run : (c : Call) → Grows (run c)
unfolding run
Grows-run c = record { at = λ P env t d. inr d }

pub Grows-attempt : (c : Call) → Grows (attempt c)
unfolding attempt
Grows-attempt c = record { at = λ P env t d. inr d }

module _ {ℓ κ} {A : Type ℓ} {B : Type κ} where
  continue-Grows :
      (r : Answer A) (f : A → M B) (P : Entry → Type 0) (env : Env) (t : Trace)
      → ((a : A) → Grows (f a))
      → Did P t
      → Did P (continue r f env t).1
  continue-Grows (answer a) f P env t g d = (g a).at P env t d
  continue-Grows (error e) f P env t g d = d

  pub Grows-bind : (m : M A) (f : A → M B) → Grows m → ((a : A) → Grows (f a)) → Grows (m >>= f)
  unfolding ◌>>=◌
  Grows-bind m f g h = record {
    at = λ P env t d. let (r, t') = m env t in continue-Grows r f P env t' h (g.at P env t d);
  }

pub Grows-option {ℓ κ} :
    {A : Type ℓ} {B : Type κ} (o : Option A) {m : M B} {f : A → M B}
    → Grows m
    → ((a : A) → Grows (f a))
    → Grows (elim o [ none ↦ m | some a ↦ f a ])
Grows-option none g h = g
Grows-option (some a) g h = h a

pub ruleset grows_rules = (
  Grows-pure, Grows-fail, Grows-of_answer, Grows-ask, Grows-outcome_of, Grows-succeeds, Grows-if,
  Grows-run, Grows-attempt, Grows-bind,
)

-- What holds of the answer and the trace when an action ends with an answer.
pub record Yields {ℓ} {A : Type ℓ} (m : M A) (Q : A → Trace → Type 0) : Type ℓ where
  pub at : (env : Env) (t : Trace) {a : A} → (m env t).0 ≡ answer a → Q a (m env t).1

pub answer_injective {ℓ} : {A : Type ℓ} {a b : A} → answer a ≡ answer b → a ≡ b
answer_injective e = cc e

module _ {ℓ} {A : Type ℓ} {Q : A → Trace → Type 0} where
  pub Yields-pure : (a : A) → ((t : Trace) → Q a t) → Yields (pure a) Q
  unfolding pure
  Yields-pure a q = record { at = λ env t e. subst (λ b. Q b t) (answer_injective e) (q t) }

  pub Yields-fail : (e : Error) → Yields (fail e) Q
  unfolding fail
  Yields-fail e = record { at = λ env t h. absurd (cc h) }

  pub Yields-if : (b : Bool) {m n : M A} → Yields m Q → Yields n Q → Yields (if b then m else n) Q
  Yields-if true g h = g
  Yields-if false g h = h

  pub Yields-map :
      {R : A → Trace → Type 0} (m : M A)
      → ((a : A) (t : Trace) → Q a t → R a t)
      → Yields m Q
      → Yields m R
  Yields-map m f y = record { at = λ env t e. f _ _ (y.at env t e) }

  pub Yields-both :
      {R : A → Trace → Type 0} (m : M A) → Yields m Q → Yields m R → Yields m (λ a t. Q a t × R a t)
  Yields-both m y z = record { at = λ env t e. (y.at env t e, z.at env t e) }

pub Yields-option {ℓ κ} :
    {A : Type ℓ} {B : Type κ} (o : Option A) {m : M B} {f : A → M B} {Q : B → Trace → Type 0}
    → Yields m Q
    → ((a : A) → Yields (f a) Q)
    → Yields (elim o [ none ↦ m | some a ↦ f a ]) Q
Yields-option none g h = g
Yields-option (some a) g h = h a

continue-yields {ℓ κ} :
    {A : Type ℓ} {B : Type κ} (P : A → Trace → Type 0) (Q : B → Trace → Type 0) (r : Answer A)
    (f : A → M B) (env : Env) (t : Trace) {b : B}
    → ((a : A) → r ≡ answer a → P a t)
    → ((a : A) (u : Trace) (c : B) → P a u → (f a env u).0 ≡ answer c → Q c (f a env u).1)
    → (continue r f env t).0 ≡ answer b
    → Q b (continue r f env t).1
continue-yields P Q (answer a) f env t p q e = q a t _ (p a refl) e
continue-yields P Q (error x) f env t p q e = absurd (cc e)

module _ {ℓ κ} {A : Type ℓ} {B : Type κ} {Q : B → Trace → Type 0} where
  -- The rest may use what the first action has established.
  pub Yields-bind :
      {P : A → Trace → Type 0} (m : M A) (f : A → M B)
      → Yields m P
      → ((a : A) (env : Env) (t : Trace) (b : B)
          → P a t
          → (f a env t).0 ≡ answer b
          → Q b (f a env t).1)
      → Yields (m >>= f) Q
  unfolding ◌>>=◌
  Yields-bind {P} m f y q = record {
    at = λ env t e.
        continue-yields P Q (m env t).0 f env (m env t).1 (λ a h. y.at env t h)
          (λ a u c p h. q a env u c p h) e;
  }

  -- The rest establishes it all.
  pub Yields-then : (m : M A) (f : A → M B) → ((a : A) → Yields (f a) Q) → Yields (m >>= f) Q
  Yields-then m f y =
      Yields-bind {P = λ a t. Unit} m f (record { at = λ env t e. tt })
        (λ a env t b p e. (y a).at env t e)

-- A sequence from one environment and trace.
pub bind-yields_at {ℓ κ} :
    {A : Type ℓ} {B : Type κ} (P : A → Trace → Type 0) (Q : B → Trace → Type 0) (m : M A)
    (f : A → M B) (env : Env) (t : Trace) {b : B}
    → ((a : A) → (m env t).0 ≡ answer a → P a (m env t).1)
    → ((a : A) (u : Trace) (c : B) → P a u → (f a env u).0 ≡ answer c → Q c (f a env u).1)
    → ((m >>= f) env t).0 ≡ answer b
    → Q b ((m >>= f) env t).1
unfolding ◌>>=◌
bind-yields_at P Q m f env t p q e = continue-yields P Q (m env t).0 f env (m env t).1 p q e

pub Yields-outcome_of :
    {A : Type 0} {Q : A → Trace → Type 0} (m : M A)
    → Yields m Q
    → Yields (outcome_of m) (λ r t. (a : A) → r ≡ answer a → Q a t)
unfolding outcome_of
Yields-outcome_of m y = record { at = λ env t e a h. y.at env t (cc (e, h)) }

succeeded {ℓ} :
    {A : Type ℓ} {Q : Type 0} (r : Answer A) → is_answer r ≡ true → ((a : A) → r ≡ answer a → Q) → Q
succeeded (answer a) h q = q a refl
succeeded (error e) h q = absurd (cc h)

pub Yields-succeeds {ℓ} :
    {A : Type ℓ} {Q : Trace → Type 0} (m : M A)
    → Yields m (λ a t. Q t)
    → Yields (succeeds m) (λ b t. b ≡ true → Q t)
unfolding succeeds
Yields-succeeds m y = record {
  at = λ env t e h. succeeded (m env t).0 (answer_injective e ∙ h) (λ a q. y.at env t q);
}

-- A call that succeeded.
abbrev pub Is : Call → Entry → Type 0
Is c e = (e.fault ≡ none) × (e.call ≡ c)

-- The same, with what it answered.
abbrev pub IsSaid : Call → Bool → Entry → Type 0
IsSaid c b e = (e.fault ≡ none) × (e.call ≡ c) × (e.yes ≡ b)

module _ {ℓ} {A : Type ℓ} (c : Call) (says : A → Bool) (f : Env → Trace → Answer A) where
  pub ask-Said : Yields (ask c says f) (λ a t. Did (IsSaid c (says a)) t)
  unfolding ask
  ask-Said = record { at = λ env t e. inl (ap fault_of e, refl, ap (said says) e) }

  ask-Did : Yields (ask c says f) (λ a t. Did (Is c) t)
  unfolding ask
  ask-Did = record { at = λ env t e. inl (ap fault_of e, refl) }

pub run-Did : (c : Call) → Yields (run c) (λ a t. Did (Is c) t)
unfolding run
run-Did c = ask-Did c _ _

-- What follows a call that succeeded keeps it in the trace.
pub Yields-run_then {ℓ} :
    {B : Type ℓ} (c : Call) (k : Unit {0} → M B)
    → ((a : Unit {0}) → Grows (k a))
    → Yields (run c >>= k) (λ b t. Did (Is c) t)
Yields-run_then c k g = Yields-bind (run c) k (run-Did c) (λ a env t b d e. (g a).at (Is c) env t d)

-- The same, where what follows ends with `b`.
pub Yields-run_last :
    {B : Type 0} (c : Call) (k : Unit {0} → M B) (b : B)
    → ((a : Unit {0}) → Grows (k a))
    → ((a : Unit {0}) → Yields (k a) (λ x t. x ≡ b))
    → Yields (run c >>= k) (λ x t. (x ≡ b) × Did (Is c) t)
Yields-run_last c k b g h = Yields-both _ (Yields-then _ _ h) (Yields-run_then c k g)

pub Did-map : (P Q : Entry → Type 0) (t : Trace) → ((c : Entry) → P c → Q c) → Did P t → Did Q t
Did-map P Q [] f d = d
Did-map P Q (e ∷ t) f (inl p) = inl (f e p)
Did-map P Q (e ∷ t) f (inr d) = inr (Did-map P Q t f d)
