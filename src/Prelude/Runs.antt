-- ===== src/Prelude/Runs.antt =====
-- Runs of a machine whose step may be refused, and what holds all along a run.
use mathlib.Core.Path.{◌≡◌, ap, subst}
use mathlib.Core.Logic.{inl, inr}
use mathlib.Core.Option.{Option, none, some}
use mathlib.Core.List.{List, [], ◌∷◌}
use native.Mathlib.Omega.{arith}
use vparser.Prelude.Tests.{Option-cases}

module _ {ℓ κ} {S : Type ℓ} {E : Type κ} (step : S → E → Option S) where
  -- An event that is refused ends the run.
  unfoldable pub run : S → List E → Option S
  run s [] = some s
  run s (e ∷ events) = elim (step s e) [ none ↦ none | some v ↦ run v events ]

  -- One step of a run.
  pub run-move :
      (s : S) (e : E) (events : List E) {u : S}
      → step s e ≡ some u
      → run s (e ∷ events) ≡ run u events
  unfolding run
  run-move s e events moved = ap (λ o. elim o [ none ↦ none | some v ↦ run v events ]) moved

  run-cons :
      (s : S) (e : E) (events : List E) {v : S}
      → run s (e ∷ events) ≡ some v
      → (u : S) × (step s e ≡ some u) × (run u events ≡ some v)
  unfolding run
  run-cons s e events h = elim (Option-cases (step s e)) [
    | inl stuck ↦ absurd (ground (arith, stuck, h))
    | inr (u, moved) ↦ (u, moved, ground (arith, moved, h))
  ]

  run-nil : (s : S) {v : S} → run s [] ≡ some v → s ≡ v
  unfolding run
  run-nil s h = cc

  pub run_keeps {μ} :
      (P : S → Type μ)
      → ((s v : S) (e : E) → step s e ≡ some v → P s → P v)
      → (s v : S) (events : List E) → run s events ≡ some v
      → P s
      → P v
  run_keeps P keeps s v [] h p = subst P (run-nil s h) p
  run_keeps P keeps s v (e ∷ events) h p =
      let (u, moved, rest) = run-cons s e events h in
      run_keeps P keeps u v events rest (keeps s u e moved p)
