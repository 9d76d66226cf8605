-- ===== src/Auth/Throttle/Lockout.antt =====
-- How long a name is locked out.
use vparser.Prelude.{
  ℕ, ap, ltb, lt→ltb, zero, suc, ◌+◌, ◌≤◌, ◌<◌, ◌≡◌, refl, Bool, true, false, Option, none, some,
  List, [], ◌∷◌, arith, leb, run, run_keeps, run-move, ◌∙◌, subst,
}
use vparser.Errors.{Error}
use vparser.Mq.Effects.{answer}
use vparser.Auth.Throttle.{
  login_attempt_allowed, record_login_failure, missed, live, World, Counter, Event, check, miss,
  hit, abandon, pass, init, step, checked, text_of, login_failure_window,
}
use vparser.Auth.Throttle.Bounds.{current, allowed_count}

-- The steps in which no `EXPIRE` fails.
abbrev pub reliable : ℕ → World → Event → Option World
reliable cap w (miss (some x)) = none
reliable cap w e = step cap w e

abbrev ends_by : ℕ → Option ℕ → Bool
ends_by now none = false
ends_by now (some e) = leb e (now + login_failure_window)

abbrev ends_soon : ℕ → Option Counter → Bool
ends_soon now none = true
ends_soon now (some c) = ends_by now c.expires

EndsSoon : World → Type 0
EndsSoon w = ends_soon w.now w.counter ≡ true

step-EndsSoon :
    (cap : ℕ) (w v : World) (e : Event) → reliable cap w e ≡ some v → EndsSoon w → EndsSoon v
unfolding step live missed login_attempt_allowed record_login_failure EndsSoon
step-EndsSoon cap w v check h b = ground arith
step-EndsSoon cap w v (miss none) h b = ground arith
step-EndsSoon cap w v (miss (some x)) h b = ground arith
step-EndsSoon cap w v hit h b = ground arith
step-EndsSoon cap w v abandon h b = ground arith
step-EndsSoon cap w v (pass d) h b = ground arith

forgotten :
    (now : ℕ) (c : Option Counter)
    → ends_soon now c ≡ true
    → live (now + login_failure_window) c ≡ none
unfolding live
forgotten now none h = refl
forgotten now (some c) h = ground arith

-- While no `EXPIRE` fails: at every instant that can be reached, the counter of a name's failures
-- is gone ten minutes later unless it is touched in between.
pub lockout_passes :
    (cap : ℕ) (w : World) (events : List Event)
    → run (reliable cap) init events ≡ some w
    → live (w.now + login_failure_window) w.counter ≡ none
unfolding EndsSoon
lockout_passes cap w events h =
    forgotten w.now w.counter
      (run_keeps (reliable cap) EndsSoon (step-EndsSoon cap) init w events h refl)

-- A counter that never ends.
abbrev lasting : ℕ → Counter
lasting n = record { count = n; expires = none }

abbrev locked : Counter
locked = lasting 8

IsLocked : World → Type 0
IsLocked w = (w.counter ≡ some locked) × (w.in_flight ≡ 0)

refused : login_attempt_allowed (answer (text_of (some locked))) ≡ (answer false, false)
refused = allowed_count (some locked) (omega arith)

check-IsLocked : (cap : ℕ) (w v : World) → step cap w check ≡ some v → IsLocked w → IsLocked v
unfolding step IsLocked live
check-IsLocked cap w v h (b, z) =
    let same : current w ≡ some locked = rw b refl in
    let read =
      subst (λ c. checked cap w c (login_attempt_allowed (answer (text_of c))) ≡ some v) same h in
    ground (arith, subst (λ r. checked cap w (some locked) r ≡ some v) refused read)

step-IsLocked :
    (cap : ℕ) (w v : World) (e : Event) → step cap w e ≡ some v → IsLocked w → IsLocked v
unfolding step live missed record_login_failure IsLocked
step-IsLocked cap w v check h b = check-IsLocked cap w v h b
step-IsLocked cap w v (miss x) h b = absurd (ground arith)
step-IsLocked cap w v hit h b = absurd (ground arith)
step-IsLocked cap w v abandon h b = absurd (ground arith)
step-IsLocked cap w v (pass d) h b = ground arith

-- Logins with a wrong password, one after another.
abbrev misses : ℕ → List Event
misses zero = []
misses (suc k) = check ∷ miss none ∷ misses k

-- Eight of them, of which the first cannot set the expiry.
abbrev pub eight_misses : Error → List Event
eight_misses x = check ∷ miss (some x) ∷ misses 7

abbrev at_rest : Option Counter → World
at_rest c = record { now = 0; counter = c; in_flight = 0 }

-- A login with a wrong password.
module _ (cap : ℕ) (positive : 0 < cap) where
  check-at_rest :
      (c : Option Counter)
      → login_attempt_allowed (answer (text_of (live 0 c))) ≡ (answer true, false)
      → step cap (at_rest c) check ≡ some (record { now = 0; counter = live 0 c; in_flight = 1 })
  unfolding step
  check-at_rest c h = rw h (ground arith)

  run-miss :
      (x : Option Error) (c : Option Counter) (events : List Event)
      → login_attempt_allowed (answer (text_of (live 0 c))) ≡ (answer true, false)
      → run (step cap) (at_rest c) (check ∷ miss x ∷ events)
        ≡ run (step cap) (at_rest (some (missed 0 x (live 0 (live 0 c))))) events
  run-miss x c events h =
      run-move (step cap) (at_rest c) check (miss x ∷ events) (check-at_rest c h)
      ∙ run-move (step cap) (record { now = 0; counter = live 0 c; in_flight = 1 }) (miss x) events
          (unfold step in refl)

  missed-lasting : (n : ℕ) → 1 ≤ n → missed 0 none (some (lasting n)) ≡ lasting (n + 1)
  unfolding missed record_login_failure
  missed-lasting n some_yet = ground arith

  run-misses :
      (k n : ℕ)
      → 1 ≤ n
      → k + n ≡ 8
      → run (step cap) (at_rest (some (lasting n))) (misses k) ≡ some (at_rest (some locked))
  unfolding live
  run-misses zero n some_yet left =
      let eight : n ≡ 8 = omega arith in
      unfold run in ap (λ m. some (at_rest (some (lasting m)))) eight
  run-misses (suc k) n some_yet left =
      let below : ltb n 8 ≡ true = lt→ltb n 8 (omega arith) in
      let read = allowed_count (some (lasting n)) (omega arith) in
      run-miss none (some (lasting n)) (misses k) (read ∙ ap (λ b. (answer b, false)) below)
      ∙ rw missed-lasting (run-misses k (n + 1) (omega arith) (omega arith))

  run-eight_misses :
      (x : Error) → run (step cap) init (eight_misses x) ≡ some (at_rest (some locked))
  unfolding missed live record_login_failure login_attempt_allowed
  run-eight_misses x = run-miss (some x) none (misses 7) refl ∙ run-misses 7 1 (omega arith) refl

-- At least one login at a time is served: if the expiry of the counter cannot be set at the first
-- of eight wrong passwords, the name is locked out for good. Whatever follows, at any time, no
-- login of that name is allowed.
pub lockout_forever :
    (cap : ℕ) (x : Error)
    → 0 < cap
    → (w : World) × (run (step cap) init (eight_misses x) ≡ some w)
      × ((events : List Event) (v : World)
          → run (step cap) w events ≡ some v
          → login_attempt_allowed (answer (text_of (current v))) ≡ (answer false, false))
unfolding IsLocked live
lockout_forever cap x positive = (
  record { now = 0; counter = some locked; in_flight = 0 },
  run-eight_misses cap positive x,
  λ events v h.
      let (same, none_left) =
        run_keeps (step cap) IsLocked (step-IsLocked cap) _ v events h (refl, refl) in
      rw same refused,
)
