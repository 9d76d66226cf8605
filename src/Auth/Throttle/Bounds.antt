-- ===== src/Auth/Throttle/Bounds.antt =====
-- How many failures a name can collect, and how long they count.
use vparser.Prelude.{
  ℕ, ◌+◌, ◌≤◌, ◌≡◌, refl, false, Option, none, some, List, arith, ltb, run, run_keeps, subst,
}
use vparser.Go.Decimal.{max_int64, parse_int-format_nat}
use vparser.Mq.Effects.{answer}
use vparser.Auth.Throttle.{
  login_attempt_allowed, record_login_failure, missed, live, World, Counter, Event, check, miss,
  hit, abandon, pass, init, step, checked, text_of,
}

abbrev pub failures : Option Counter → ℕ
failures none = 0
failures (some c) = c.count

-- The counter that Redis still holds.
abbrev pub current : World → Option Counter
current w = live w.now w.counter

-- The check reads the number of failures.
pub allowed_count :
    (c : Option Counter)
    → failures c ≤ max_int64
    → login_attempt_allowed (answer (text_of c)) ≡ (answer (ltb (failures c) 8), false)
unfolding login_attempt_allowed
allowed_count none h = refl
allowed_count (some c) h = rw (parse_int-format_nat c.count h) refl

live-failures : (now : ℕ) (c : Option Counter) → failures (live now c) ≤ failures c
unfolding live
live-failures now none = omega arith
live-failures now (some c) = ground arith

module _ (cap : ℕ) (small : 7 + cap ≤ max_int64) where
  -- The logins in flight count as failures to come.
  Bounded : World → Type 0
  Bounded w = failures w.counter + w.in_flight ≤ 7 + cap

  check-Bounded : (w v : World) → step cap w check ≡ some v → Bounded w → Bounded v
  unfolding step Bounded
  check-Bounded w v h b =
      let fewer = live-failures w.now w.counter in
      let read = allowed_count (current w) (omega (arith, fewer)) in
      ground (arith, subst (λ r. checked cap w (current w) r ≡ some v) read h)

  step-Bounded : (w v : World) (e : Event) → step cap w e ≡ some v → Bounded w → Bounded v
  unfolding step live missed record_login_failure Bounded
  step-Bounded w v check h b = check-Bounded w v h b
  step-Bounded w v (miss x) h b = ground arith
  step-Bounded w v hit h b = ground arith
  step-Bounded w v abandon h b = ground arith
  step-Bounded w v (pass d) h b = ground arith

-- With at most `cap` logins of a name at a time, a number that fits in 64 bits with 7 more:
-- whatever goes on, the failures on the name's counter and the logins in flight are at most `7 +
-- cap` together.
pub failures_bounded :
    (cap : ℕ) (w : World) (events : List Event)
    → 7 + cap ≤ max_int64
    → run (step cap) init events ≡ some w
    → failures w.counter + w.in_flight ≤ 7 + cap
unfolding Bounded
failures_bounded cap w events small h =
    run_keeps (step cap) (Bounded cap small) (step-Bounded cap small) init w events h (omega arith)
