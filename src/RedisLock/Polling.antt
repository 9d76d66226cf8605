-- ===== src/RedisLock/Polling.antt =====
-- `TryLock`: the polling loop, its result and the label of its metric.
use vparser.Prelude.{
  subst, Option-cases, ℕ, zero, suc, ◌+◌, ◌-◌, ◌≤◌, ◌<◌, ◌≡◌, ◌≢◌, ◌⊎◌, inl, inr, Bool, true, ◌||◌,
  Option, none, some, arith, ltb, ◌==◌, if◌then◌else◌,
}
use vparser.Prelude.Int.{ℤ, pos, negsuc}
use vparser.Go.Bytes.{Bytes, lit}
use native.Mathlib.Decide.{ℕ_discrete}
use vparser.RedisLock.{Options}

-- What `SetNX` answers.
pub data Answer : Type 0 where
  acquired contended failed : Answer

-- The n-th round as the environment has it: the duration and the answer of the call, and whether
-- the context ends in the sleep behind it.
pub record Round : Type 0 where
  pub call_ms : ℕ
  pub answer : Answer
  pub cancelled : Bool

-- The result of `TryLock`: the lock, no lock, or an error, with the rounds made and the time.
pub data Outcome : Type 0 where
  locked busy erred : ℕ → ℕ → Outcome

-- How long to wait; a duration that is not positive is a single attempt.
abbrev pub wait_ms : ℤ → ℕ
wait_ms (pos n) = n
wait_ms (negsuc n) = 0

-- One round, with the rest of the loop for what follows its sleep.
after_round : ℕ → ℕ → ℕ → ℕ → ℕ → Round → (ℕ → Option Outcome) → Option Outcome
after_round poll wait deadline n now r rest = elim r.answer [
  | Answer.failed ↦ some (erred n (now + r.call_ms))
  | Answer.acquired ↦ some (locked n (now + r.call_ms))
  | Answer.contended ↦
      let remaining = deadline - (now + r.call_ms) in
      let sleep = if ltb remaining poll then remaining else poll in
      if wait == 0 || remaining == 0
      then some (busy n (now + r.call_ms))
      else if r.cancelled
      then some (erred n (now + r.call_ms + sleep))
      else rest (now + r.call_ms + sleep)
]

-- `none` if the fuel is used up.
poll_loop : ℕ → ℕ → ℕ → ℕ → (ℕ → Round) → ℕ → ℕ → Option Outcome
poll_loop zero poll wait deadline env n now = none
poll_loop (suc f) poll wait deadline env n now =
    after_round poll wait deadline (suc n) now (env n)
      (λ later. poll_loop f poll wait deadline env (suc n) later)

-- Every round that goes on lets a millisecond pass, so `wait + 1` rounds are enough.
unfoldable pub try_lock : Options → (ℕ → Round) → ℕ → ℤ → Option Outcome
unfolding poll_loop after_round
try_lock opts env now wait =
    poll_loop (suc (wait_ms wait)) opts.poll_interval (wait_ms wait) (now + wait_ms wait) env 0 now

-- The label of redis_lock_acquire_total.
unfoldable pub result_label : Outcome → Bytes
result_label (locked n t) = lit "acquired"
result_label (busy n t) = lit "contended"
result_label (erred n t) = lit "error"

abbrev pub rounds : Outcome → ℕ
rounds (locked n t) = n
rounds (busy n t) = n
rounds (erred n t) = n

-- How a result shows in its last round.
abbrev pub Fits : Outcome → Round → Type 0
Fits (locked n t) r = r.answer ≡ acquired
Fits (busy n t) r = r.answer ≡ contended
Fits (erred n t) r = (r.answer ≡ failed) ⊎ ((r.answer ≡ contended) × (r.cancelled ≡ true))

pub record IsExplained (env : ℕ → Round) (n : ℕ) (o : Outcome) : Type 0 where
  pub last : ℕ
  pub from : n ≤ last
  pub ended : rounds o ≡ suc last
  pub fits : Fits o (env last)
  pub waited : (i : ℕ) → n ≤ i → i < last → (env i).answer ≡ contended

-- When the next round begins.
abbrev resume : ℕ → ℕ → ℕ → Round → ℕ
resume poll deadline now r =
    let remaining = deadline - (now + r.call_ms) in
    now + r.call_ms + (if ltb remaining poll then remaining else poll)

-- A round ends the loop with what shows in it, or goes on when it was contended.
round_cases :
    (poll wait deadline n now : ℕ) (r : Round) (rest : ℕ → Option Outcome) (o : Outcome)
    → after_round poll wait deadline n now r rest ≡ some o
    → ((rounds o ≡ n) × Fits o r)
      ⊎ ((r.answer ≡ contended) × (rest (resume poll deadline now r) ≡ some o))
unfolding after_round
round_cases poll wait deadline n now r rest (locked m t) h = ground arith
round_cases poll wait deadline n now r rest (busy m t) h = ground arith
round_cases poll wait deadline n now r rest (erred m t) h = ground arith

loop-IsExplained :
    (f poll wait deadline : ℕ) (env : ℕ → Round) (n now : ℕ) (o : Outcome)
    → poll_loop f poll wait deadline env n now ≡ some o
    → IsExplained env n o
unfolding poll_loop
loop-IsExplained zero poll wait deadline env n now o h = absurd (cc)
loop-IsExplained (suc f) poll wait deadline env n now o h =
    elim (round_cases poll wait deadline (suc n) now (env n)
      (λ later. poll_loop f poll wait deadline env (suc n) later) o h) [
        | inl (count, fits) ↦ record {
          last = n;
          from = omega arith;
          ended = count;
          fits = fits;
          waited = λ i a b. absurd (omega arith);
        }
        | inr (busy_now, rest) ↦
            let e = loop-IsExplained f poll wait deadline env (suc n) _ o rest in
            record {
              last = e.last;
              from = omega (arith, e.from);
              ended = e.ended;
              fits = e.fits;
              waited = λ i a b. elim (ℕ_discrete n i) [
                | yes here ↦ subst (λ k. (env k).answer ≡ contended) here busy_now
                | no later ↦ e.waited i (omega arith) b
              ];
            }
      ]

-- `TryLock` returns what its last round shows: the lock exactly if that call set the key, no lock
-- if it did not, an error if it failed or the context ended; all rounds before were contended.
pub try_lock-IsExplained :
    (opts : Options) (env : ℕ → Round) (now : ℕ) (wait : ℤ) (o : Outcome)
    → try_lock opts env now wait ≡ some o
    → IsExplained env 0 o
unfolding try_lock
try_lock-IsExplained opts env now wait o h =
    loop-IsExplained (suc (wait_ms wait)) opts.poll_interval (wait_ms wait) (now + wait_ms wait) env
      0 now o h

-- The loop ends within the fuel, since a round that goes on sleeps for a millisecond at least.
loop_total :
    (f poll wait deadline : ℕ) (env : ℕ → Round) (n now : ℕ)
    → 0 < poll
    → deadline - now < f
    → poll_loop f poll wait deadline env n now ≢ none
unfolding poll_loop after_round
loop_total zero poll wait deadline env n now p h e = absurd (omega arith)
loop_total (suc f) poll wait deadline env n now p h e =
    ground (arith, loop_total f poll wait deadline env (suc n) (resume poll deadline now (env n)) p)

one_attempt :
    (poll wait deadline n now : ℕ) (r : Round) (rest : ℕ → Option Outcome) (o : Outcome)
    → wait ≡ 0
    → after_round poll wait deadline n now r rest ≡ some o
    → rounds o ≡ n
unfolding after_round
one_attempt poll wait deadline n now r rest (locked m t) z h = ground arith
one_attempt poll wait deadline n now r rest (busy m t) z h = ground arith
one_attempt poll wait deadline n now r rest (erred m t) z h = ground arith

-- With a positive poll interval `TryLock` returns, whatever Redis answers; with a wait that is not
-- positive it makes one attempt.
pub try_lock_total :
    (opts : Options) (env : ℕ → Round) (now : ℕ) (wait : ℤ)
    → 0 < opts.poll_interval
    → (o : Outcome) × (try_lock opts env now wait ≡ some o) × (wait_ms wait ≡ 0 → rounds o ≡ 1)
unfolding try_lock poll_loop
try_lock_total opts env now wait p =
    let total =
      loop_total (suc (wait_ms wait)) opts.poll_interval (wait_ms wait) (now + wait_ms wait) env 0
        now p (omega arith) in
    elim (Option-cases (try_lock opts env now wait)) [
      | inl nothing ↦ absurd (total nothing)
      | inr (o, e) ↦ (
        o,
        e,
        λ z.
            one_attempt _ _ _ 1 now (env 0)
              (poll_loop (wait_ms wait) opts.poll_interval (wait_ms wait) (now + wait_ms wait) env
                1)
              o z e,
      )
    ]
