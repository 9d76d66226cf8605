-- ===== src/Auth/Throttle.antt =====
-- The failures of a user name and what they allow. Logins of one name run concurrently: a step below
-- is one access to Redis, and a login is in flight between its check and its last access. At most
-- `cap` logins are in flight.
pub mod Bounds
pub mod Lockout
use vparser.Prelude.{
  ℕ, ◌+◌, ◌-◌, Bool, true, false, Option, none, some, List, [], ◌∷◌, ltb, leb, ◌==◌, if◌then◌else◌,
}
use vparser.Prelude.Int.{ℤ, pos, negsuc}
use vparser.Go.Bytes.{Bytes}
use vparser.Go.Decimal.{format_nat, parse_int}
use vparser.Errors.{Error}
use vparser.Mq.Effects.{Answer, answer, error}

abbrev pub max_login_failures : ℕ
max_login_failures = 8

-- Ten minutes, in milliseconds.
abbrev pub login_failure_window : ℕ
login_failure_window = 600000

abbrev below_limit : ℤ → Bool
below_limit (pos n) = ltb n max_login_failures
below_limit (negsuc n) = true

abbrev allowed_number : Option ℤ → Answer Bool × Bool
allowed_number none = (answer true, true)
allowed_number (some n) = (answer (below_limit n), false)

-- Whether an attempt is allowed, and whether the counter is deleted; `none` is a missing key.
unfoldable pub login_attempt_allowed : Answer (Option Bytes) → Answer Bool × Bool
login_attempt_allowed (error e) = (error e, false)
login_attempt_allowed (answer none) = (answer true, false)
login_attempt_allowed (answer (some v)) = allowed_number (parse_int v)

-- The error, and whether an expiry was asked for, from the answers of `INCR` and `EXPIRE`.
unfoldable pub record_login_failure : Answer ℕ → Option Error → Option Error × Bool
record_login_failure (error e) expire = (some e, false)
record_login_failure (answer n) expire = if n == 1 then (expire, true) else (none, false)

pub record Counter : Type 0 where
  pub count : ℕ
  pub expires : Option ℕ

pub record World : Type 0 where
  pub now : ℕ
  pub counter : Option Counter
  pub in_flight : ℕ

abbrev pub init : World
init = record { now = 0; counter = none; in_flight = 0 }

pub data Event : Type 0 where
  check : Event  -- `LoginAttemptAllowed`
  miss : Option Error → Event  -- `recordLoginFailure`, with what `EXPIRE` answers if it is called
  hit : Event  -- the password matched: the counter is deleted
  abandon : Event  -- any other error on the way
  pass : ℕ → Event  -- time goes by

abbrev has_expired : ℕ → Option ℕ → Bool
has_expired now none = false
has_expired now (some e) = leb e now

-- Redis forgets a key at the end of its life.
unfoldable pub live : ℕ → Option Counter → Option Counter
live now none = none
live now (some c) = if has_expired now c.expires then none else some c

abbrev pub text_of : Option Counter → Option Bytes
text_of none = none
text_of (some c) = some (format_nat c.count)

abbrev expire_done : Option Error → Bool
expire_done none = true
expire_done (some e) = false

abbrev incremented : Option Counter → Counter
incremented none = record { count = 1; expires = none }
incremented (some c) = record c { count = c.count + 1 }

-- `INCR`, and `EXPIRE` if it is asked for and does not fail.
unfoldable pub missed : ℕ → Option Error → Option Counter → Counter
unfolding record_login_failure
missed now expire counter =
    let c = incremented counter in
    if (record_login_failure (answer c.count) expire).1
    then if expire_done expire then record c { expires = some (now + login_failure_window) } else c
    else c

abbrev pub admits : Answer Bool × Bool → Bool
admits (answer ok, deleted) = ok
admits (error e, deleted) = false

-- A check of the counter `c`, with what it gives.
abbrev pub checked : ℕ → World → Option Counter → Answer Bool × Bool → Option World
checked cap w c r =
    let kept = if r.1 then none else c in
    if ltb w.in_flight cap
    then some (
        if admits r
        then record w { counter = kept; in_flight = w.in_flight + 1 }
        else record w { counter = kept })
    else none

unfoldable pub step : ℕ → World → Event → Option World
unfolding login_attempt_allowed missed
step cap w check =
    let c = live w.now w.counter in checked cap w c (login_attempt_allowed (answer (text_of c)))
step cap w (miss expire) =
    if ltb 0 w.in_flight
    then some (record w {
      counter = some (missed w.now expire (live w.now w.counter));
      in_flight = w.in_flight - 1;
    })
    else none
step cap w hit =
    if ltb 0 w.in_flight
    then some (record w { counter = none; in_flight = w.in_flight - 1 })
    else none
step cap w abandon =
    if ltb 0 w.in_flight then some (record w { in_flight = w.in_flight - 1 }) else none
step cap w (pass d) = some (record w { now = w.now + d })
