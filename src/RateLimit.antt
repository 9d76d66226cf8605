-- ===== src/RateLimit.antt =====
-- server-go/internal/ratelimit/limiter.go: the token bucket that every gateway shares in Redis.
-- The script's numbers are exact here: a level counts 1/period of a token, so that the rate
-- `refill / period` and the fractions of tokens are whole numbers. The reply may be lost on either
-- side of the script.
pub mod Bounds
pub mod Idle
pub mod Charges
use vparser.Prelude.{
  ℕ, ◌+◌, ◌-◌, ◌*◌, ◌/◌, ◌≤◌, ◌<◌, ◌≡◌, refl, Bool, true, false, Option, none, some, List, [], ◌∷◌,
  ◌++◌, min, ltb, leb, if◌then◌else◌,
}
use vparser.Prelude.Int.{ℤ}
use vparser.Go.Bytes.{Bytes, lit, bytes_eq}
use vparser.Go.Decimal.{format_int}

-- A capacity and a refill rate; the period is in milliseconds.
pub record Bucket : Type 0 where
  pub capacity : ℕ
  pub refill : ℕ
  pub period : ℕ

abbrev pub per_minute : ℕ → Bucket
per_minute n = record { capacity = n; refill = n; period = 60000 }

abbrev pub analysis_user : Bucket
analysis_user = per_minute 5

abbrev pub analysis_global : Bucket
analysis_global = per_minute 30

abbrev pub route_user : Bucket
route_user = per_minute 10

abbrev pub route_global : Bucket
route_global = per_minute 60

unfoldable pub scope_analysis : Bytes
scope_analysis = lit "analysis"

unfoldable pub scope_route : Bytes
scope_route = lit "route"

unfoldable pub user_key : Bytes → ℤ → Bytes
user_key scope user_id = lit "ratelimit:" ++ (scope ++ (lit ":user:" ++ format_int user_id))

unfoldable pub global_key : Bytes → Bytes
global_key scope = lit "ratelimit:" ++ (scope ++ lit ":global")

-- The hash `{tokens, ts}` with the instant of the Redis clock at which it expires.
pub record Entry : Type 0 where
  pub tokens : ℕ
  pub ts : ℕ
  pub expires : ℕ

-- `math.ceil(a / b)`.
abbrev pub ceil_div : ℕ → ℕ → ℕ
ceil_div a b = (a + b - 1) / b

-- The level and the time stamp that the script works with, before the refill.
unfoldable pub load : Bucket → ℕ → Option Entry → ℕ × ℕ
load b now none = (b.capacity * b.period, now)
load b now (some e) = (e.tokens, e.ts)

-- The refill by elapsed time; `ts` only moves forward.
unfoldable pub refilled : Bucket → ℕ → ℕ × ℕ → ℕ × ℕ
refilled b now (tokens, ts) =
    if ltb ts now
    then (min (b.capacity * b.period) (tokens + (now - ts) * b.refill), now)
    else (tokens, ts)

-- `HSET` and `PEXPIRE` at the instant `clock` of the Redis clock.
unfoldable pub store_level : Bucket → ℕ → ℕ × ℕ → Entry
store_level b clock (tokens, ts) =
    let ttl = ceil_div (b.capacity * b.period - tokens) b.refill in
    record { tokens = tokens; ts = ts; expires = clock + (if ltb ttl 1 then 1 else ttl) }

unfoldable pub charge : Bucket → ℕ → ℕ × ℕ → Bool × Entry
charge b clock (tokens, ts) =
    if leb b.period tokens
    then (true, store_level b clock (tokens - b.period, ts))
    else (false, store_level b clock (tokens, ts))

-- A key whose time to live has passed is missing.
unfoldable pub live : ℕ → Option Entry → Option Entry
live clock none = none
live clock (some e) = if leb e.expires clock then none else some e

-- The whole script; `clock` is the clock of Redis, `now` that of the gateway.
unfoldable pub take_script : Bucket → ℕ → ℕ → Option Entry → Bool × Entry
take_script b clock now state = charge b clock (refilled b now (load b now (live clock state)))

-- What the buckets of all keys hold.
abbrev pub Store : Type 0
Store = Bytes → Option Entry

abbrev pub write : Store → Bytes → Entry → Store
write s k e j = if bytes_eq k j then some e else s j

-- A call may fail before the script ran, or lose the reply after it.
pub data Link : Type 0 where
  up lost_request lost_reply : Link

unfoldable pub take_run : Link → Bytes → Bucket → ℕ → ℕ → Store → Option Bool × Store
take_run lost_request key b clock now s = (none, s)
take_run lost_reply key b clock now s = (none, write s key (take_script b clock now (s key)).1)
take_run up key b clock now s =
    let (allowed, e) = take_script b clock now (s key) in (some allowed, write s key e)

-- `none` is an error of Redis.
unfoldable pub take_user_then_global :
    Link → Link → Bytes → ℤ → Bucket → Bucket → ℕ → ℕ → Store → Option Bool × Store
take_user_then_global l1 l2 scope user_id user global clock now s =
    let (ok, s') = take_run l1 (user_key scope user_id) user clock now s in
    elim ok [
      | none ↦ (none, s')
      | some allowed ↦
          if allowed then take_run l2 (global_key scope) global clock now s' else (some false, s')
    ]
