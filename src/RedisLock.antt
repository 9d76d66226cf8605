-- ===== src/RedisLock.antt =====
-- server-go/internal/redislock/lock.go: the lease-based lock, for one key. Owners, their watchdogs
-- and Redis run concurrently: an event is one access to what they share, or the time that passes,
-- in milliseconds. An owner's random token is its number, so two owners never draw the same token.
-- One clock serves Redis and the owners.
pub mod Polling
pub mod Lease
use vparser.Prelude.{
  ℕ, ◌+◌, ◌-◌, Bool, true, false, not, ◌&&◌, ◌||◌, Option, none, some, List, [], ◌∷◌, leb, ◌==◌,
  if◌then◌else◌,
}
use vparser.Prelude.Int.{ℤ, pos, negsuc}
use vparser.Go.Bytes.{Bytes, lit, strip_prefix}

-- `strings.SplitN(s, ":", 2)[0]`.
before_colon : Bytes → Bytes
before_colon [] = []
before_colon (c ∷ s) = let rest = before_colon s in if c == b':' then [] else c ∷ rest

trim_prefix : Bytes → Bytes → Bytes
trim_prefix p s = let (found, rest) = strip_prefix p s in if found then rest else s

unfoldable pub lock_name : Bytes → Bytes
unfolding before_colon trim_prefix
lock_name key = before_colon (trim_prefix (lit "lock:") key)

-- Durations in milliseconds; one that is not positive is replaced by its default.
pub record Options : Type 0 where
  pub ttl : ℕ
  pub renew_interval : ℕ
  pub poll_interval : ℕ

positive_or : ℤ → ℕ → ℕ
positive_or (pos n) d = if n == 0 then d else n
positive_or (negsuc n) d = d

unfoldable pub new_options : ℤ → ℤ → ℤ → Options
unfolding positive_or
new_options ttl renew poll = record {
  ttl = positive_or ttl 30000;
  renew_interval = positive_or renew 10000;
  poll_interval = positive_or poll 100;
}

-- What a watchdog has heard from `renewScript`, or an error of Redis.
pub data Reply : Type 0 where
  count : ℕ → Reply
  error : Reply

pub data Phase : Type 0 where
  polling granted held : Phase

pub record Owner : Type 0 where
  pub phase : Phase
  -- when Redis last set or renewed the key for this owner
  pub leased : Option ℕ
  -- the watchdog: whether it runs, the reply on its way, `lastOK`
  pub watching : Bool
  pub reply : Option Reply
  pub last_ok : ℕ
  pub released : Bool
  pub is_lost : Bool
  -- `unlockScript` is still to run
  pub unlocking : Bool

abbrev pub new_owner : Owner
new_owner = record {
  phase = Phase.polling;
  leased = none;
  watching = false;
  reply = none;
  last_ok = 0;
  released = false;
  is_lost = false;
  unlocking = false;
}

pub record World : Type 0 where
  pub clock : ℕ
  -- the token and the instant at which the key expires
  pub key : Option (ℕ × ℕ)
  pub owner : ℕ → Owner

abbrev pub init : World
init = record { clock = 0; key = none; owner = λ o. new_owner }

abbrev pub live : ℕ → Option (ℕ × ℕ) → Option ℕ
live clock none = none
live clock (some (token, expires)) = if leb expires clock then none else some token

-- `redis.call('get', KEYS[1]) == ARGV[1]`.
abbrev pub owned_by : ℕ → Option ℕ → Bool
owned_by o none = false
owned_by o (some token) = token == o

abbrev pub set_owner : World → ℕ → Owner → World
set_owner w o x = record w { owner = λ j. if o == j then x else w.owner j }

pub data Event : Type 0 where
  pass : ℕ → Event
  set_nx : ℕ → Event  -- `SetNX` of `acquire`
  start : ℕ → Event  -- the reply arrives: `TryLock` returns the lock, the watchdog starts
  renew : ℕ → Event  -- `renewScript` runs
  lose_request : ℕ → Event  -- the call of `renewScript` fails before the script ran
  lose_reply : ℕ → Event  -- the script ran, and the reply is lost
  hear : ℕ → Event  -- the watchdog reads its reply
  release : ℕ → Event  -- `Unlock` up to the script
  unlock : ℕ → Event  -- `unlockScript` runs
  stop : ℕ → Event  -- the watchdog sees `stop`

is_polling : Phase → Bool
is_polling Phase.polling = true
is_polling _ = false

is_granted : Phase → Bool
is_granted Phase.granted = true
is_granted _ = false

is_holding : Phase → Bool
is_holding Phase.held = true
is_holding _ = false

abbrev no_reply : Option Reply → Bool
no_reply none = true
no_reply (some r) = false

abbrev guarded : Bool → World → Option World
guarded ready w = if ready then some w else none

-- `SET NX PX`: sets the key if it is missing.
try_set : ℕ → World → ℕ → Owner → World
try_set ttl w o x = elim (live w.clock w.key) [
  | none ↦
      set_owner (record w { key = some (o, w.clock + ttl) }) o
        (record x { phase = Phase.granted; leased = some w.clock })
  | some token ↦ w
]

-- `renewScript`; `heard` is what the watchdog gets for its result.
run_renew : ℕ → World → ℕ → Owner → (ℕ → Reply) → World
run_renew ttl w o x heard =
    if owned_by o (live w.clock w.key)
    then set_owner (record w { key = some (o, w.clock + ttl) }) o
        (record x { leased = some w.clock; reply = some (heard 1) })
    else set_owner w o (record x { reply = some (heard 0) })

-- `markLost`.
mark_lost : Owner → Owner
mark_lost x = if x.is_lost || x.released then x else record x { is_lost = true }

-- The `switch` of the watchdog.
on_reply : ℕ → ℕ → Owner → Option Reply → Owner
unfolding mark_lost
on_reply ttl clock x none = x
on_reply ttl clock x (some (count n)) =
    if n == 1
    then record x { reply = none; last_ok = clock }
    else record (mark_lost x) { reply = none; watching = false }
on_reply ttl clock x (some error) =
    if leb ttl (clock - x.last_ok)
    then record (mark_lost x) { reply = none; watching = false }
    else record x { reply = none }

-- `unlockScript`.
run_unlock : World → ℕ → Owner → World
run_unlock w o x =
    let w' = set_owner w o (record x { unlocking = false }) in
    if owned_by o (live w.clock w.key) then record w' { key = none } else w'

-- `none` if nobody is ready for the event.
unfoldable pub step : ℕ → World → Event → Option World
unfolding is_polling is_granted is_holding try_set run_renew on_reply run_unlock
step ttl w (pass d) = some (record w { clock = w.clock + d })
step ttl w (set_nx o) = let x = w.owner o in guarded (is_polling x.phase) (try_set ttl w o x)
step ttl w (start o) =
    let x = w.owner o in
    guarded (is_granted x.phase)
      (set_owner w o (record x { phase = Phase.held; watching = true; last_ok = w.clock }))
step ttl w (renew o) =
    let x = w.owner o in guarded (x.watching && no_reply x.reply) (run_renew ttl w o x count)
step ttl w (lose_request o) =
    let x = w.owner o in
    guarded (x.watching && no_reply x.reply) (set_owner w o (record x { reply = some error }))
step ttl w (lose_reply o) =
    let x = w.owner o in guarded (x.watching && no_reply x.reply) (run_renew ttl w o x (λ n. error))
step ttl w (hear o) =
    let x = w.owner o in
    guarded (x.watching && not (no_reply x.reply)) (set_owner w o (on_reply ttl w.clock x x.reply))
step ttl w (release o) =
    let x = w.owner o in
    guarded (is_holding x.phase)
      (if x.released then w else set_owner w o (record x { released = true; unlocking = true }))
step ttl w (unlock o) = let x = w.owner o in guarded x.unlocking (run_unlock w o x)
step ttl w (stop o) =
    let x = w.owner o in
    guarded (x.watching && x.released && no_reply x.reply)
      (set_owner w o (record x { watching = false }))

unfoldable pub run : ℕ → World → List Event → Option World
run ttl w [] = some w
run ttl w (e ∷ events) = elim (step ttl w e) [ none ↦ none | some v ↦ run ttl v events ]

-- `IsHeld`, of a lock that `TryLock` returned.
unfoldable pub is_held : Owner → Bool
unfolding is_holding
is_held x = is_holding x.phase && (not x.released && not x.is_lost)
