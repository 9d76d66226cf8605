-- ===== src/Tests/Auth.antt =====
-- Accounts and sessions of server-go/internal/auth at concrete inputs.
use vparser.Prelude.{
  ℕ, zero, suc, ◌+◌, ◌%◌, ◌≤◌, ◌<◌, ◌≡◌, ◌≢◌, refl, subst, true, false, none, some, List, [], ◌∷◌,
  arith, All, length, ltb, if◌then◌else◌, run,
}
use vparser.Prelude.Int.{ℤ, pos, int_eq}
use vparser.Go.Base64.{Byte, encode, decode, url}
use vparser.Go.Bytes.{Bytes, lit, bytes_eq, bytes_eq_refl, strip_prefix}
use vparser.Go.Decimal.{parse_int, format_int, format_nat}
use vparser.Go.Text.{trim_space, utf16_length, is_blank}
use vparser.Redis.{up}
use vparser.Errors.{Error, Kind, of_kind}
use vparser.Mq.Effects.{answer}
use vparser.Auth.{User, AuthRequest, matches_username, normalize_username, normalize_nickname}
use vparser.Auth.Password.{
  hash_password, password_matches, needs_rehash, is_hashed, format_hash, password_iterations,
  password_key_bytes,
}
use vparser.Auth.Password.Stored.{GivesBytes, stored_checks}
use vparser.Auth.Throttle.{
  record_login_failure, missed, login_attempt_allowed, admits, World, init, step, Event, check,
  miss, text_of, live, login_failure_window,
}
use vparser.Auth.Throttle.Bounds.{failures, failures_bounded, current}
use vparser.Auth.Throttle.Lockout.{lockout_forever, reliable, eight_misses}
use vparser.Auth.Session.{
  Store, forbidden, bearer_token, create_session, resolve_user, revoke_session, session_key,
  session_ttl,
}
use vparser.Auth.Session.Life.{session_life, bearer}
use vparser.Auth.Login
use vparser.Auth.Login.{login}
use vparser.Auth.Login.Outcome.{session_earned, counted, sessions, password_after, token_of}
use vparser.Auth.Register
use vparser.Auth.Register.{register, created, lacks_invite, valid_password}
use vparser.Auth.Register.Account.{account-IsSound}

abbrev copies : ℕ → ℕ → Bytes
copies b zero = []
copies b (suc l) = b ∷ copies b l

copies-Byte : (b l : ℕ) → b < 256 → All Byte (copies b l) × (length (copies b l) ≡ l)
copies-Byte b zero h = (tt, refl)
copies-Byte b (suc l) h = let (bytes, size) = copies-Byte b l h in ((h, bytes), omega (arith, size))

-- A key that says how long the password is.
abbrev measure : Bytes → Bytes → ℕ → ℕ → Bytes
measure p s n l = copies (length p % 256) l

measure-GivesBytes : GivesBytes measure
measure-GivesBytes p s n l = copies-Byte (length p % 256) l (omega arith)

abbrev salt : Bytes
salt = copies 7 16

stored_checks_example :
    (password_matches measure (lit "guess") (hash_password measure salt (lit "secret"))
      ≡ bytes_eq
          (measure (lit "guess") salt password_iterations password_key_bytes)
          (measure (lit "secret") salt password_iterations password_key_bytes))
    × (password_matches measure (lit "secret") (hash_password measure salt (lit "secret")) ≡ true)
    × (needs_rehash (hash_password measure salt (lit "secret")) ≡ false)
stored_checks_example =
    stored_checks measure measure-GivesBytes salt (lit "secret") (lit "guess")
      (copies-Byte 7 16 (omega arith)).0

guess_fails :
    password_matches measure (lit "guess") (hash_password measure salt (lit "secret")) ≡ false
unfolding password_matches hash_password lit is_hashed strip_prefix format_hash format_int
    format_nat encode parse_int decode bytes_eq
guess_fails = refl

abbrev no_expiry : Error
no_expiry = of_kind Kind.transient (lit "redis") []

-- Two logins of one name at a time, and a wrong password in each.
abbrev two_wrong : List Event
two_wrong = check ∷ check ∷ miss none ∷ miss none ∷ []

abbrev counted_twice : World
counted_twice = record {
  now = 0;
  counter = some (record { count = 2; expires = some login_failure_window });
  in_flight = 0;
}

two_wrong_runs : run (step 2) init two_wrong ≡ some counted_twice
unfolding run step live missed login_attempt_allowed record_login_failure
two_wrong_runs = refl

failures_bounded_example : failures counted_twice.counter + counted_twice.in_flight ≤ 7 + 2
failures_bounded_example = failures_bounded 2 counted_twice two_wrong (omega arith) two_wrong_runs

two_wrong-reliable : run (reliable 2) init two_wrong ≡ some counted_twice
unfolding run step live missed login_attempt_allowed record_login_failure
two_wrong-reliable = refl

lockout_forever_example :
    (w : World) × (run (step 1) init (eight_misses no_expiry) ≡ some w)
    × ((events : List Event) (v : World)
        → run (step 1) w events ≡ some v
        → login_attempt_allowed (answer (text_of (current v))) ≡ (answer false, false))
lockout_forever_example = lockout_forever 1 no_expiry (omega arith)

abbrev digest : Bytes → Bytes
digest s = s

abbrev no_sessions : Store
no_sessions k = none

abbrev token_bytes : Bytes
token_bytes = copies 200 32

session_life_example :
    let (token, s') = create_session digest (answer token_bytes) up 5 (pos 3) no_sessions in
    (token ≡ answer (encode url token_bytes))
    × (resolve_user digest up 86400005 (bearer (encode url token_bytes)) s'
        ≡ (if ltb 86400005 (5 + session_ttl) then answer (pos 3) else forbidden (lit "登录状态已失效")))
    × (resolve_user digest up 86400005
          (bearer (encode url token_bytes))
          (revoke_session digest up (bearer (encode url token_bytes)) s').1
        ≡ forbidden (lit "登录状态已失效"))
session_life_example =
    session_life digest token_bytes 5 86400005 (pos 3) no_sessions
      (copies-Byte 200 32 (omega arith)).0 refl (omega arith)

abbrev old_token : Bytes
old_token = lit "aaaaaaaaaaaaaaaaaaaaaaaaaaaaaaaaaaaaaaaa"

abbrev new_token : Bytes
new_token = lit "bbbbbbbbbbbbbbbbbbbbbbbbbbbbbbbbbbbbbbbb"

old_bearer : bearer_token (bearer old_token) ≡ answer old_token
unfolding bearer_token lit trim_space utf16_length strip_prefix
old_bearer = refl

new_bearer : bearer_token (bearer new_token) ≡ answer new_token
unfolding bearer_token lit trim_space utf16_length strip_prefix
new_bearer = refl

keys_apart :
    (s t : Bytes)
    → bytes_eq (session_key digest s) (session_key digest t) ≡ false
    → session_key digest s ≢ session_key digest t
keys_apart s t h e = ground (arith, h, e, bytes_eq_refl (session_key digest t))

abbrev ada : User
ada = record {
  id = pos 3;
  username = lit "ada";
  password = lit "secret-1";
  nickname = lit "Ada";
  avatar = none;
  role = lit "USER";
}

abbrev answers : Login.Services
answers = record {
  failures = answer (some (lit "7"));
  user = answer (some ada);
  counted = answer 8;
  expiry = none;
  salt = answer salt;
  updated = none;
  cleared = none;
  token = answer token_bytes;
  stored = none;
}

abbrev request : Bytes → AuthRequest
request password = record {
  username = some (lit " ada");
  password = some password;
  nickname = none;
  invite_code = none;
}

salt_drawn : (s : Bytes) → answers.salt ≡ answer s → All Byte s
salt_drawn s e = subst (All Byte) {x = salt} (cc e) (copies-Byte 7 16 (omega arith)).0

earned :
    sessions (login digest measure answers (request (lit "secret-1"))).1
    ≡ (session_key digest (encode url token_bytes), format_int (pos 3)) ∷ []
unfolding login lit normalize_username matches_username is_blank trim_space login_attempt_allowed
    parse_int password_matches needs_rehash is_hashed strip_prefix bytes_eq session_key encode
    format_int format_nat
earned = refl

session_earned_example :
    let (r, calls) = login digest measure answers (request (lit "secret-1")) in
    (admits (login_attempt_allowed answers.failures) ≡ true)
    × (u : User) × (answers.user ≡ answer (some u))
    × (password_matches measure (lit "secret-1") u.password ≡ true)
    × (answers.token ≡ answer (token_of answers.token))
    × (sessions calls
        ≡ (session_key digest (encode url (token_of answers.token)), format_int u.id) ∷ [])
    × (password_matches measure (lit "secret-1") (password_after u.id calls u.password) ≡ true)
    × (needs_rehash (password_after u.id calls u.password) ≡ false)
    × ((id : ℤ) (stored : Bytes) → int_eq id u.id ≡ false → password_after id calls stored ≡ stored)
session_earned_example =
    session_earned digest measure answers (request (lit "secret-1"))
      (session_key digest (encode url token_bytes)) (format_int (pos 3)) [] measure-GivesBytes
      salt_drawn earned

abbrev registering : Register.Services
registering = record {
  count = answer (pos 0);
  now_ms = 1700000000000;
  salt = answer salt;
  creation = created (pos 4);
}

abbrev sign_up : AuthRequest
sign_up = record (request (lit "secret-1")) { invite_code = some (lit "beta ") }

abbrev new_ada : User
new_ada = record {
  id = pos 4;
  username = lit "ada";
  password = hash_password measure salt (lit "secret-1");
  nickname = lit "用户1700000000000";
  avatar = none;
  role = lit "USER";
}

signed_up : (register measure (lit "beta") registering sign_up).1 ≡ some new_ada
unfolding register lit normalize_username matches_username normalize_nickname trim_space
    lacks_invite bytes_eq valid_password utf16_length format_nat
signed_up = refl

account-IsSound_example :
    (lacks_invite (lit "beta") sign_up.invite_code ≡ false)
    × (valid_password sign_up.password ≡ true)
    × (matches_username new_ada.username ≡ true)
    × (new_ada.role ≡ lit "USER")
    × (password_matches measure (lit "secret-1") new_ada.password ≡ true)
    × (needs_rehash new_ada.password ≡ false)
account-IsSound_example =
    account-IsSound measure (lit "beta") registering sign_up new_ada measure-GivesBytes salt_drawn
      signed_up
