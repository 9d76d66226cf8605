-- ===== src/Auth/Login.antt =====
-- Logging in. Each service is called once at most, so its answer is one value; the calls that were
-- made are a list, oldest first.
pub mod Outcome
use vparser.Prelude.{
  ℕ, Bool, true, false, not, ◌||◌, Option, none, some, List, [], ◌∷◌, ◌++◌, if◌then◌else◌,
}
use vparser.Prelude.Int.{ℤ}
use vparser.Go.Base64.{encode, url}
use vparser.Go.Bytes.{Bytes, lit, bytes_eq}
use vparser.Go.Decimal.{format_int}
use vparser.Go.Text.{is_blank}
use vparser.Errors.{Error, Kind, of_kind}
use vparser.Mq.Effects.{Answer, answer, error}
use vparser.Auth.{User, AuthRequest, AuthResponse, response, user_view, deref, normalize_username}
use vparser.Auth.Password.{needs_rehash, hash_password, password_matches}
use vparser.Auth.Throttle.{login_attempt_allowed, record_login_failure}
use vparser.Auth.Session.{session_key}

-- Commands of Redis by key, and the queries of the users.
pub data Call : Type 0 where
  get del incr expire : Bytes → Call
  set : Bytes → Bytes → Call
  find_by_username : Bytes → Call
  update_password : ℤ → Bytes → Call

-- What the services and the source of random bytes answer.
pub record Services : Type 0 where
  pub failures : Answer (Option Bytes)
  pub user : Answer (Option User)
  pub counted : Answer ℕ
  pub expiry : Option Error
  pub salt : Answer Bytes
  pub updated : Option Error
  pub cleared : Option Error
  pub token : Answer Bytes
  pub stored : Option Error

abbrev pub LoggedIn : Type 0
LoggedIn = Answer AuthResponse × List Call

abbrev cons : Call → LoggedIn → LoggedIn
cons c (r, calls) = (r, c ∷ calls)

abbrev refuse : ℕ → Bytes → LoggedIn
refuse code msg = (answer (response code msg none []), [])

abbrev pub failure_key : Bytes → Bytes
failure_key username = lit "auth:login-failures:" ++ username

abbrev missed_with : Option Error × Bool → Bytes → LoggedIn
missed_with (some e, asked) key = (error e, if asked then Call.expire key ∷ [] else [])
missed_with (none, asked) key =
    (answer (response 401 (lit "账号或密码错误") none []), if asked then Call.expire key ∷ [] else [])

-- A wrong password, or no such user.
unfoldable pub miss : Services → Bytes → LoggedIn
unfolding record_login_failure
miss sv key = cons (Call.incr key) (missed_with (record_login_failure sv.counted sv.expiry) key)

module _ (sha256 : Bytes → Bytes) (kdf : Bytes → Bytes → ℕ → ℕ → Bytes) where
  abbrev pub grant : Services → User → Answer Bytes → LoggedIn
  grant sv u (error e) = (error e, [])
  grant sv u (answer b) =
      cons (Call.set (session_key sha256 (encode url b)) (format_int u.id)) (elim sv.stored [
        | some e ↦ (error e, [])
        | none ↦ (answer (response 200 (lit "登录成功") (some (user_view u)) (encode url b)), [])
      ])

  abbrev pub clear : Services → Bytes → User → LoggedIn
  clear sv key u =
      cons (Call.del key) (elim sv.cleared [ some e ↦ (error e, []) | none ↦ grant sv u sv.token ])

  abbrev pub rehash : Services → Bytes → Bytes → User → Answer Bytes → LoggedIn
  rehash sv key password u (error e) = (error e, [])
  rehash sv key password u (answer salt) =
      cons (Call.update_password u.id (hash_password kdf salt password))
        (elim sv.updated [ some e ↦ (error e, []) | none ↦ clear sv key u ])

  abbrev pub verify : Services → Bytes → Bytes → Option User → LoggedIn
  verify sv key password none = miss sv key
  verify sv key password (some u) =
      if not (password_matches kdf password u.password)
      then miss sv key
      else if needs_rehash u.password
      then rehash sv key password u sv.salt
      else clear sv key u

  abbrev pub verify_found : Services → Bytes → Bytes → Answer (Option User) → LoggedIn
  verify_found sv key password (error e) = (error e, [])
  verify_found sv key password (answer found) = verify sv key password found

  abbrev pub find : Services → Bytes → Bytes → LoggedIn
  find sv username password =
      cons (Call.find_by_username username)
        (verify_found sv (failure_key username) password sv.user)

  abbrev deleting : Bool → Bytes → LoggedIn → LoggedIn
  deleting true key r = cons (Call.del key) r
  deleting false key r = r

  abbrev pub attempt : Services → Bytes → Bytes → Answer Bool × Bool → LoggedIn
  attempt sv username password (error e, deleted) = (error e, [])
  attempt sv username password (answer allowed, deleted) =
      deleting deleted (failure_key username)
        (if allowed then find sv username password else refuse 429 (lit "登录尝试过于频繁，请稍后再试"))

  -- `Login`.
  unfoldable pub login : Services → AuthRequest → LoggedIn
  unfolding miss login_attempt_allowed
  login sv req =
      let (username, ok) = normalize_username req.username in
      let password = deref req.password in
      if not ok || is_blank password
      then refuse 400 (lit "请输入账号和密码")
      else cons (Call.get (failure_key username))
          (attempt sv username password (login_attempt_allowed sv.failures))

-- `RequireAdmin`, from the answer of the one query that it makes.
unfoldable pub require_admin : Answer (Option User) → Option Error
require_admin (error e) = some e
require_admin (answer none) = some (of_kind Kind.forbidden (lit "仅管理员可操作失败任务") [])
require_admin (answer (some u)) =
    if bytes_eq u.role (lit "ADMIN")
    then none
    else some (of_kind Kind.forbidden (lit "仅管理员可操作失败任务") [])
