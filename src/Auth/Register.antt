-- ===== src/Auth/Register.antt =====
-- Registration. As in a login each service is called once at most. The id and the nickname of a new
-- account come from the database and the clock.
pub mod Account
use vparser.Prelude.{
  ℕ, Bool, true, false, not, ◌&&◌, ◌||◌, Option, none, some, List, [], ◌∷◌, ◌++◌, ltb, leb,
  if◌then◌else◌,
}
use vparser.Prelude.Int.{ℤ, pos, negsuc}
use vparser.Go.Bytes.{Bytes, lit, bytes_eq}
use vparser.Go.Decimal.{format_nat}
use vparser.Go.Text.{trim_space, is_empty, utf16_length}
use vparser.Errors.{Error}
use vparser.Mq.Effects.{Answer, answer, error}
use vparser.Auth.{
  User, AuthRequest, AuthResponse, response, user_view, deref, normalize_username,
  normalize_nickname,
}
use vparser.Auth.Password.{hash_password}

abbrev max_password_length : ℕ
max_password_length = 128

-- What `users.Create` ends with: the id, `ErrDuplicate`, or another error.
pub data Creation : Type 0 where
  created : ℤ → Creation
  duplicate : Creation
  failed : Error → Creation

pub record Services : Type 0 where
  pub count : Answer ℤ
  pub now_ms : ℕ
  pub salt : Answer Bytes
  pub creation : Creation

-- The response, and the account that was handed to `users.Create`.
abbrev pub Registered : Type 0
Registered = Answer AuthResponse × Option User

abbrev refuse : ℕ → Bytes → Registered
refuse code msg = (answer (response code msg none []), none)

abbrev exists_already : Bytes
exists_already = lit "该账号已存在"

-- Whether the invite code, if the server asks for one, is wrong.
unfoldable pub lacks_invite : Bytes → Option Bytes → Bool
lacks_invite code none = not (is_empty code)
lacks_invite code (some given) = not (is_empty code) && not (bytes_eq (trim_space given) code)

unfoldable pub valid_password : Option Bytes → Bool
valid_password none = false
valid_password (some p) = leb 8 (utf16_length p) && leb (utf16_length p) max_password_length

abbrev is_positive : ℤ → Bool
is_positive (pos n) = ltb 0 n
is_positive (negsuc n) = false

abbrev nickname_or : ℕ → Bytes → Bytes
nickname_or now_ms nickname = if is_empty nickname then lit "用户" ++ format_nat now_ms else nickname

-- The account as it is handed over, and as it stands in the database.
abbrev new_user : ℤ → Bytes → Bytes → Bytes → User
new_user id username hashed nickname = record {
  id = id;
  username = username;
  password = hashed;
  nickname = nickname;
  avatar = none;
  role = lit "USER";
}

abbrev create : Creation → (ℤ → User) → Registered
create (created id) user =
    (answer (response 200 (lit "注册成功") (some (user_view (user id))) []), some (user id))
create duplicate user = (answer (response 409 exists_already none []), some (user (pos 0)))
create (failed e) user = (error e, some (user (pos 0)))

module _ (kdf : Bytes → Bytes → ℕ → ℕ → Bytes) where
  abbrev hashing : Services → Bytes → Bytes → Bytes → Answer Bytes → Registered
  hashing sv username password nickname (error e) = (error e, none)
  hashing sv username password nickname (answer salt) = create sv.creation (λ id.
      new_user id username (hash_password kdf salt password) (nickname_or sv.now_ms nickname))

  abbrev counted : Services → Bytes → Bytes → Bytes → Answer ℤ → Registered
  counted sv username password nickname (error e) = (error e, none)
  counted sv username password nickname (answer n) =
      if is_positive n
      then refuse 409 exists_already
      else hashing sv username password nickname sv.salt

  -- `Register`, on a server with the given invite code, which is empty where it is open.
  unfoldable pub register : Bytes → Services → AuthRequest → Registered
  unfolding lacks_invite valid_password
  register invite sv req =
      let (username, ok) = normalize_username req.username in
      let (nickname, short) = normalize_nickname req.nickname in
      if lacks_invite invite req.invite_code
      then refuse 403 (lit "项目内测中，请联系作者索要内测码")
      else if not ok || not (valid_password req.password)
      then refuse 400 (lit "账号需为 3-32 位字母、数字或下划线，密码需为 8-128 位")
      else if not short
      then refuse 400 (lit "昵称不能超过 50 个字符")
      else counted sv username (deref req.password) nickname sv.count
