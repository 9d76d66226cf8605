-- ===== src/Auth.antt =====
-- server-go/internal/auth/auth.go: accounts, sessions and the throttling of logins. The types here
-- are those of server-go/internal/model (dto.go and entity.go).
pub mod Password
pub mod Throttle
pub mod Session
pub mod Login
pub mod Register
use vparser.Prelude.{
  ℕ, ◌≡◌, refl, Bool, true, false, ◌&&◌, ◌||◌, Option, none, some, [], ◌∷◌, leb, ◌==◌,
  if◌then◌else◌, length,
}
use vparser.Prelude.Int.{ℤ}
use vparser.Go.Bytes.{Bytes, lit}
use vparser.Go.Text.{trim_space, is_blank, utf16_length}

pub record User : Type 0 where
  pub id : ℤ
  pub username : Bytes
  pub password : Bytes
  pub nickname : Bytes
  pub avatar : Option Bytes
  pub role : Bytes

pub record UserInfo : Type 0 where
  pub id : ℤ
  pub username : Bytes
  pub nickname : Bytes
  pub avatar : Option Bytes
  pub role : Bytes

pub record AuthRequest : Type 0 where
  pub username : Option Bytes
  pub password : Option Bytes
  pub nickname : Option Bytes
  pub invite_code : Option Bytes

pub record AuthResponse : Type 0 where
  pub code : ℕ
  pub msg : Bytes
  pub user_info : Option UserInfo
  pub token : Bytes

abbrev pub response : ℕ → Bytes → Option UserInfo → Bytes → AuthResponse
response code msg user token = record { code = code; msg = msg; user_info = user; token = token }

abbrev pub user_view : User → UserInfo
user_view u = record {
  id = u.id;
  username = u.username;
  nickname = u.nickname;
  avatar = u.avatar;
  role = u.role;
}

abbrev pub deref : Option Bytes → Bytes
deref none = []
deref (some s) = s

-- `[A-Za-z0-9_]`.
abbrev pub is_word : ℕ → Bool
is_word c =
    (leb b'A' c && leb c b'Z')
    || ((leb b'a' c && leb c b'z') || ((leb b'0' c && leb c b'9') || c == b'_'))

abbrev all_words : Bytes → Bool
all_words [] = true
all_words (c ∷ s) = is_word c && all_words s

-- `usernameRe`.
unfoldable pub matches_username : Bytes → Bool
matches_username s = (leb 3 (length s) && leb (length s) 32) && all_words s

-- The name, and whether it is one.
unfoldable pub normalize_username : Option Bytes → Bytes × Bool
normalize_username none = ([], false)
normalize_username (some s) = (trim_space s, matches_username (trim_space s))

abbrev max_nickname_length : ℕ
max_nickname_length = 50

unfoldable pub normalize_nickname : Option Bytes → Bytes × Bool
normalize_nickname none = ([], true)
normalize_nickname (some s) =
    if is_blank s
    then ([], true)
    else (trim_space s, leb (utf16_length (trim_space s)) max_nickname_length)

usernames :
    (normalize_username (some (lit " ada_99 ")) ≡ (lit "ada_99", true))
    × (normalize_username (some (lit "ab")) ≡ (lit "ab", false))
    × (normalize_username (some (lit "a-b-c")) ≡ (lit "a-b-c", false))
unfolding normalize_username trim_space lit matches_username
usernames = (refl, refl, refl)
