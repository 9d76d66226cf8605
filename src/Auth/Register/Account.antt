-- ===== src/Auth/Register/Account.antt =====
-- Which accounts a registration makes.
use vparser.Prelude.{ℕ, ◌≡◌, true, false, Option, none, some, arith, All}
use vparser.Go.Base64.{Byte}
use vparser.Go.Bytes.{Bytes, lit}
use vparser.Mq.Effects.{answer}
use vparser.Auth.{User, AuthRequest, deref, matches_username, normalize_username}
use vparser.Auth.Password.{password_matches, needs_rehash, hash_password}
use vparser.Auth.Password.Stored.{GivesBytes, stored_checks}
use vparser.Auth.Register.{Services, register, lacks_invite, valid_password}

account_made :
    (kdf : Bytes → Bytes → ℕ → ℕ → Bytes) (invite : Bytes) (sv : Services) (req : AuthRequest)
    (u : User)
    → (register kdf invite sv req).1 ≡ some u
    → (lacks_invite invite req.invite_code ≡ false)
      × (valid_password req.password ≡ true)
      × ((normalize_username req.username).1 ≡ true)
      × (u.username ≡ (normalize_username req.username).0)
      × (u.role ≡ lit "USER")
      × (salt : Bytes) × (sv.salt ≡ answer salt)
      × (u.password ≡ hash_password kdf salt (deref req.password))
unfolding register
account_made kdf invite sv req u h = ground arith

normalize-matches :
    (s : Option Bytes)
    → (normalize_username s).1 ≡ true
    → matches_username (normalize_username s).0 ≡ true
unfolding normalize_username
normalize-matches none h = absurd (ground arith)
normalize-matches (some s) h = h

-- PBKDF2 gives bytes of the length asked for, and salts are of bytes: an account is handed to the
-- database only with the invite code, under a valid name and password; it is a plain user's, and
-- stores a hash that the password matches and that needs no renewal.
pub account-IsSound :
    (kdf : Bytes → Bytes → ℕ → ℕ → Bytes) (invite : Bytes) (sv : Services) (req : AuthRequest)
    (u : User)
    → GivesBytes kdf
    → ((salt : Bytes) → sv.salt ≡ answer salt → All Byte salt)
    → (register kdf invite sv req).1 ≡ some u
    → (lacks_invite invite req.invite_code ≡ false)
      × (valid_password req.password ≡ true)
      × (matches_username u.username ≡ true)
      × (u.role ≡ lit "USER")
      × (password_matches kdf (deref req.password) u.password ≡ true)
      × (needs_rehash u.password ≡ false)
account-IsSound kdf invite sv req u gives salted h =
    let (invited, valid, ok, name, role, salt, drawn, stored) =
      account_made kdf invite sv req u h in
    let password = deref req.password in
    let (_, matches, fresh) = stored_checks kdf gives salt password password (salted salt drawn) in
    (
      invited,
      valid,
      rw name (normalize-matches req.username ok),
      role,
      rw stored matches,
      rw stored fresh,
    )
