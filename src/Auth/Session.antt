-- ===== src/Auth/Session.antt =====
-- Sessions: an opaque token, which Redis holds under its SHA-256 only, for 24 hours. The digest is a
-- parameter. The instants are those of the Redis clock, in milliseconds.
pub mod Life
use vparser.Prelude.{
  ℕ, ◌+◌, Bool, true, false, not, Option, none, some, [], ◌++◌, ltb, leb, if◌then◌else◌,
}
use vparser.Prelude.Int.{ℤ}
use vparser.Go.Base64.{encode, url}
use vparser.Go.Bytes.{Bytes, lit, bytes_eq, strip_prefix}
use vparser.Go.Decimal.{format_int, parse_int}
use vparser.Go.Text.{trim_space, utf16_length}
use vparser.Redis.{Link, up, down, applied, result, failure}
use vparser.Errors.{Error, Kind, of_kind}
use vparser.Mq.Effects.{Answer, answer, error}

abbrev pub session_ttl : ℕ
session_ttl = 86400000

pub record Entry : Type 0 where
  pub value : Bytes
  pub expires : ℕ

abbrev pub Store : Type 0
Store = Bytes → Option Entry

abbrev pub write : Store → Bytes → Option Entry → Store
write s k e j = if bytes_eq k j then e else s j

-- A key at the end of its life is missing.
abbrev pub read_at : ℕ → Option Entry → Option Bytes
read_at now none = none
read_at now (some e) = if leb e.expires now then none else some e.value

abbrev pub forbidden : {A : Type 0} → Bytes → Answer A
forbidden text = error (of_kind Kind.forbidden text [])

-- `BearerToken`.
unfoldable pub bearer_token : Bytes → Answer Bytes
bearer_token authorization =
    let (bearer, rest) = strip_prefix (lit "Bearer ") authorization in
    let token = trim_space rest in
    if not bearer
    then forbidden (lit "请先登录")
    else if ltb (utf16_length token) 32
    then forbidden (lit "无效的登录凭证")
    else answer token

-- The text of the error leaves out the value.
abbrev pub of_number : Option ℤ → Answer ℤ
of_number none = error (of_kind Kind.invalid_argument (lit "invalid number") [])
of_number (some n) = answer n

abbrev pub of_value : Option Bytes → Answer ℤ
of_value none = forbidden (lit "登录状态已失效")
of_value (some v) = of_number (parse_int v)

abbrev pub looked_up : Link → Option Bytes → Answer ℤ
looked_up up v = of_value v
looked_up (down executed e) v = error e

module _ (sha256 : Bytes → Bytes) where
  -- `SessionKey`.
  unfoldable pub session_key : Bytes → Bytes
  session_key token = lit "auth:session:" ++ encode url (sha256 token)

  -- `CreateSession`, with the random bytes that were read, if they could be.
  unfoldable pub create_session : Answer Bytes → Link → ℕ → ℤ → Store → Answer Bytes × Store
  create_session (error e) link now user_id s = (error e, s)
  create_session (answer b) link now user_id s =
      let token = encode url b in
      let entry : Entry = record { value = format_int user_id; expires = now + session_ttl } in
      (result link token, applied link s (write s (session_key token) (some entry)))

  abbrev pub resolve_token : Link → ℕ → Store → Answer Bytes → Answer ℤ
  resolve_token link now s (error e) = error e
  resolve_token link now s (answer token) = looked_up link (read_at now (s (session_key token)))

  -- `ResolveUser`.
  unfoldable pub resolve_user : Link → ℕ → Bytes → Store → Answer ℤ
  resolve_user link now authorization s = resolve_token link now s (bearer_token authorization)

  abbrev revoke_token : Link → Store → Answer Bytes → Option Error × Store
  revoke_token link s (error e) = (some e, s)
  revoke_token link s (answer token) =
      (failure link, applied link s (write s (session_key token) none))

  -- `RevokeSession`.
  unfoldable pub revoke_session : Link → Bytes → Store → Option Error × Store
  revoke_session link authorization s = revoke_token link s (bearer_token authorization)
