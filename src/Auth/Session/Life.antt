-- ===== src/Auth/Session/Life.antt =====
-- How long a session lasts, and whom it concerns.
use vparser.Prelude.{
  ℕ, ◌+◌, ◌≡◌, ◌≢◌, refl, Option, some, [], ◌∷◌, ◌∙◌, ◌++◌, arith, ltb, All, if◌then◌else◌, length,
}
use vparser.Prelude.Int.{ℤ}
use vparser.Go.Base64.{encode, url, Byte, Encoding, encode-Encoding, length-encode}
use vparser.Go.Bytes.{Bytes, lit, bytes_eq_iff, bytes_eq_refl, strip_prefix-append}
use vparser.Go.Decimal.{InRange, parse_int, parse_int-format_int}
use vparser.Go.Text.Plain.{Plain, trim_space-Plain, utf16_length-Plain}
use vparser.Redis.{Link, up, down, applied}
use vparser.Mq.Effects.{Answer, answer}
use vparser.Auth.Session.{
  Store, write, session_ttl, forbidden, bearer_token, session_key, create_session, resolve_user,
  revoke_session, Entry, read_at, of_value, of_number,
}

Encoding-Plain : (s : Bytes) → All Encoding s → All Plain s
Encoding-Plain [] h = tt
Encoding-Plain (c ∷ s) (hc, h) = (ground (arith, hc), Encoding-Plain s h)

-- The header that a client sends.
abbrev pub bearer : Bytes → Bytes
bearer token = lit "Bearer " ++ token

bearer_token-encode :
    (b : Bytes)
    → All Byte b
    → length b ≡ 32
    → bearer_token (bearer (encode url b)) ≡ answer (encode url b)
unfolding bearer_token
bearer_token-encode b bytes size =
    let plain = Encoding-Plain (encode url b) (encode-Encoding url b bytes) in
    let units = utf16_length-Plain (encode url b) plain in
    let long = length-encode url b in
    rw (strip_prefix-append (lit "Bearer ") (encode url b))
      (rw (trim_space-Plain (encode url b) plain) (rw units (rw long (rw size refl))))

abbrev expired : Answer ℤ
expired = forbidden (lit "登录状态已失效")

of_value-read_at :
    (t : ℕ) (e : Entry)
    → of_value (read_at t (some e))
      ≡ (if ltb t e.expires then of_number (parse_int e.value) else expired)
of_value-read_at t e = ground arith

module _ (sha256 : Bytes → Bytes) where
  -- Redis answers, the token is drawn as 32 bytes and the id of the user fits in 64 bits: the
  -- token of a session that was created is its user's for 24 hours, and no longer; once it is
  -- revoked it is nobody's.
  pub session_life :
      (b : Bytes) (now t : ℕ) (user : ℤ) (s : Store)
      → All Byte b
      → length b ≡ 32
      → InRange user
      → let (token, s') = create_session sha256 (answer b) up now user s in
        (token ≡ answer (encode url b))
        × (resolve_user sha256 up t (bearer (encode url b)) s'
            ≡ (if ltb t (now + session_ttl) then answer user else expired))
        × (resolve_user sha256 up t
              (bearer (encode url b))
              (revoke_session sha256 up (bearer (encode url b)) s').1
            ≡ expired)
  unfolding create_session resolve_user revoke_session
  session_life b now t user s bytes size range =
      let token = encode url b in
      let valid = bearer_token-encode b bytes size in
      let same = bytes_eq_refl (session_key sha256 token) in
      (
        refl,
        rw valid (rw same (of_value-read_at t _ ∙ rw (parse_int-format_int user range) refl)),
        rw valid (rw same refl),
      )

  elsewhere :
      (link : Link) (k j : Bytes) (e : Option Entry) (s : Store)
      → j ≢ k
      → applied link s (write s k e) j ≡ s j
  elsewhere up k j e s apart = ground (arith, bytes_eq_iff k j)
  elsewhere (down executed x) k j e s apart = ground (arith, bytes_eq_iff k j)

  -- What concerns the session of another token, by its digest, changes nothing for a client.
  pub sessions_apart :
      (b : Bytes) (link : Link) (now t : ℕ) (user : ℤ) (s : Store) (mine yours token other : Bytes)
      → bearer_token mine ≡ answer token
      → session_key sha256 token ≢ session_key sha256 (encode url b)
      → bearer_token yours ≡ answer other
      → session_key sha256 token ≢ session_key sha256 other
      → (resolve_user sha256 up t mine (create_session sha256 (answer b) link now user s).1
          ≡ resolve_user sha256 up t mine s)
        × (resolve_user sha256 up t mine (revoke_session sha256 link yours s).1
            ≡ resolve_user sha256 up t mine s)
  unfolding create_session resolve_user revoke_session
  sessions_apart b link now t user s mine yours token other hm new hy apart = (
    rw hm (rw (elsewhere link _ _ _ s new) refl),
    rw hm (rw hy (rw (elsewhere link _ _ _ s apart) refl)),
  )
