-- ===== src/Http/Middleware/Guarded.antt =====
-- What reaches a handler behind `cors` and `authRequired`.
use vparser.Prelude.{
  ℕ, ◌≡◌, ◌⊎◌, ◌∙◌, ap, refl, Bool, true, ◌||◌, Option, none, some, List, [], ◌∷◌, arith,
  Bool-cases, inl, inr,
}
use vparser.Prelude.Int.{ℤ}
use vparser.Redis.{Link, up, down}
use vparser.Go.Bytes.{Bytes}
use vparser.Go.Decimal.{parse_int}
use vparser.Go.Text.{is_empty}
use vparser.Mq.Effects.{Answer, answer, error}
use vparser.Auth.Session.{
  Store, resolve_user, session_key, bearer_token, read_at, resolve_token, looked_up, of_value,
  of_number,
}
use vparser.Http.Middleware.{
  Request, Header, Outcome, next, no_content, cross_origin, failed, allow_origin, is_listed,
  is_options, same_origin, cors, auth_required, gate, resolved, then_auth,
}

abbrev pub allows : List Header → List Bytes
allows [] = []
allows (allow_origin o ∷ headers) = o ∷ allows headers
allows (h ∷ headers) = allows headers

-- A request of the same origin, or of none, or of one that is allowed.
abbrev pub is_trusted : (Bytes → Bytes → Bool) → List Bytes → Request → Bool
is_trusted equal_fold allowed q =
    (is_empty q.origin || same_origin equal_fold q) || is_listed q.origin allowed

-- The session of a token that is alive.
abbrev pub HasSession : (Bytes → Bytes) → ℕ → Store → Bytes → ℤ → Type 0
HasSession sha256 now s authorization id =
    (token : Bytes) × (v : Bytes) × (bearer_token authorization ≡ answer token)
    × (read_at now (s (session_key sha256 token)) ≡ some v)
    × (parse_int v ≡ some id)

number-read : (o : Option ℤ) (id : ℤ) → of_number o ≡ answer id → o ≡ some id
number-read o id h = ground (arith, h)

value-read :
    (v : Option Bytes) (id : ℤ)
    → of_value v ≡ answer id
    → (w : Bytes) × (v ≡ some w) × (parse_int w ≡ some id)
value-read none id h = absurd (ground (arith, h))
value-read (some w) id h = (w, refl, number-read (parse_int w) id h)

link-read :
    (link : Link) (v : Option Bytes) (id : ℤ)
    → looked_up link v ≡ answer id
    → (w : Bytes) × (v ≡ some w) × (parse_int w ≡ some id)
link-read up v id h = value-read v id h
link-read (down executed e) v id h = absurd (ground (arith, h))

token-read :
    (sha256 : Bytes → Bytes) (link : Link) (now : ℕ) (s : Store) (r : Answer Bytes) (id : ℤ)
    → resolve_token sha256 link now s r ≡ answer id
    → (token : Bytes) × (v : Bytes) × (r ≡ answer token)
      × (read_at now (s (session_key sha256 token)) ≡ some v)
      × (parse_int v ≡ some id)
token-read sha256 link now s (error e) id h = absurd (ground (arith, h))
token-read sha256 link now s (answer token) id h =
    let (v, there, number) = link-read link (read_at now (s (session_key sha256 token))) id h in
    (token, v, refl, there, number)

-- Whom a request acts for.
abbrev pub Acts : (Bytes → Bytes) → ℕ → Store → Bytes → Option ℤ → Type 0
Acts sha256 now s authorization none = ⊥
Acts sha256 now s authorization (some id) = HasSession sha256 now s authorization id

resolved-Acts :
    (sha256 : Bytes → Bytes) (link : Link) (now : ℕ) (s : Store) (authorization : Bytes)
    (r : Answer ℤ) (user : Option ℤ)
    → resolve_user sha256 link now authorization s ≡ r
    → resolved r ≡ next user
    → Acts sha256 now s authorization user
unfolding resolve_user
resolved-Acts sha256 link now s authorization (error e) user h passed =
    absurd (ground (arith, passed))
resolved-Acts sha256 link now s authorization (answer id) none h passed =
    absurd (ground (arith, passed))
resolved-Acts sha256 link now s authorization (answer id) (some n) h passed =
    let same : id ≡ n = ground (arith, passed) in
    token-read sha256 link now s (bearer_token authorization) n (h ∙ ap answer same)

then_auth-next :
    (sha256 : Bytes → Bytes) (link : Link) (now : ℕ) (s : Store) (q : Request) (r : Outcome)
    (user : Option ℤ)
    → then_auth sha256 link now s q r ≡ next user
    → (u : Option ℤ) × (r ≡ next u) × (auth_required sha256 link now s q ≡ next user)
then_auth-next sha256 link now s q (next u) user h = (u, refl, h)
then_auth-next sha256 link now s q no_content user h = absurd (ground (arith, h))
then_auth-next sha256 link now s q cross_origin user h = absurd (ground (arith, h))
then_auth-next sha256 link now s q (failed r) user h = absurd (ground (arith, h))

module _ (equal_fold : Bytes → Bytes → Bool) (allowed : List Bytes) (q : Request) where
  cors_trusted :
      (u : Option ℤ)
      → (cors equal_fold allowed q).0 ≡ next u
      → is_trusted equal_fold allowed q ≡ true
  unfolding cors
  cors_trusted u h = ground (arith, h)

  -- A foreign origin is let in by a header only if it is on the list.
  origin_listed :
      (o : Bytes) (os : List Bytes)
      → allows (cors equal_fold allowed q).1 ≡ o ∷ os
      → (o ≡ q.origin) × (is_listed q.origin allowed ≡ true)
  unfolding cors
  origin_listed o os h = (ground (arith, h), ground (arith, h))

module _ (sha256 : Bytes → Bytes) (equal_fold : Bytes → Bytes → Bool) (allowed : List Bytes)
    (link : Link) (now : ℕ) (s : Store) (q : Request) where
  -- A request reaches a handler only from a trusted origin and, unless it is an OPTIONS request, for
  -- the user of the session that its token names and that is alive. The response's headers let an
  -- origin in only if it is the request's and on the list.
  pub handler_guarded :
      (user : Option ℤ)
      → gate sha256 equal_fold allowed link now s q ≡ next user
      → (is_trusted equal_fold allowed q ≡ true)
        × (is_options q.method ≡ true ⊎ Acts sha256 now s q.authorization user)
        × ((o : Bytes) (os : List Bytes)
            → allows (cors equal_fold allowed q).1 ≡ o ∷ os
            → (o ≡ q.origin) × (is_listed o allowed ≡ true))
  unfolding gate auth_required
  handler_guarded user h =
      let (u, passed, authorized) =
        then_auth-next sha256 link now s q (cors equal_fold allowed q).0 user h in
      let r = resolve_user sha256 link now q.authorization s in
      let acts : is_options q.method ≡ true ⊎ Acts sha256 now s q.authorization user =
        elim (Bool-cases (is_options q.method)) [
          | inl options ↦ inl options
          | inr other ↦
              inr (
                resolved-Acts sha256 link now s q.authorization r user refl
                  (rw other at authorized))
        ] in
      (
        cors_trusted equal_fold allowed q u passed,
        acts,
        λ o os headers.
            let (same, there) = origin_listed equal_fold allowed q o os headers in
            (same, rw same there),
      )
