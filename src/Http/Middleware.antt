-- ===== src/Http/Middleware.antt =====
-- server-go/internal/httpapi/middleware.go: `cors` and `authRequired`, the way that api.go puts them
-- before the handlers of the media and of the analyses. The folding of case by Unicode's tables, in
-- `strings.EqualFold`, is a parameter.
pub mod Guarded
use vparser.Prelude.{
  ℕ, Bool, true, false, not, ◌&&◌, ◌||◌, Option, none, some, List, [], ◌∷◌, ◌++◌, if◌then◌else◌,
}
use vparser.Prelude.Int.{ℤ}
use vparser.Redis.{Link}
use vparser.Go.Bytes.{Bytes, lit, bytes_eq}
use vparser.Go.Text.{is_empty}
use vparser.Errors.{Error, Kind, has_kind, code_unauthorized, message}
use vparser.Errors.Http.{Response, fail, to_http}
use vparser.Model.{to_upper}
use vparser.Mq.Effects.{Answer, answer, error}
use vparser.Auth.Session.{Store, resolve_user}

-- What is read of a request; a missing header is empty.
pub record Request : Type 0 where
  pub method : Bytes
  pub origin : Bytes
  pub request_method : Bytes  -- Access-Control-Request-Method
  pub request_headers : Bytes
  pub authorization : Bytes
  pub tls : Bool
  pub host : Bytes

-- The headers of the response that `cors` sets.
pub data Header : Type 0 where
  vary allow_origin allow_methods allow_headers : Bytes → Header
  allow_credentials : Header
  max_age : ℕ → Header

-- What comes of a request: the next handler, with the user if one was resolved, or a response.
pub data Outcome : Type 0 where
  next : Option ℤ → Outcome
  no_content : Outcome  -- 200
  cross_origin : Outcome  -- 403, "Invalid CORS request"
  failed : Response → Outcome

abbrev listed : Bytes → List Bytes → Bool
listed origin [] = false
listed origin (o ∷ allowed) = let rest = listed origin allowed in bytes_eq origin o || rest

unfoldable pub is_listed : Bytes → List Bytes → Bool
is_listed origin allowed = listed origin allowed

unfoldable pub is_method : Bytes → Bool
is_method m = is_listed m (lit "GET" ∷ lit "POST" ∷ lit "DELETE" ∷ lit "OPTIONS" ∷ [])

unfoldable pub is_options : Bytes → Bool
is_options m = bytes_eq m (lit "OPTIONS")

unfoldable pub is_preflight : Request → Bool
is_preflight q = is_options q.method && not (is_empty q.request_method)

module _ (equal_fold : Bytes → Bytes → Bool) where
  -- `sameOrigin`.
  unfoldable pub same_origin : Request → Bool
  same_origin q =
      equal_fold q.origin ((if q.tls then lit "https" else lit "http") ++ (lit "://" ++ q.host))

  abbrev vary_headers : Bool → List Header
  vary_headers false = vary (lit "Origin") ∷ []
  vary_headers true =
      vary (lit "Origin")
      ∷ vary (lit "Access-Control-Request-Method")
      ∷ vary (lit "Access-Control-Request-Headers")
      ∷ []

  abbrev requested : Bytes → List Header
  requested headers = if is_empty headers then [] else allow_headers headers ∷ []

  abbrev granted : Request → List Header
  granted q =
      allow_origin q.origin
        ∷ allow_credentials
        ∷ allow_methods (lit "GET,POST,DELETE,OPTIONS")
        ∷ requested q.request_headers
      ++ (max_age 3600 ∷ [])

  -- `cors`.
  unfoldable pub cors : List Bytes → Request → Outcome × List Header
  cors allowed q =
      let varied = vary_headers (is_preflight q) in
      if is_empty q.origin || same_origin q
      then (next none, [])
      else if not (is_listed q.origin allowed)
      then (cross_origin, varied)
      else if is_preflight q
      then (if is_method (to_upper q.request_method)
          then (no_content, varied ++ granted q)
          else (cross_origin, varied))
      else (next none, varied ++ (allow_origin q.origin ∷ allow_credentials ∷ []))

-- `err.Error()` of an error that wraps no other.
abbrev text_of : Error → Bytes
text_of [] = []
text_of (c ∷ e) = message c

abbrev pub resolved : Answer ℤ → Outcome
resolved (answer id) = next (some id)
resolved (error e) =
    if has_kind e Kind.forbidden
    then failed (fail code_unauthorized (text_of e))
    else failed (to_http e)

module _ (sha256 : Bytes → Bytes) where
  -- `authRequired`.
  unfoldable pub auth_required : Link → ℕ → Store → Request → Outcome
  auth_required link now s q =
      if is_options q.method
      then next none
      else resolved (resolve_user sha256 link now q.authorization s)

  abbrev pub then_auth : Link → ℕ → Store → Request → Outcome → Outcome
  then_auth link now s q (next user) = auth_required link now s q
  then_auth link now s q r = r

  -- The two before a handler.
  unfoldable pub gate : (Bytes → Bytes → Bool) → List Bytes → Link → ℕ → Store → Request → Outcome
  unfolding auth_required
  gate equal_fold allowed link now s q = then_auth link now s q (cors equal_fold allowed q).0
