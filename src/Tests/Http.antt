-- ===== src/Tests/Http.antt =====
-- server-go/internal/httpapi at concrete inputs.
use vparser.Prelude.{◌≡◌, ◌⊎◌, refl, Bool, true, false, some, List, [], ◌∷◌, arith, All}
use vparser.Prelude.Int.{pos}
use vparser.Redis.{up}
use vparser.Go.Base64.{Byte}
use vparser.Go.Bytes.{Bytes, lit, bytes_eq}
use vparser.Auth.Session.{Store}
use vparser.Http.Params.{form_url_encode}
use vparser.Http.Params.Encoding.{Inside, name_encoded}
use vparser.Http.Middleware.{Request, Header, Outcome, next, gate, cors, is_options, is_listed}
use vparser.Http.Middleware.Guarded.{allows, is_trusted, Acts, handler_guarded}

-- A quotation mark, a semicolon and a line break.
abbrev hostile : Bytes
hostile = 34 ∷ 59 ∷ 10 ∷ []

hostile-Byte : All Byte hostile
hostile-Byte = (omega arith, (omega arith, (omega arith, tt)))

name_encoded_example :
    All Inside (form_url_encode hostile)
    × ((t : Bytes) → All Byte t → form_url_encode hostile ≡ form_url_encode t → hostile ≡ t)
name_encoded_example = name_encoded hostile hostile-Byte

abbrev exactly : Bytes → Bytes → Bool
exactly s t = bytes_eq s t

abbrev identity : Bytes → Bytes
identity s = s

abbrev site : List Bytes
site = lit "https://site" ∷ []

abbrev sessions : Store
sessions key = some (record { value = lit "7"; expires = 1000 })

abbrev visit : Request
visit = record {
  method = lit "GET";
  origin = lit "https://site";
  request_method = [];
  request_headers = [];
  authorization = lit "Bearer 0123456789abcdef0123456789abcdef";
  tls = false;
  host = lit "gateway";
}

let_through : gate identity exactly site up 10 sessions visit ≡ next (some (pos 7))
unfolding gate cors lit vparser.Http.Middleware.same_origin bytes_eq is_listed
    vparser.Http.Middleware.is_preflight is_options vparser.Auth.Session.resolve_user
    vparser.Auth.Session.bearer_token vparser.Go.Bytes.strip_prefix vparser.Go.Text.utf16_length
    vparser.Go.Text.trim_space vparser.Go.Decimal.parse_int
let_through = refl

handler_guarded_example :
    (is_trusted exactly site visit ≡ true)
    × (is_options visit.method ≡ true
        ⊎ Acts identity 10 sessions visit.authorization (some (pos 7)))
    × ((o : Bytes) (os : List Bytes)
        → allows (cors exactly site visit).1 ≡ o ∷ os
        → (o ≡ visit.origin) × (is_listed o site ≡ true))
handler_guarded_example =
    handler_guarded identity exactly site up 10 sessions visit (some (pos 7)) let_through
