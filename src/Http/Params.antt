-- ===== src/Http/Params.antt =====
-- server-go/internal/httpapi/params.go: the parameters of a request and the file names of a response.
-- A request is its query and its form, each a function from names to values.
pub mod Encoding
use vparser.Prelude.{
  ℕ, ◌+◌, ◌-◌, ◌*◌, ◌/◌, ◌%◌, ◌^◌, Bool, true, false, ◌&&◌, ◌||◌, Option, none, some, [], ◌∷◌, ◌++◌,
  ltb, leb, ◌==◌, if◌then◌else◌,
}
use vparser.Prelude.Int.{ℤ, pos, negsuc}
use vparser.Go.Bytes.{Bytes, lit}
use vparser.Go.Decimal.{parse_int}
use vparser.Go.Text.{trim_space, is_blank, is_empty, utf16_length}
use vparser.Errors.{Error, Kind, of_kind}
use vparser.Model.{Parsed, mode_from_request}
use vparser.Mq.Effects.{Answer, answer, error}

pub record Request : Type 0 where
  pub query : Bytes → Option Bytes
  pub form : Bytes → Option Bytes

abbrev or_form : Option Bytes → Option Bytes → Option Bytes
or_form (some v) form = some v
or_form none form = form

-- `rawParam`, and `optionalString`.
abbrev pub raw_param : Request → Bytes → Option Bytes
raw_param c name = or_form (c.query name) (c.form name)

abbrev pub bad_param : Error
bad_param = of_kind Kind.invalid_argument (lit "请求参数不合法") []

abbrev required : {A : Type 0} → Option A → Answer A
required none = error bad_param
required (some v) = answer v

unfoldable pub required_string : Request → Bytes → Answer Bytes
required_string c name = required (raw_param c name)

abbrev default_to : Bytes → Option Bytes → Bytes
default_to def none = def
default_to def (some v) = if is_empty v then def else v

unfoldable pub string_with_default : Request → Bytes → Bytes → Bytes
string_with_default c name def = default_to def (raw_param c name)

abbrev int_of : Option Bytes → Option ℤ
int_of none = none
int_of (some v) = if is_blank v then none else parse_int (trim_space v)

-- `requiredInt64`.
unfoldable pub required_int64 : Request → Bytes → Answer ℤ
required_int64 c name = required (int_of (raw_param c name))

abbrev pub fits_int32 : ℤ → Bool
fits_int32 (pos n) = ltb n (2 ^ 31)
fits_int32 (negsuc n) = ltb n (2 ^ 31)

abbrev narrowed : Option ℤ → Option ℤ
narrowed none = none
narrowed (some n) = if fits_int32 n then some n else none

-- `requiredInt`: the number is parsed with 32 bits.
unfoldable pub required_int : Request → Bytes → Answer ℤ
required_int c name = required (narrowed (int_of (raw_param c name)))

abbrev pub max_goal_length : ℕ
max_goal_length = 500

-- `normalizeText`.
unfoldable pub normalize_text : Bytes → Bytes → Answer Bytes
normalize_text value field =
    if is_blank value || ltb max_goal_length (utf16_length value)
    then error (of_kind Kind.invalid_argument (field ++ lit "不能为空且不能超过 500 字") [])
    else answer (trim_space value)

-- `modeParam`: a missing mode is read like an empty one.
unfoldable pub mode_param : Request → Parsed
mode_param c = mode_from_request (default_to [] (raw_param c (lit "mode")))

-- `parsePathID`.
unfoldable pub parse_path_id : Bytes → Answer ℤ
parse_path_id v = required (parse_int v)

abbrev pub is_unreserved : ℕ → Bool
is_unreserved b =
    (leb b'a' b && leb b b'z')
    || ((leb b'A' b && leb b b'Z')
        || ((leb b'0' b && leb b b'9') || (b == b'.' || (b == b'-' || (b == b'*' || b == b'_')))))

abbrev pub hex_digit : ℕ → ℕ
hex_digit n = if ltb n 10 then 48 + n else 55 + n

abbrev pub encode_byte : ℕ → Bytes
encode_byte b =
    if is_unreserved b
    then b ∷ []
    else if b == 32
    then b'+' ∷ []
    else b'%' ∷ hex_digit (b / 16) ∷ hex_digit (b % 16) ∷ []

-- `formURLEncode`.
unfoldable pub form_url_encode : Bytes → Bytes
form_url_encode [] = []
form_url_encode (b ∷ s) = encode_byte b ++ form_url_encode s
