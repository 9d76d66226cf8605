-- ===== src/Mq/Headers.antt =====
-- server-go/internal/mq/headers.go: the task headers of a record.
pub mod Truncation
pub mod RoundTrip
use vparser.Prelude.{
  ℕ, zero, suc, ◌-◌, Bool, true, false, Option, none, some, List, [], ◌∷◌, ◌++◌, leb, length, take,
  if◌then◌else◌,
}
use vparser.Prelude.Int.{ℤ, pos, negsuc}
use vparser.Go.Bytes.{Bytes, lit, bytes_eq}
use vparser.Go.Decimal.{format_nat, parse_int}
use vparser.Go.Text.{valid_string, is_empty}
use vparser.Model.{TaskMsg}
use vparser.Mq.Routing.{Topic}

abbrev pub Headers : Type 0
Headers = List (Bytes × Bytes)

unfoldable pub header_attempt : Bytes
header_attempt = lit "x-attempt"

unfoldable pub header_not_before : Bytes
header_not_before = lit "x-not-before"

unfoldable pub header_first_error : Bytes
header_first_error = lit "x-first-error"

unfoldable pub header_dlq_reason : Bytes
header_dlq_reason = lit "x-dlq-reason"

abbrev pub max_first_error_bytes : ℕ
max_first_error_bytes = 512

-- What the consumer reads and writes of a `kgo.Record`.
pub record Message : Type 0 where
  pub topic : Topic
  pub key : Bytes
  pub value : Bytes
  pub headers : Headers

-- What `json.Unmarshal` makes of a value: `null` is no message and no error.
pub data Decoded : Type 0 where
  decoded : Option TaskMsg → Decoded
  malformed : Bytes → Decoded

pub record Delivery : Type 0 where
  pub topic : Topic
  pub key : Bytes
  pub value : Bytes
  pub msg : Option TaskMsg
  pub decode_err : Option Bytes
  pub attempt : ℕ
  -- in Unix milliseconds
  pub not_before : Option ℕ
  pub first_error : Bytes

unfoldable pub header : Headers → Bytes → Option Bytes
header [] key = none
header ((k, v) ∷ hs) key = if bytes_eq k key then some v else header hs key

-- A header that is a positive number.
positive_header : Option Bytes → Option ℕ
positive_header none = none
positive_header (some v) = elim (parse_int v) [
  | none ↦ none
  | some z ↦ elim z [ pos n ↦ (if leb n 0 then none else some n) | negsuc n ↦ none ]
]

abbrev or_one : Option ℕ → ℕ
or_one none = 1
or_one (some n) = n

abbrev or_empty : Option Bytes → Bytes
or_empty none = []
or_empty (some v) = v

abbrev msg_of : Decoded → Option TaskMsg
msg_of (decoded m) = m
msg_of (malformed e) = none

abbrev err_of : Decoded → Option Bytes
err_of (decoded m) = none
err_of (malformed e) = some e

module _ (unmarshal : Bytes → Decoded) where
  unfoldable pub decode_record : Message → Delivery
  unfolding positive_header
  decode_record rec = record {
    topic = rec.topic;
    key = rec.key;
    value = rec.value;
    msg = msg_of (unmarshal rec.value);
    decode_err = err_of (unmarshal rec.value);
    attempt = or_one (positive_header (header rec.headers header_attempt));
    not_before = positive_header (header rec.headers header_not_before);
    first_error = or_empty (header rec.headers header_first_error);
  }

-- Drops bytes from the end until the string is valid; the fuel is its length.
shrink : ℕ → Bytes → Bytes
shrink zero s = s
shrink (suc f) s =
    let shorter = shrink f (take (length s - 1) s) in if valid_string s then s else shorter

unfoldable pub truncate_bytes : Bytes → ℕ → Bytes
unfolding shrink
truncate_bytes s n = if leb (length s) n then s else shrink n (take n s)

not_before_header : Option ℕ → Headers
not_before_header none = []
not_before_header (some ms) = (header_not_before, format_nat ms) ∷ []

first_error_header : Bytes → Headers
first_error_header s =
    if is_empty s then [] else (header_first_error, truncate_bytes s max_first_error_bytes) ∷ []

unfoldable pub task_headers : ℕ → Option ℕ → Bytes → Headers → Headers
unfolding not_before_header first_error_header
task_headers attempt not_before first_error extra =
    (header_attempt, format_nat attempt)
    ∷ (not_before_header not_before ++ (first_error_header first_error ++ extra))
