-- ===== src/Errors.antt =====
-- server-go/internal/common/errors.go: typed errors and the decisions that rest on them. An error is
-- the chain that `errors.Unwrap` walks, outermost first; `nil` is the empty chain. A chain is finite,
-- so the tests for a cause that is its own wrapper never hold.
pub mod Chain
pub mod Http
use vparser.Prelude.{
  ℕ, zero, suc, Bool, true, false, not, ◌&&◌, ◌||◌, Option, none, some, List, [], ◌∷◌, ◌++◌, any,
  if◌then◌else◌,
}
use mathlib.Core.List.{reverse}
use mathlib.Core.Logic.{ite}
use vparser.Go.Bytes.{Bytes, lit, bytes_eq, strip_prefix}
use vparser.Go.Text.{is_blank, is_empty}

pub record ErrorCode : Type 0 where
  pub code : ℕ
  pub status : ℕ

-- The business codes with their HTTP status.
abbrev pub code_invalid_argument : ErrorCode
code_invalid_argument = record { code = 40000; status = 400 }

abbrev pub code_validation_failed : ErrorCode
code_validation_failed = record { code = 40001; status = 400 }

abbrev pub code_unauthorized : ErrorCode
code_unauthorized = record { code = 40100; status = 401 }

abbrev pub code_forbidden : ErrorCode
code_forbidden = record { code = 40300; status = 403 }

abbrev pub code_invite_required : ErrorCode
code_invite_required = record { code = 40301; status = 403 }

abbrev pub code_not_found : ErrorCode
code_not_found = record { code = 40400; status = 404 }

abbrev pub code_conflict : ErrorCode
code_conflict = record { code = 40900; status = 409 }

abbrev pub code_unprocessable : ErrorCode
code_unprocessable = record { code = 42200; status = 422 }

abbrev pub code_rate_limited : ErrorCode
code_rate_limited = record { code = 42900; status = 429 }

abbrev pub code_quota_exhausted : ErrorCode
code_quota_exhausted = record { code = 42901; status = 429 }

abbrev pub code_internal_error : ErrorCode
code_internal_error = record { code = 50000; status = 500 }

abbrev pub code_service_unavailable : ErrorCode
code_service_unavailable = record { code = 50300; status = 503 }

pub data Kind : Type 0 where
  internal transient invalid_argument forbidden not_found budget_exhausted not_ready business
        validation :
      Kind

-- A typed error (with the code of the business kind), an error of another package, and the two
-- errors of a context.
pub data Cause : Type 0 where
  typed : Kind → ErrorCode → Bytes → Cause
  plain : Bytes → Cause
  deadline_exceeded canceled : Cause

abbrev pub Error : Type 0
Error = List Cause

abbrev pub no_code : ErrorCode
no_code = record { code = 0; status = 0 }

-- The constructors, with the error that they wrap.
abbrev pub of_kind : Kind → Bytes → Error → Error
of_kind kind msg cause = typed kind no_code msg ∷ cause

abbrev pub business_error : ErrorCode → Bytes → Error
business_error code msg = typed business code msg ∷ []

-- `ReasonCode`.
unfoldable pub reason_code : Kind → Bytes
reason_code transient = lit "TRANSIENT"
reason_code invalid_argument = lit "INVALID_ARGUMENT"
reason_code forbidden = lit "FORBIDDEN"
reason_code not_found = lit "NOT_FOUND"
reason_code budget_exhausted = lit "BUDGET_EXHAUSTED"
reason_code not_ready = lit "NOT_READY"
reason_code business = lit "REJECTED"
reason_code validation = lit "VALIDATION_FAILED"
reason_code internal = lit "INTERNAL"

abbrev pub kind_of : Cause → Option Kind
kind_of (typed kind code msg) = some kind
kind_of c = none

pub Kind-discrete : Discrete Kind
Kind-discrete = hlevel

abbrev pub is_kind : Kind → Option Kind → Bool
is_kind k none = false
is_kind k (some j) = ite (Kind-discrete k j) true false

-- `Has`: some error of the chain has the kind.
unfoldable pub has_kind : Error → Kind → Bool
unfolding Kind-discrete
has_kind [] k = false
has_kind (c ∷ e) k = if is_kind k (kind_of c) then true else has_kind e k

-- The loop of `CodeOf`: the last reason code wins.
innermost_code : Error → Bytes → Bytes
innermost_code [] code = code
innermost_code (c ∷ e) code =
    innermost_code e (elim (kind_of c) [ none ↦ code | some k ↦ reason_code k ])

is_deadline : Cause → Bool
is_deadline deadline_exceeded = true
is_deadline c = false

is_canceled : Cause → Bool
is_canceled canceled = true
is_canceled c = false

unfoldable pub code_of : Error → Bytes
unfolding innermost_code is_deadline is_canceled
code_of [] = lit "UNKNOWN"
code_of (c ∷ e) =
    let code = innermost_code (c ∷ e) [] in
    if not (is_empty code) && not (bytes_eq code (lit "INTERNAL"))
    then code
    else if any is_deadline (c ∷ e)
    then lit "DEADLINE_EXCEEDED"
    else if any is_canceled (c ∷ e)
    then lit "CANCELED"
    else if not (is_empty code)
    then code
    else lit "INTERNAL"

-- `RootCause`.
unfoldable pub root_cause : Error → Option Cause
root_cause [] = none
root_cause (c ∷ []) = some c
root_cause (c ∷ d ∷ e) = root_cause (d ∷ e)

abbrev pub max_cause_depth : ℕ
max_cause_depth = 16

abbrev pub is_permanent_kind : Option Kind → Bool
is_permanent_kind (some invalid_argument) = true
is_permanent_kind (some forbidden) = true
is_permanent_kind (some not_found) = true
is_permanent_kind k = false

permanent_within : ℕ → Error → Bool
permanent_within zero e = false
permanent_within (suc depth) [] = false
permanent_within (suc depth) (c ∷ e) =
    if is_permanent_kind (kind_of c) then true else permanent_within depth e

unfoldable pub is_permanent_failure : Error → Bool
unfolding permanent_within
is_permanent_failure e = permanent_within max_cause_depth e

-- `Error()`.
unfoldable pub message : Cause → Bytes
message (typed kind code msg) = msg
message (plain msg) = msg
message deadline_exceeded = lit "context deadline exceeded"
message canceled = lit "context canceled"

-- The parts of `Describe` are kept last first.
has_suffix : Bytes → Bytes → Bool
has_suffix s suffix = let (found, rest) = strip_prefix (reverse suffix) (reverse s) in found

add_part : Bytes → List Bytes → List Bytes
unfolding has_suffix
add_part msg [] = if is_empty msg then [] else msg ∷ []
add_part msg (last ∷ parts) =
    if not (is_empty msg) && not (has_suffix last msg) then msg ∷ last ∷ parts else last ∷ parts

parts_within : ℕ → Error → List Bytes → List Bytes
parts_within zero e parts = parts
parts_within (suc depth) [] parts = parts
parts_within (suc depth) (typed kind code msg ∷ e) parts = parts_within depth e (add_part msg parts)
parts_within (suc depth) (c ∷ e) parts = add_part (message c) parts

-- `strings.Join(parts, ": ")`.
join_reversed : List Bytes → Bytes
join_reversed [] = []
join_reversed (p ∷ []) = p
join_reversed (p ∷ q ∷ parts) = join_reversed (q ∷ parts) ++ (lit ": " ++ p)

unfoldable pub describe : Error → Bytes
unfolding add_part parts_within join_reversed message
describe e = join_reversed (parts_within max_cause_depth e [])
