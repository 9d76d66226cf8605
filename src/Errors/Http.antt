-- ===== src/Errors/Http.antt =====
-- `ToHTTP`, with `Fail` of server-go/internal/common/result.go.
use vparser.Prelude.{
  ◌≡◌, refl, inl, inr, false, Option, none, some, [], ◌∷◌, if◌then◌else◌, Bool-cases,
}
use vparser.Go.Bytes.{Bytes, lit}
use vparser.Go.Text.{is_blank}
use vparser.Errors.{
  ErrorCode, Kind, Error, typed, plain, deadline_exceeded, canceled, code_invalid_argument,
  code_validation_failed, code_forbidden, code_not_found, code_conflict, code_unprocessable,
  code_internal_error,
}

-- The HTTP status and the envelope of an error response, whose `data` is null.
pub record Response : Type 0 where
  pub code : ErrorCode
  pub text : Bytes

abbrev pub fail : ErrorCode → Bytes → Response
fail code text = record { code = code; text = text }

unfoldable pub safe : Bytes → Bytes → Bytes
safe msg fallback = if is_blank msg then fallback else msg

-- `errors.As(err, &je)`: the outermost typed error.
pub record Typed : Type 0 where
  pub kind : Kind
  pub code : ErrorCode
  pub msg : Bytes

abbrev pub first_typed : Error → Option Typed
first_typed [] = none
first_typed (typed kind code msg ∷ e) = some (record { kind = kind; code = code; msg = msg })
first_typed (plain msg ∷ e) = first_typed e
first_typed (deadline_exceeded ∷ e) = first_typed e
first_typed (canceled ∷ e) = first_typed e

unfoldable pub hidden : Response
hidden = fail code_internal_error (lit "服务暂时不可用")

of_typed : Kind → ErrorCode → Bytes → Response
of_typed Kind.business code msg = fail code (safe msg (lit "请求处理失败"))
of_typed Kind.validation code msg = fail code_validation_failed (safe msg (lit "请求参数校验失败"))
of_typed Kind.invalid_argument code msg = fail code_invalid_argument (safe msg (lit "请求参数不合法"))
of_typed Kind.not_found code msg = fail code_not_found (safe msg (lit "资源不存在"))
of_typed Kind.forbidden code msg = fail code_forbidden (safe msg (lit "无访问权限"))
of_typed Kind.budget_exhausted code msg = fail code_unprocessable (safe msg (lit "任务已超出预算"))
of_typed Kind.not_ready code msg = fail code_conflict (safe msg (lit "视频上下文尚未就绪"))
of_typed kind code msg = hidden

unfoldable pub to_http : Error → Response
unfolding of_typed
to_http e = elim (first_typed e) [ none ↦ hidden | some t ↦ of_typed t.kind t.code t.msg ]

-- An error whose outermost typed cause, if it has one, is internal or transient.
abbrev pub IsOpaque : Error → Type 0
IsOpaque [] = Unit
IsOpaque (typed Kind.internal code msg ∷ e) = Unit
IsOpaque (typed Kind.transient code msg ∷ e) = Unit
IsOpaque (typed kind code msg ∷ e) = ⊥
IsOpaque (plain msg ∷ e) = IsOpaque e
IsOpaque (deadline_exceeded ∷ e) = IsOpaque e
IsOpaque (canceled ∷ e) = IsOpaque e

to_http_opaque : (e : Error) → IsOpaque e → to_http e ≡ hidden
unfolding to_http
to_http_opaque [] h = refl
to_http_opaque (typed Kind.internal code msg ∷ e) h = refl
to_http_opaque (typed Kind.transient code msg ∷ e) h = refl
to_http_opaque (typed kind code msg ∷ e) h = absurd h
to_http_opaque (plain msg ∷ e) h = to_http_opaque e h
to_http_opaque (deadline_exceeded ∷ e) h = to_http_opaque e h
to_http_opaque (canceled ∷ e) h = to_http_opaque e h

-- Whatever an internal, transient or foreign error says, and whatever it wraps, the client gets the
-- same response, with status 500.
pub opaque_hidden :
    (e : Error) → IsOpaque e → (to_http e ≡ hidden) × ((to_http e).code.status ≡ 500)
opaque_hidden e h = (to_http_opaque e h, rw (to_http_opaque e h) (unfold hidden in refl))

safe-not-blank :
    (msg fallback : Bytes) → is_blank fallback ≡ false → is_blank (safe msg fallback) ≡ false
unfolding safe
safe-not-blank msg fallback h = elim (Bool-cases (is_blank msg)) [
  | inl blank ↦ rw blank h
  | inr text ↦ rw text text
]

of_typed-not-blank : (k : Kind) (c : ErrorCode) (m : Bytes) → is_blank (of_typed k c m).text ≡ false
unfolding of_typed hidden
of_typed-not-blank Kind.business c m = safe-not-blank m _ (unfold is_blank lit in refl)
of_typed-not-blank Kind.internal c m = unfold is_blank lit in refl
of_typed-not-blank Kind.transient c m = unfold is_blank lit in refl
of_typed-not-blank _ c m = safe-not-blank m _ (unfold is_blank lit in refl)

-- Every error response has a text that is not blank.
pub response_not_blank : (e : Error) → is_blank (to_http e).text ≡ false
unfolding to_http
response_not_blank [] = unfold hidden is_blank lit in refl
response_not_blank (typed kind code msg ∷ e) = of_typed-not-blank kind code msg
response_not_blank (plain msg ∷ e) = response_not_blank e
response_not_blank (deadline_exceeded ∷ e) = response_not_blank e
response_not_blank (canceled ∷ e) = response_not_blank e
