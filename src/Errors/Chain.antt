-- ===== src/Errors/Chain.antt =====
-- What a chain of errors decides.
use vparser.Prelude.{
  ℕ, zero, suc, ◌≤◌, ◌<◌, ◌≡◌, ◌≢◌, refl, ap, Bool, false, none, [], ◌∷◌, ◌++◌, arith, any, take,
  length, All,
}
use vparser.Go.Bytes.{Bytes, lit, bytes_eq}
use vparser.Go.Text.{is_empty}
use vparser.Errors.{
  ErrorCode, Kind, Cause, Error, typed, kind_of, reason_code, innermost_code, code_of,
  is_permanent_kind, permanent_within, is_permanent_failure, max_cause_depth,
}

abbrev pub is_permanent : Cause → Bool
is_permanent c = is_permanent_kind (kind_of c)

permanent_within-any : (n : ℕ) (e : Error) → permanent_within n e ≡ any is_permanent (take n e)
unfolding permanent_within
permanent_within-any zero e = refl
permanent_within-any (suc n) [] = refl
permanent_within-any (suc n) (c ∷ e) = ground (arith, permanent_within-any n e)

-- A failure is permanent exactly if one of its first sixteen causes is an invalid argument, a
-- forbidden access or a missing resource, wherever it stands among them.
pub permanent_iff : (e : Error) → is_permanent_failure e ≡ any is_permanent (take max_cause_depth e)
unfolding is_permanent_failure
permanent_iff e = permanent_within-any max_cause_depth e

any-take : (n : ℕ) (e : Error) → length e ≤ n → take n e ≡ e
any-take zero [] h = refl
any-take zero (c ∷ e) h = absurd (omega arith)
any-take (suc n) [] h = refl
any-take (suc n) (c ∷ e) h = rw (any-take n e (omega arith))

abbrev pub IsUntyped : Cause → Type 0
IsUntyped c = kind_of c ≡ none

innermost_untyped : (e : Error) (code : Bytes) → All IsUntyped e → innermost_code e code ≡ code
unfolding innermost_code
innermost_untyped [] code h = refl
innermost_untyped (c ∷ e) code (u, h) = rw u (innermost_untyped e code h)

innermost-append :
    (e : Error) (k : Kind) (code : ErrorCode) (msg : Bytes) (rest : Error) (start : Bytes)
    → All IsUntyped rest
    → innermost_code (e ++ typed k code msg ∷ rest) start ≡ reason_code k
unfolding innermost_code
innermost-append [] k code msg rest start h = innermost_untyped rest (reason_code k) h
innermost-append (c ∷ e) k code msg rest start h = innermost-append e k code msg rest _ h

specific_reason :
    (k : Kind)
    → k ≢ Kind.internal
    → (is_empty (reason_code k) ≡ false) × (bytes_eq (reason_code k) (lit "INTERNAL") ≡ false)
unfolding reason_code lit bytes_eq
specific_reason Kind.internal h = absurd (h refl)
specific_reason _ h = (refl, refl)

code_of-innermost :
    (c : Cause) (e : Error) (k : Kind)
    → k ≢ Kind.internal
    → innermost_code (c ∷ e) [] ≡ reason_code k
    → code_of (c ∷ e) ≡ reason_code k
unfolding code_of
code_of-innermost c e k h q =
    let (full, specific) = specific_reason k h in rw q (rw (full, specific))

-- The recorded code is that of the innermost typed error, whatever wraps it, if that error is not
-- of the internal kind and what it wraps is untyped.
pub code_of_innermost :
    (e : Error) (k : Kind) (code : ErrorCode) (msg : Bytes) (rest : Error)
    → k ≢ Kind.internal
    → All IsUntyped rest
    → code_of (e ++ typed k code msg ∷ rest) ≡ reason_code k
code_of_innermost [] k code msg rest h u =
    code_of-innermost (typed k code msg) rest k h (innermost-append [] k code msg rest [] u)
code_of_innermost (c ∷ e) k code msg rest h u =
    code_of-innermost c (e ++ typed k code msg ∷ rest) k h
      (innermost-append (c ∷ e) k code msg rest [] u)

-- Wrapping a chain of at most fifteen causes in an error that is not itself of a permanent kind does
-- not change whether the failure is permanent.
pub wrapped_permanence :
    (c : Cause) (e : Error)
    → is_permanent c ≡ false
    → length e < max_cause_depth
    → is_permanent_failure (c ∷ e) ≡ is_permanent_failure e
wrapped_permanence c e h short =
    let whole = ap (any is_permanent) (any-take max_cause_depth (c ∷ e) short) in
    let part = ap (any is_permanent) (any-take max_cause_depth e (omega arith)) in
    ground (arith, permanent_iff (c ∷ e), permanent_iff e, whole, part)
