-- ===== src/Go/Decimal.antt =====
-- `strconv.FormatInt(n, 10)`, `strconv.Itoa`, `strconv.ParseInt(s, 10, 64)` and `strconv.Atoi`, whose
-- `int` has 64 bits.
use vparser.Prelude.{
  ℕ, zero, suc, ◌+◌, ◌-◌, ◌*◌, ◌/◌, ◌%◌, ◌^◌, ◌≤◌, ◌<◌, ◌≡◌, refl, sym, ap, ◌∙◌, subst, ◌≢◌, ◌⊎◌,
  inl, inr, Bool, true, false, ◌&&◌, Option, none, some, [], ◌∷◌, arith, ltb, leb, ◌==◌,
  if◌then◌else◌, Bool-cases, All,
}
use vparser.Prelude.Int.{ℤ, pos, negsuc}
use vparser.Go.Bytes.{Bytes, lit, append_cancel_left}

digits : ℕ → ℕ → Bytes → Bytes
digits zero n out = out
digits (suc f) n out =
    let rest = digits f (n / 10) ((b'0' + n % 10) ∷ out) in
    if ltb n 10 then (b'0' + n) ∷ out else rest

unfoldable pub format_nat : ℕ → Bytes
unfolding digits
format_nat n = digits (suc n) n []

unfoldable pub format_int : ℤ → Bytes
format_int (pos n) = format_nat n
format_int (negsuc n) = b'-' ∷ format_nat (suc n)

abbrev is_digit : ℕ → Bool
is_digit c = leb b'0' c && leb c b'9'

scan : ℕ → Bytes → Option ℕ
scan n [] = some n
scan n (c ∷ s) = if is_digit c then scan (n * 10 + (c - b'0')) s else none

parse_nat : Bytes → Option ℕ
unfolding scan
parse_nat [] = none
parse_nat (c ∷ s) = scan 0 (c ∷ s)

abbrev pub max_int64 : ℕ
max_int64 = 2 ^ 63 - 1

-- The magnitude behind a sign.
signed : Bool → Option ℕ → Option ℤ
signed negative none = none
signed true (some zero) = some (pos 0)
signed true (some (suc n)) = if leb n max_int64 then some (negsuc n) else none
signed false (some n) = if leb n max_int64 then some (pos n) else none

unfoldable pub parse_int : Bytes → Option ℤ
unfolding signed parse_nat
parse_int [] = none
parse_int (c ∷ s) =
    if c == b'-'
    then signed true (parse_nat s)
    else if c == b'+'
    then signed false (parse_nat s)
    else signed false (parse_nat (c ∷ s))

abbrev pub InRange : ℤ → Type 0
InRange (pos n) = n ≤ max_int64
InRange (negsuc n) = n ≤ max_int64

scan-digits : (f n : ℕ) (out : Bytes) → n < f → scan 0 (digits f n out) ≡ scan n out
unfolding scan digits
scan-digits zero n out h = absurd (omega arith)
scan-digits (suc f) n out h = ground (arith, scan-digits f (n / 10) ((b'0' + n % 10) ∷ out))

-- The first byte is a digit, so no sign.
digits-cons :
    (f n : ℕ) (out : Bytes) → n < f → (c : ℕ) × (s : Bytes) × (digits f n out ≡ c ∷ s) × (b'0' ≤ c)
unfolding digits
digits-cons zero n out h = absurd (omega arith)
digits-cons (suc f) n out h = elim (Bool-cases (ltb n 10)) [
  | inl small ↦ (b'0' + n, out, rw small, omega arith)
  | inr large ↦ rw large (digits-cons f (n / 10) ((b'0' + n % 10) ∷ out) (ground arith))
]

pub format_nat-cons : (n : ℕ) → (c : ℕ) × (s : Bytes) × (format_nat n ≡ c ∷ s) × (b'0' ≤ c)
unfolding format_nat
format_nat-cons n = digits-cons (suc n) n [] (omega arith)

parse_nat-scan : (c : ℕ) (s : Bytes) → parse_nat (c ∷ s) ≡ scan 0 (c ∷ s)
unfolding parse_nat
parse_nat-scan c s = refl

scan-format_nat : (n : ℕ) → scan 0 (format_nat n) ≡ some n
unfolding format_nat
scan-format_nat n = scan-digits (suc n) n [] (omega arith) ∙ (unfold scan in refl)

parse_nat-format_nat : (n : ℕ) → parse_nat (format_nat n) ≡ some n
parse_nat-format_nat n =
    let (c, s, e, _) = format_nat-cons n in
    rw e (parse_nat-scan c s ∙ subst (λ t. scan 0 t ≡ some n) e (scan-format_nat n))

signed_nat : (n : ℕ) → n ≤ max_int64 → signed false (some n) ≡ some (pos n)
unfolding signed
signed_nat n h = ground arith

signed_neg : (n : ℕ) → n ≤ max_int64 → signed true (some (suc n)) ≡ some (negsuc n)
unfolding signed
signed_neg n h = ground arith

parse_int_unsigned :
    (c : ℕ) (s : Bytes) → b'0' ≤ c → parse_int (c ∷ s) ≡ signed false (parse_nat (c ∷ s))
unfolding parse_int
parse_int_unsigned c s h = ground arith

parse_int_minus : (s : Bytes) → parse_int (b'-' ∷ s) ≡ signed true (parse_nat s)
unfolding parse_int
parse_int_minus s = refl

-- `ParseInt` reads back what `FormatInt` prints.
pub parse_int-format_int : (z : ℤ) → InRange z → parse_int (format_int z) ≡ some z
unfolding format_int
parse_int-format_int (pos n) h =
    let (c, s, e, digit) = format_nat-cons n in
    subst (λ t. parse_int t ≡ some (pos n)) (sym e)
      (parse_int_unsigned c s digit
        ∙ subst (λ t. signed false (parse_nat t) ≡ some (pos n)) e
            (rw parse_nat-format_nat (signed_nat n h)))
parse_int-format_int (negsuc n) h =
    parse_int_minus (format_nat (suc n)) ∙ rw parse_nat-format_nat (signed_neg n h)

pub parse_int-format_nat : (n : ℕ) → n ≤ max_int64 → parse_int (format_nat n) ≡ some (pos n)
unfolding format_int
parse_int-format_nat n h = parse_int-format_int (pos n) h

pub format_nat_injective : (m n : ℕ) → format_nat m ≡ format_nat n → m ≡ n
format_nat_injective m n e = cc (scan-format_nat m, ap (scan 0) e, scan-format_nat n)

format_nat-ne-minus : (m : ℕ) (s : Bytes) → format_nat m ≢ b'-' ∷ s
format_nat-ne-minus m s h = let (c, t, e, digit) = format_nat-cons m in ground (arith, sym e ∙ h)

pub format_int_injective : (a b : ℤ) → format_int a ≡ format_int b → a ≡ b
unfolding format_int
format_int_injective (pos m) (pos n) e = ap pos (format_nat_injective m n e)
format_int_injective (pos m) (negsuc n) e = absurd (format_nat-ne-minus m _ e)
format_int_injective (negsuc m) (pos n) e = absurd (format_nat-ne-minus n _ (sym e))
format_int_injective (negsuc m) (negsuc n) e =
    cc (format_nat_injective (suc m) (suc n) (append_cancel_left (b'-' ∷ []) e))

-- Below the sign or above the digits.
abbrev Outside : ℕ → Type 0
Outside b = (b < b'-') ⊎ (b'9' < b)

digits-Lacks :
    (b f n : ℕ) (out : Bytes) → Outside b → All (λ c. c ≢ b) out → All (λ c. c ≢ b) (digits f n out)
unfolding digits
digits-Lacks b zero n out h l = l
digits-Lacks b (suc f) n out h l = elim (Bool-cases (ltb n 10)) [
  | inl small ↦ rw small (ground arith, l)
  | inr large ↦ rw large (digits-Lacks b f (n / 10) ((b'0' + n % 10) ∷ out) h (omega arith, l))
]

-- A printed number holds no such byte.
pub format_int-Lacks : (b : ℕ) (z : ℤ) → Outside b → All (λ c. c ≢ b) (format_int z)
unfolding format_int format_nat
format_int-Lacks b (pos n) h = digits-Lacks b (suc n) n [] h tt
format_int-Lacks b (negsuc n) h = (omega arith, digits-Lacks b (suc (suc n)) (suc n) [] h tt)

format_min_int : format_int (negsuc max_int64) ≡ lit "-9223372036854775808"
unfolding format_int format_nat lit
format_min_int = refl

parse_int_errors :
    (parse_int (lit "9223372036854775808") ≡ none)
    × (parse_int (lit "") ≡ none)
    × (parse_int (lit "+") ≡ none)
    × (parse_int (lit "1_0") ≡ none)
unfolding parse_int lit
parse_int_errors = (refl, refl, refl, refl)
