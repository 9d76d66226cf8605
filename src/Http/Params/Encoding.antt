-- ===== src/Http/Params/Encoding.antt =====
-- The encoded file name of a response can be read back, and does not end its header.
use vparser.Prelude.{
  ℕ, ◌+◌, ◌-◌, ◌*◌, ◌/◌, ◌%◌, ◌<◌, ◌≡◌, refl, sym, ap, ap₂, ◌∙◌, false, ◌&&◌, Option, none, some,
  [], ◌∷◌, ◌++◌, arith, leb, ◌==◌, if◌then◌else◌, All, All-append, Bool-cases, inl, inr,
}
use vparser.Go.Base64.{Byte}
use vparser.Go.Bytes.{Bytes}
use vparser.Http.Params.{form_url_encode, encode_byte, is_unreserved, hex_digit}

-- What `url.QueryUnescape` of Go does, with capital digits.
abbrev value_of : ℕ → Option ℕ
value_of c =
    if leb b'0' c && leb c b'9'
    then some (c - 48)
    else if leb b'A' c && leb c b'F'
    then some (c - 55)
    else none

abbrev pair : Option ℕ → Option ℕ → Option Bytes → Option Bytes
pair (some h) (some l) (some s) = some ((h * 16 + l) ∷ s)
pair h l s = none

abbrev cons : ℕ → Option Bytes → Option Bytes
cons b none = none
cons b (some s) = some (b ∷ s)

-- A plus stands for a space.
abbrev plain : ℕ → ℕ
plain c = if c == b'+' then 32 else c

unfoldable unescape : Bytes → Option Bytes
unescape [] = some []
unescape (c ∷ []) = if c == b'%' then none else some (plain c ∷ [])
unescape (c ∷ d ∷ []) =
    let rest = unescape (d ∷ []) in if c == b'%' then none else cons (plain c) rest
unescape (c ∷ d ∷ e ∷ s) =
    let long = unescape s in
    let rest = unescape (d ∷ e ∷ s) in
    if c == b'%' then pair (value_of d) (value_of e) long else cons (plain c) rest

unescape-plain :
    (c : ℕ) (s : Bytes) → (c == b'%') ≡ false → unescape (c ∷ s) ≡ cons (plain c) (unescape s)
unfolding unescape
unescape-plain c [] h = ground (arith, h)
unescape-plain c (d ∷ []) h = rw h refl
unescape-plain c (d ∷ e ∷ s) h = rw h refl

-- The digits can be read back.
value_of-hex_digit : (n : ℕ) → n < 16 → value_of (hex_digit n) ≡ some n
value_of-hex_digit n h = ground (arith, h)

pair-cons : (b : ℕ) (o : Option Bytes) → pair (some (b / 16)) (some (b % 16)) o ≡ cons b o
pair-cons b none = refl
pair-cons b (some s) = ap (λ c. some (c ∷ s)) (omega arith)

unescape-encode_byte :
    (b : ℕ) (s : Bytes) → Byte b → unescape (encode_byte b ++ s) ≡ cons b (unescape s)
unfolding unescape
unescape-encode_byte b s h = elim (Bool-cases (is_unreserved b)) [
  | inl plain_byte ↦
      let kept : plain b ≡ b = ground (arith, plain_byte) in
      rw plain_byte
        (unescape-plain b s (ground (arith, plain_byte)) ∙ ap (λ c. cons c (unescape s)) kept)
  | inr other ↦ elim (Bool-cases (b == 32)) [
    | inl space ↦
        let blank : 32 ≡ b = ground (arith, space) in
        rw other (rw space (unescape-plain 43 s refl ∙ ap (λ c. cons c (unescape s)) blank))
    | inr no_space ↦
        let high = value_of-hex_digit (b / 16) (omega (arith, h)) in
        let low = value_of-hex_digit (b % 16) (omega arith) in
        rw other
          (rw no_space (ap₂ (λ x y. pair x y (unescape s)) high low ∙ pair-cons b (unescape s)))
  ]
]

-- A character that keeps its place in the quotation of a header: visible, no quotation mark, no
-- semicolon.
abbrev pub Inside : ℕ → Type 0
Inside c = (32 < c) × (c < 127) × ((c == b'"') ≡ false) × ((c == b';') ≡ false)

hex_digit-Inside : (n : ℕ) → n < 16 → Inside (hex_digit n)
hex_digit-Inside n h = (ground (arith, h), ground (arith, h), ground (arith, h), ground (arith, h))

encode_byte-Inside : (b : ℕ) → Byte b → All Inside (encode_byte b)
encode_byte-Inside b h = elim (Bool-cases (is_unreserved b)) [
  | inl plain_byte ↦ rw plain_byte (
    (
      ground (arith, plain_byte),
      ground (arith, plain_byte),
      ground (arith, plain_byte),
      ground (arith, plain_byte),
    ),
    tt,
  )
  | inr other ↦ elim (Bool-cases (b == 32)) [
    | inl space ↦ rw other (rw space ((omega arith, omega arith, refl, refl), tt))
    | inr no_space ↦ rw other (
        rw no_space (
          (omega arith, omega arith, refl, refl),
          (
            hex_digit-Inside (b / 16) (omega (arith, h)),
            (hex_digit-Inside (b % 16) (omega arith), tt),
          ),
        ))
  ]
]

unescape-encode : (s : Bytes) → All Byte s → unescape (form_url_encode s) ≡ some s
unfolding form_url_encode unescape
unescape-encode [] h = refl
unescape-encode (b ∷ s) (hb, hs) =
    unescape-encode_byte b (form_url_encode s) hb ∙ ap (cons b) (unescape-encode s hs)

encode-Inside : (s : Bytes) → All Byte s → All Inside (form_url_encode s)
unfolding form_url_encode
encode-Inside [] h = tt
encode-Inside (b ∷ s) (hb, hs) =
    All-append Inside (encode_byte b) (form_url_encode s) (encode_byte-Inside b hb)
      (encode-Inside s hs)

-- The encoding of a file name, whatever bytes it has, consists of visible ASCII characters other
-- than the quotation mark and the semicolon, so it stays inside the header that it is put into;
-- and two names never have one encoding.
pub name_encoded :
    (s : Bytes)
    → All Byte s
    → All Inside (form_url_encode s)
      × ((t : Bytes) → All Byte t → form_url_encode s ≡ form_url_encode t → s ≡ t)
name_encoded s h = (
  encode-Inside s h,
  λ t k same.
      let read = sym (unescape-encode s h) ∙ (ap unescape same ∙ unescape-encode t k) in
      ground (arith, read),
)
