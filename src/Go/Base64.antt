-- ===== src/Go/Base64.antt =====
-- `base64.RawStdEncoding` and `base64.RawURLEncoding`: no padding, and line breaks are skipped.
use vparser.Prelude.{
  ℕ, ◌+◌, ◌-◌, ◌*◌, ◌/◌, ◌%◌, ◌<◌, ◌≡◌, refl, Bool, true, ◌&&◌, ◌||◌, Option, none, some, [], ◌∷◌,
  ap, ap₂, arith, ltb, leb, ◌==◌, if◌then◌else◌, All, length,
}
use vparser.Go.Bytes.{Bytes, lit}

pub data Alphabet : Type 0 where
  std url : Alphabet

-- The characters for 62 and 63.
abbrev last_but_one : Alphabet → ℕ
last_but_one std = b'+'
last_but_one url = b'-'

abbrev last : Alphabet → ℕ
last std = b'/'
last url = b'_'

unfoldable digit : Alphabet → ℕ → ℕ
digit a i =
    if ltb i 26
    then 65 + i
    else if ltb i 52
    then 71 + i
    else if ltb i 62
    then i - 4
    else if i == 62
    then last_but_one a
    else last a

unfoldable value_of : Alphabet → ℕ → Option ℕ
value_of a c =
    if leb 65 c && leb c 90
    then some (c - 65)
    else if leb 97 c && leb c 122
    then some (c - 71)
    else if leb 48 c && leb c 57
    then some (c + 4)
    else if c == last_but_one a
    then some 62
    else if c == last a
    then some 63
    else none

unfoldable pub encode : Alphabet → Bytes → Bytes
unfolding digit
encode a [] = []
encode a (x ∷ []) = digit a (x / 4) ∷ digit a (x % 4 * 16) ∷ []
encode a (x ∷ y ∷ []) = digit a (x / 4) ∷ digit a (x % 4 * 16 + y / 16) ∷ digit a (y % 16 * 4) ∷ []
encode a (x ∷ y ∷ z ∷ s) =
    digit a (x / 4)
    ∷ digit a (x % 4 * 16 + y / 16)
    ∷ digit a (y % 16 * 4 + z / 64)
    ∷ digit a (z % 64)
    ∷ encode a s

abbrev without_breaks : Bytes → Bytes
without_breaks [] = []
without_breaks (c ∷ s) =
    let rest = without_breaks s in if c == 10 || c == 13 then rest else c ∷ rest

-- A group of four characters, and the two or three at the end.
abbrev group2 : Option ℕ → Option ℕ → Option Bytes
group2 (some p) (some q) = some ((p * 4 + q / 16) ∷ [])
group2 p q = none

abbrev group3 : Option ℕ → Option ℕ → Option ℕ → Option Bytes
group3 (some p) (some q) (some r) = some ((p * 4 + q / 16) ∷ (q % 16 * 16 + r / 4) ∷ [])
group3 p q r = none

abbrev group4 : Option ℕ → Option ℕ → Option ℕ → Option ℕ → Option Bytes → Option Bytes
group4 (some p) (some q) (some r) (some t) (some s) =
    some ((p * 4 + q / 16) ∷ (q % 16 * 16 + r / 4) ∷ (r % 4 * 64 + t) ∷ s)
group4 p q r t s = none

unfoldable decode_groups : Alphabet → Bytes → Option Bytes
decode_groups a [] = some []
decode_groups a (c ∷ []) = none
decode_groups a (c ∷ d ∷ []) = group2 (value_of a c) (value_of a d)
decode_groups a (c ∷ d ∷ e ∷ []) = group3 (value_of a c) (value_of a d) (value_of a e)
decode_groups a (c ∷ d ∷ e ∷ f ∷ s) =
    group4 (value_of a c) (value_of a d) (value_of a e) (value_of a f) (decode_groups a s)

unfoldable pub decode : Alphabet → Bytes → Option Bytes
unfolding decode_groups value_of
decode a s = decode_groups a (without_breaks s)

-- The characters of an encoding: letters, digits and the last two.
abbrev pub is_encoding : ℕ → Bool
is_encoding c =
    (leb 48 c && leb c 57)
    || ((leb 65 c && leb c 90)
        || ((leb 97 c && leb c 122) || ((c == b'+' || c == b'/') || (c == b'-' || c == b'_'))))

digit-is_encoding : (a : Alphabet) (i : ℕ) → i < 64 → is_encoding (digit a i) ≡ true
unfolding digit
digit-is_encoding std i h = ground arith
digit-is_encoding url i h = ground arith

value_of-digit : (a : Alphabet) (i : ℕ) → i < 64 → value_of a (digit a i) ≡ some i
unfolding digit value_of
value_of-digit std i h = ground arith
value_of-digit url i h = ground arith

abbrev pub Byte : ℕ → Type 0
Byte b = b < 256

abbrev pub Encoding : ℕ → Type 0
Encoding c = is_encoding c ≡ true

pub encode-Encoding : (a : Alphabet) (s : Bytes) → All Byte s → All Encoding (encode a s)
unfolding encode
encode-Encoding a [] h = tt
encode-Encoding a (x ∷ []) (hx, h) = (
  digit-is_encoding a (x / 4) (omega arith),
  (digit-is_encoding a (x % 4 * 16) (omega arith), tt),
)
encode-Encoding a (x ∷ y ∷ []) (hx, (hy, h)) = (
  digit-is_encoding a (x / 4) (omega arith),
  (
    digit-is_encoding a (x % 4 * 16 + y / 16) (omega arith),
    (digit-is_encoding a (y % 16 * 4) (omega arith), tt),
  ),
)
encode-Encoding a (x ∷ y ∷ z ∷ s) (hx, (hy, (hz, h))) = (
  digit-is_encoding a (x / 4) (omega arith),
  (
    digit-is_encoding a (x % 4 * 16 + y / 16) (omega arith),
    (
      digit-is_encoding a (y % 16 * 4 + z / 64) (omega arith),
      (digit-is_encoding a (z % 64) (omega arith), encode-Encoding a s h),
    ),
  ),
)

without_breaks-Encoding : (s : Bytes) → All Encoding s → without_breaks s ≡ s
without_breaks-Encoding [] h = refl
without_breaks-Encoding (c ∷ s) (hc, h) = ground (arith, without_breaks-Encoding s h)

decode_groups-encode :
    (a : Alphabet) (s : Bytes) → All Byte s → decode_groups a (encode a s) ≡ some s
unfolding encode decode_groups
decode_groups-encode a [] h = refl
decode_groups-encode a (x ∷ []) (hx, h) =
    rw (value_of-digit a (x / 4) (omega arith))
      (rw (value_of-digit a (x % 4 * 16) (omega arith)) (ap (λ u. some (u ∷ [])) (omega arith)))
decode_groups-encode a (x ∷ y ∷ []) (hx, (hy, h)) = rw (value_of-digit a (x / 4) (omega arith)) (
    rw (value_of-digit a (x % 4 * 16 + y / 16) (omega arith)) (
      rw (value_of-digit a (y % 16 * 4) (omega arith))
        (ap₂ (λ u v. some (u ∷ v ∷ [])) (omega arith) (omega arith))))
decode_groups-encode a (x ∷ y ∷ z ∷ s) (hx, (hy, (hz, h))) =
    rw (value_of-digit a (x / 4) (omega arith)) (
      rw (value_of-digit a (x % 4 * 16 + y / 16) (omega arith)) (
        rw (value_of-digit a (y % 16 * 4 + z / 64) (omega arith)) (
          rw (value_of-digit a (z % 64) (omega arith)) (
            rw (decode_groups-encode a s h) (
              let p : x / 4 * 4 + (x % 4 * 16 + y / 16) / 16 ≡ x = omega arith in
              let q : (x % 4 * 16 + y / 16) % 16 * 16 + (y % 16 * 4 + z / 64) / 4 ≡ y =
                omega arith in
              let r : (y % 16 * 4 + z / 64) % 4 * 64 + z % 64 ≡ z = omega arith in cc)))))

-- Decoding undoes encoding, in either alphabet.
pub decode-encode : (a : Alphabet) (s : Bytes) → All Byte s → decode a (encode a s) ≡ some s
unfolding decode
decode-encode a s h =
    rw (without_breaks-Encoding (encode a s) (encode-Encoding a s h)) (decode_groups-encode a s h)

pub length-encode : (a : Alphabet) (s : Bytes) → length (encode a s) ≡ (length s * 8 + 5) / 6
unfolding encode
length-encode a [] = refl
length-encode a (x ∷ []) = refl
length-encode a (x ∷ y ∷ []) = refl
length-encode a (x ∷ y ∷ z ∷ s) = omega (arith, length-encode a s)

encoded : encode std (lit "hello??>") ≡ lit "aGVsbG8/Pz4"
unfolding encode lit digit
encoded = refl

decoded :
    (decode url (lit "aGVsbG8_\nPz4") ≡ some (lit "hello??>"))
    × (decode std (lit "aGVsbG8_") ≡ none)
unfolding decode lit decode_groups value_of
decoded = (refl, refl)
