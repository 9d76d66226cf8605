-- ===== src/Go/Text.antt =====
-- `strings.TrimSpace`, `utf8.ValidString` and the length in UTF-16 units, over bytes.
pub mod Plain
use mathlib.Core.List.{reverse}
use vparser.Prelude.{
  ℕ, zero, suc, ◌+◌, ◌-◌, ◌≡◌, refl, Bool, true, false, ◌&&◌, ◌||◌, [], ◌∷◌, ◌++◌, ltb, leb, ◌==◌,
  if◌then◌else◌,
}
use vparser.Go.Bytes.{Bytes, lit}

abbrev byte_at : ℕ → Bytes → ℕ
byte_at n [] = 0
byte_at zero (b ∷ s) = b
byte_at (suc n) (b ∷ s) = byte_at n s

abbrev between : ℕ → ℕ → ℕ → Bool
between lo hi c = leb lo c && leb c hi

-- The white space of Unicode, by the number of bytes of its encoding.
space1 : ℕ → Bool
space1 a = between 9 13 a || a == 32

space2 : ℕ → ℕ → Bool
space2 a b = a == 0xC2 && (b == 0x85 || b == 0xA0)

space3 : ℕ → ℕ → ℕ → Bool
space3 a b c =
    (a == 0xE1 && (b == 0x9A && c == 0x80))
    || ((a == 0xE2 && (b == 0x80 && (between 0x80 0x8A c || (between 0xA8 0xA9 c || c == 0xAF))))
        || ((a == 0xE2 && (b == 0x81 && c == 0x9F)) || (a == 0xE3 && (b == 0x80 && c == 0x80))))

-- The length of a white space character that the bytes begin with, or 0.
leading_space : Bytes → ℕ
unfolding space1 space2 space3
leading_space s =
    if space1 (byte_at 0 s)
    then 1
    else if space2 (byte_at 0 s) (byte_at 1 s)
    then 2
    else if space3 (byte_at 0 s) (byte_at 1 s) (byte_at 2 s)
    then 3
    else 0

-- The same of the end of a string, given backwards.
trailing_space : Bytes → ℕ
unfolding space1 space2 space3
trailing_space s =
    if space1 (byte_at 0 s)
    then 1
    else if space2 (byte_at 1 s) (byte_at 0 s)
    then 2
    else if space3 (byte_at 2 s) (byte_at 1 s) (byte_at 0 s)
    then 3
    else 0

-- Drops `k` bytes, and then the white space.
skip : (Bytes → ℕ) → ℕ → Bytes → Bytes
skip width k [] = []
skip width (suc k) (b ∷ s) = skip width k s
skip width zero (b ∷ s) =
    let w = width (b ∷ s) in let rest = skip width (w - 1) s in if w == 0 then b ∷ s else rest

unfoldable pub trim_space : Bytes → Bytes
unfolding skip leading_space trailing_space
trim_space s = reverse (skip trailing_space 0 (reverse (skip leading_space 0 s)))

abbrev pub is_empty : Bytes → Bool
is_empty [] = true
is_empty (b ∷ s) = false

-- `strings.TrimSpace(s) == ""`.
unfoldable pub is_blank : Bytes → Bool
unfolding trim_space
is_blank s = is_empty (trim_space s)

-- The length of the well-formed sequence that the bytes begin with, or 0.
unfoldable pub sequence_length : Bytes → ℕ
sequence_length s =
    let a = byte_at 0 s in
    let b = byte_at 1 s in
    let cont3 = between 0x80 0xBF (byte_at 2 s) in
    let cont4 = cont3 && between 0x80 0xBF (byte_at 3 s) in
    if ltb a 0x80
    then 1
    else if between 0xC2 0xDF a && between 0x80 0xBF b
    then 2
    else if cont3
        && ((a == 0xE0 && between 0xA0 0xBF b)
            || ((between 0xE1 0xEC a && between 0x80 0xBF b)
                || ((a == 0xED && between 0x80 0x9F b)
                    || (between 0xEE 0xEF a && between 0x80 0xBF b))))
    then 3
    else if cont4
        && ((a == 0xF0 && between 0x90 0xBF b)
            || ((between 0xF1 0xF3 a && between 0x80 0xBF b) || (a == 0xF4 && between 0x80 0x8F b)))
    then 4
    else 0

-- Behind the `k` bytes that are left of a sequence.
valid_from : ℕ → Bytes → Bool
valid_from k [] = k == 0
valid_from (suc k) (b ∷ s) = valid_from k s
valid_from zero (b ∷ s) =
    let w = sequence_length (b ∷ s) in
    let rest = valid_from (w - 1) s in if w == 0 then false else rest

unfoldable pub valid_string : Bytes → Bool
unfolding valid_from sequence_length
valid_string s = valid_from 0 s

-- A byte that belongs to no sequence counts as U+FFFD, which is one unit.
utf16_from : ℕ → Bytes → ℕ
utf16_from k [] = 0
utf16_from (suc k) (b ∷ s) = utf16_from k s
utf16_from zero (b ∷ s) =
    let w = sequence_length (b ∷ s) in (if w == 4 then 2 else 1) + utf16_from (w - 1) s

unfoldable pub utf16_length : Bytes → ℕ
unfolding utf16_from sequence_length
utf16_length s = utf16_from 0 s

trimmed : trim_space (0xE3 ∷ 0x80 ∷ 0x80 ∷ lit " a b\t\r\n " ++ (0xC2 ∷ 0xA0 ∷ [])) ≡ lit "a b"
unfolding trim_space lit
trimmed = refl

lengths :
    (utf16_length (lit "a用😀") ≡ 4)
    × (valid_string (lit "a用😀") ≡ true)
    × (valid_string (0xE7 ∷ 0x94 ∷ []) ≡ false)
    × (utf16_length (0xE7 ∷ 0x94 ∷ []) ≡ 2)
unfolding utf16_length valid_string lit
lengths = (refl, refl, refl, refl)
