-- ===== src/Go/Text/Plain.antt =====
-- Strings of printable ASCII characters without a space: nothing to trim, and one unit each.
use mathlib.Core.List.{reverse, reverse-cons, reverse-reverse}
use vparser.Prelude.{ℕ, ◌≤◌, ◌≡◌, refl, [], ◌∷◌, arith, All, All-append, length}
use vparser.Go.Bytes.{Bytes}
use vparser.Go.Text.{
  trim_space, utf16_length, skip, leading_space, trailing_space, utf16_from, sequence_length,
  space1, space2, space3,
}

abbrev pub Plain : ℕ → Type 0
Plain c = (33 ≤ c) × (c ≤ 126)

skip-leading : (s : Bytes) → All Plain s → skip leading_space 0 s ≡ s
unfolding skip leading_space space1 space2 space3
skip-leading [] h = refl
skip-leading (c ∷ s) (hc, h) = ground arith

skip-trailing : (s : Bytes) → All Plain s → skip trailing_space 0 s ≡ s
unfolding skip trailing_space space1 space2 space3
skip-trailing [] h = refl
skip-trailing (c ∷ s) (hc, h) = ground arith

utf16_from-Plain : (s : Bytes) → All Plain s → utf16_from 0 s ≡ length s
unfolding utf16_from sequence_length
utf16_from-Plain [] h = refl
utf16_from-Plain (c ∷ s) (hc, h) = ground (arith, utf16_from-Plain s h)

reverse-Plain : (s : Bytes) → All Plain s → All Plain (reverse s)
reverse-Plain [] h = tt
reverse-Plain (c ∷ s) (hc, h) =
    rw reverse-cons (All-append Plain (reverse s) (c ∷ []) (reverse-Plain s h) (hc, tt))

pub trim_space-Plain : (s : Bytes) → All Plain s → trim_space s ≡ s
unfolding trim_space
trim_space-Plain s h =
    rw (skip-leading s h) (rw (skip-trailing (reverse s) (reverse-Plain s h)) (reverse-reverse s))

pub utf16_length-Plain : (s : Bytes) → All Plain s → utf16_length s ≡ length s
unfolding utf16_length
utf16_length-Plain s h = utf16_from-Plain s h
