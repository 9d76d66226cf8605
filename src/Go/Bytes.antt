-- ===== src/Go/Bytes.antt =====
-- A Go string is a sequence of bytes. A literal is `lit "…"`, which stays shut in proofs about
-- code that only passes it on.
use Prim.Native.Char.{code}
use vparser.Prelude.{
  ℕ, ◌+◌, ◌/◌, ◌%◌, String, ◌≡◌, refl, ◌↔◌, Bool, true, false, ◌&&◌, List, [], ◌∷◌, ◌++◌, arith,
  ltb, ◌==◌, if◌then◌else◌,
}

abbrev pub Bytes : Type 0
Bytes = List ℕ

-- The UTF-8 bytes of one code point.
abbrev pub encode_rune : ℕ → Bytes
encode_rune c =
    if ltb c 0x80
    then c ∷ []
    else if ltb c 0x800
    then (0xC0 + c / 0x40) ∷ (0x80 + c % 0x40) ∷ []
    else if ltb c 0x10000
    then (0xE0 + c / 0x1000) ∷ (0x80 + c / 0x40 % 0x40) ∷ (0x80 + c % 0x40) ∷ []
    else (0xF0 + c / 0x40000)
      ∷ (0x80 + c / 0x1000 % 0x40)
      ∷ (0x80 + c / 0x40 % 0x40)
      ∷ (0x80 + c % 0x40)
      ∷ []

unfoldable pub lit : String → Bytes
lit String.[] = []
lit (String.◌∷◌ c s) = encode_rune (code c) ++ lit s

-- Go's `==` on strings.
unfoldable pub bytes_eq : Bytes → Bytes → Bool
bytes_eq [] [] = true
bytes_eq [] (c ∷ t) = false
bytes_eq (b ∷ s) [] = false
bytes_eq (b ∷ s) (c ∷ t) = b == c && bytes_eq s t

pub eq-of_bytes_eq : (s t : Bytes) → bytes_eq s t ≡ true → s ≡ t
unfolding bytes_eq
eq-of_bytes_eq [] [] h = refl
eq-of_bytes_eq [] (c ∷ t) h = ground arith
eq-of_bytes_eq (b ∷ s) [] h = ground arith
eq-of_bytes_eq (b ∷ s) (c ∷ t) h = ground (arith, eq-of_bytes_eq s t)

pub bytes_eq_refl : (s : Bytes) → bytes_eq s s ≡ true
unfolding bytes_eq
bytes_eq_refl [] = refl
bytes_eq_refl (b ∷ s) = ground (arith, bytes_eq_refl s)

pub bytes_eq_iff : (s t : Bytes) → (bytes_eq s t ≡ true) ↔ (s ≡ t)
bytes_eq_iff s t = (eq-of_bytes_eq s t, λ e. rw e (bytes_eq_refl t))

pub append_cancel_left : (s : Bytes) {t u : Bytes} → s ++ t ≡ s ++ u → t ≡ u
append_cancel_left [] h = h
append_cancel_left (b ∷ s) {t} {u} h = append_cancel_left s (cc)

-- `strings.HasPrefix`, with what follows the prefix.
unfoldable pub strip_prefix : Bytes → Bytes → Bool × Bytes
strip_prefix [] s = (true, s)
strip_prefix (b ∷ p) [] = (false, [])
strip_prefix (b ∷ p) (c ∷ s) = let r = strip_prefix p s in if b == c then r else (false, [])

pub strip_prefix-append : (p s : Bytes) → strip_prefix p (p ++ s) ≡ (true, s)
unfolding strip_prefix
strip_prefix-append [] s = refl
strip_prefix-append (b ∷ p) s = ground (arith, strip_prefix-append p s)
