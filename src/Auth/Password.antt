-- ===== src/Auth/Password.antt =====
-- Passwords as the server stores them: `pbkdf2$iterations$salt$hash`, or plaintext where the account
-- was seeded in SQL. PBKDF2 is a parameter: of a password, a salt, the iterations and the length of
-- the key.
pub mod Stored
use vparser.Prelude.{
  ℕ, ◌+◌, ◌≤◌, ◌<◌, ◌≡◌, ◌≢◌, refl, ◌∙◌, sym, Bool, true, false, not, ◌&&◌, Option, none, some,
  List, [], ◌∷◌, ◌++◌, arith, ltb, ◌==◌, if◌then◌else◌, All, length,
}
use vparser.Prelude.Int.{ℤ, pos, negsuc}
use vparser.Go.Base64.{encode, decode, std, Byte, Encoding, decode-encode, encode-Encoding}
use vparser.Go.Bytes.{Bytes, lit, bytes_eq, strip_prefix, strip_prefix-append}
use vparser.Go.Decimal.{format_int, parse_int, format_int-Lacks, parse_int-format_int}

abbrev pub password_iterations : ℕ
password_iterations = 600000

abbrev pub password_key_bytes : ℕ
password_key_bytes = 32

abbrev put : ℕ → List Bytes → List Bytes
put b [] = (b ∷ []) ∷ []
put b (p ∷ ps) = (b ∷ p) ∷ ps

-- `strings.Split` at a byte.
unfoldable pub split : ℕ → Bytes → List Bytes
split c [] = [] ∷ []
split c (b ∷ s) = let rest = split c s in if b == c then [] ∷ rest else put b rest

-- The first four parts, if there are four.
abbrev pub Parts : Type 0
Parts = Option (Bytes × Bytes × Bytes)

abbrev pub fields : List Bytes → Parts
fields (a ∷ b ∷ c ∷ d ∷ rest) = some (b, c, d)
fields parts = none

unfoldable pub is_hashed : Bytes → Bool
is_hashed stored = (strip_prefix (lit "pbkdf2$") stored).0

unfoldable pub format_hash : ℤ → Bytes → Bytes → Bytes
format_hash iterations salt hash =
    lit "pbkdf2"
    ++ b'$' ∷ (format_int iterations ++ b'$' ∷ (encode std salt ++ b'$' ∷ encode std hash))

abbrev too_few : Option ℤ → Bool
too_few none = true
too_few (some (pos n)) = ltb n password_iterations
too_few (some (negsuc n)) = true

abbrev parts_need_rehash : Parts → Bool
parts_need_rehash none = true
parts_need_rehash (some (iterations, salt, hash)) = too_few (parse_int iterations)

unfoldable pub needs_rehash : Bytes → Bool
unfolding split
needs_rehash stored =
    if not (is_hashed stored) then true else parts_need_rehash (fields (split b'$' stored))

module _ (kdf : Bytes → Bytes → ℕ → ℕ → Bytes) where
  -- `HashPassword`, for the salt that was drawn.
  unfoldable pub hash_password : Bytes → Bytes → Bytes
  hash_password salt password =
      format_hash (pos password_iterations) salt
        (kdf password salt password_iterations password_key_bytes)

  abbrev compare_key : Bytes → Option ℤ → Option Bytes → Option Bytes → Bool
  compare_key raw (some (pos n)) (some salt) (some expected) =
      if n == 0 then false else bytes_eq (kdf raw salt n (length expected)) expected
  compare_key raw n salt expected = false

  abbrev parts_match : Bytes → Parts → Bool
  parts_match raw none = false
  parts_match raw (some (iterations, salt, hash)) =
      compare_key raw (parse_int iterations) (decode std salt) (decode std hash)

  unfoldable pub password_matches : Bytes → Bytes → Bool
  unfolding split
  password_matches raw stored =
      if not (is_hashed stored)
      then bytes_eq raw stored
      else parts_match raw (fields (split b'$' stored))
