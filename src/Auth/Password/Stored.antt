-- ===== src/Auth/Password/Stored.antt =====
-- What the server stores for a password, and how it checks it.
use vparser.Prelude.{
  ℕ, ◌≡◌, ◌≢◌, refl, ◌∙◌, inl, true, false, some, [], ◌∷◌, ◌++◌, arith, All, length,
}
use vparser.Prelude.Int.{ℤ, pos}
use vparser.Go.Base64.{encode, std, Byte, Encoding, decode-encode, encode-Encoding}
use vparser.Go.Bytes.{Bytes, lit, bytes_eq, bytes_eq_refl, strip_prefix}
use vparser.Go.Decimal.{format_int, format_int-Lacks, parse_int-format_int}
use vparser.Auth.Password.{
  split, fields, is_hashed, format_hash, needs_rehash, hash_password, password_matches,
  password_iterations, password_key_bytes,
}

LacksDollar : Bytes → Type 0
LacksDollar = All (λ c. c ≢ b'$')

split-part : (s t : Bytes) → LacksDollar s → split b'$' (s ++ b'$' ∷ t) ≡ s ∷ split b'$' t
unfolding LacksDollar split
split-part [] t h = refl
split-part (c ∷ s) t (hc, h) = ground (arith, split-part s t h)

split-last : (s : Bytes) → LacksDollar s → split b'$' s ≡ s ∷ []
unfolding LacksDollar split
split-last [] h = refl
split-last (c ∷ s) (hc, h) = ground (arith, split-last s h)

Encoding-Lacks : (s : Bytes) → All Encoding s → LacksDollar s
unfolding LacksDollar
Encoding-Lacks [] h = tt
Encoding-Lacks (c ∷ s) (hc, h) = (ground (arith, hc), Encoding-Lacks s h)

encode-Lacks : (s : Bytes) → All Byte s → LacksDollar (encode std s)
encode-Lacks s h = Encoding-Lacks (encode std s) (encode-Encoding std s h)

prefix-Lacks : LacksDollar (lit "pbkdf2")
unfolding LacksDollar lit
prefix-Lacks = omega arith

number-Lacks : (n : ℤ) → LacksDollar (format_int n)
unfolding LacksDollar
number-Lacks n = format_int-Lacks b'$' n (inl (omega arith))

fields-format_hash :
    (n : ℤ) (salt hash : Bytes)
    → All Byte salt
    → All Byte hash
    → fields (split b'$' (format_hash n salt hash))
      ≡ some (format_int n, encode std salt, encode std hash)
unfolding format_hash
fields-format_hash n salt hash hs hh =
    rw
      (split-part (lit "pbkdf2")
        (format_int n ++ b'$' ∷ (encode std salt ++ b'$' ∷ encode std hash)) prefix-Lacks)
      (rw (split-part (format_int n) (encode std salt ++ b'$' ∷ encode std hash) (number-Lacks n)) (
        rw (split-part (encode std salt) (encode std hash) (encode-Lacks salt hs))
          (rw (split-last (encode std hash) (encode-Lacks hash hh)) refl)))

is_hashed-format_hash : (n : ℤ) (salt hash : Bytes) → is_hashed (format_hash n salt hash) ≡ true
unfolding is_hashed format_hash lit strip_prefix
is_hashed-format_hash n salt hash = refl

-- What PBKDF2 gives: as many bytes as were asked for.
abbrev pub GivesBytes : (Bytes → Bytes → ℕ → ℕ → Bytes) → Type 0
GivesBytes kdf = (p s : Bytes) (n l : ℕ) → All Byte (kdf p s n l) × (length (kdf p s n l) ≡ l)

module _ (kdf : Bytes → Bytes → ℕ → ℕ → Bytes) (gives : GivesBytes kdf) where
  matches_key :
      (salt password raw : Bytes)
      → All Byte salt
      → password_matches kdf raw (hash_password kdf salt password)
        ≡ bytes_eq
            (kdf raw salt password_iterations password_key_bytes)
            (kdf password salt password_iterations password_key_bytes)
  unfolding password_matches hash_password
  matches_key salt password raw h =
      let key = kdf password salt password_iterations password_key_bytes in
      let (bytes, size) = gives password salt password_iterations password_key_bytes in
      rw (is_hashed-format_hash (pos password_iterations) salt key) (
        rw (fields-format_hash (pos password_iterations) salt key h bytes) (
          rw (parse_int-format_int (pos password_iterations) (omega arith))
            (rw (decode-encode std salt h) (rw (decode-encode std key bytes) (rw size refl)))))

  no_rehash :
      (salt password : Bytes)
      → All Byte salt
      → needs_rehash (hash_password kdf salt password) ≡ false
  unfolding needs_rehash hash_password
  no_rehash salt password h =
      let key = kdf password salt password_iterations password_key_bytes in
      let (bytes, size) = gives password salt password_iterations password_key_bytes in
      rw (is_hashed-format_hash (pos password_iterations) salt key) (
        rw (fields-format_hash (pos password_iterations) salt key h bytes)
          (rw (parse_int-format_int (pos password_iterations) (omega arith)) refl))

  -- PBKDF2 gives bytes of the length asked for, and the salt is of bytes: a password that was
  -- stored matches exactly what derives the same key, itself among them, and does not ask to be
  -- hashed again.
  pub stored_checks :
      (salt password raw : Bytes)
      → All Byte salt
      → (password_matches kdf raw (hash_password kdf salt password)
          ≡ bytes_eq
              (kdf raw salt password_iterations password_key_bytes)
              (kdf password salt password_iterations password_key_bytes))
        × (password_matches kdf password (hash_password kdf salt password) ≡ true)
        × (needs_rehash (hash_password kdf salt password) ≡ false)
  stored_checks salt password raw h = (
    matches_key salt password raw h,
    matches_key salt password password h ∙ bytes_eq_refl _,
    no_rehash salt password h,
  )
