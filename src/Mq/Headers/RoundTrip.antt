-- ===== src/Mq/Headers/RoundTrip.antt =====
-- A forwarded record is decoded to what was put into its headers.
use vparser.Prelude.{ℕ, ◌≤◌, ◌<◌, ◌≡◌, refl, ap, false, some, [], ◌∷◌, ◌++◌, arith}
use vparser.Go.Bytes.{Bytes, lit, bytes_eq, bytes_eq_refl}
use vparser.Go.Decimal.{format_nat, max_int64, parse_int-format_nat}
use vparser.Mq.Headers.{
  Headers, Message, Decoded, header, header_attempt, header_not_before, header_first_error,
  positive_header, or_empty, decode_record, task_headers, first_error_header, truncate_bytes,
  max_first_error_bytes,
}

header_hit : (k v : Bytes) (hs : Headers) → header ((k, v) ∷ hs) k ≡ some v
unfolding header
header_hit k v hs = rw (bytes_eq_refl k)

header_miss :
    (k j v : Bytes) (hs : Headers) → bytes_eq k j ≡ false → header ((k, v) ∷ hs) j ≡ header hs j
unfolding header
header_miss k j v hs h = rw h

positive_header-format_nat :
    (n : ℕ) → 0 < n → n ≤ max_int64 → positive_header (some (format_nat n)) ≡ some n
unfolding positive_header
positive_header-format_nat n h fits = ground (arith, parse_int-format_nat n fits)

keys_differ :
    (bytes_eq header_attempt header_not_before ≡ false)
    × (bytes_eq header_attempt header_first_error ≡ false)
    × (bytes_eq header_not_before header_first_error ≡ false)
unfolding header_attempt header_not_before header_first_error lit bytes_eq
keys_differ = (refl, refl, refl)

first_error_back :
    (s : Bytes)
    → or_empty (header (first_error_header s ++ []) header_first_error)
      ≡ truncate_bytes s max_first_error_bytes
unfolding first_error_header
first_error_back [] = unfold header truncate_bytes in refl
first_error_back (c ∷ s) = ap or_empty (header_hit header_first_error _ [])

pub decode-attempt :
    (unmarshal : Bytes → Decoded) (rec : Message) (attempt due : ℕ) (first_error : Bytes)
    → 0 < attempt
    → attempt ≤ max_int64
    → let sent = record rec { headers = task_headers attempt (some due) first_error [] } in
      (decode_record unmarshal sent).attempt ≡ attempt
unfolding decode_record task_headers
decode-attempt unmarshal rec attempt due first_error a a' =
    rw (header_hit, positive_header-format_nat attempt a a') refl

-- The headers of a retry, read back by the next consumer: the attempt, the time before which it must
-- not run and the first error (cut to 512 bytes) are those that were put in, and so are the key and
-- the value. The attempt and the time are positive and fit in 64 bits.
pub decode-task_headers :
    (unmarshal : Bytes → Decoded) (rec : Message) (attempt due : ℕ) (first_error : Bytes)
    → 0 < attempt
    → attempt ≤ max_int64
    → 0 < due
    → due ≤ max_int64
    → let sent = record rec { headers = task_headers attempt (some due) first_error [] } in
      let d = decode_record unmarshal sent in
      (d.attempt ≡ attempt)
      × (d.not_before ≡ some due)
      × (d.first_error ≡ truncate_bytes first_error max_first_error_bytes)
      × (d.key ≡ rec.key)
      × (d.value ≡ rec.value)
unfolding decode_record task_headers
decode-task_headers unmarshal rec attempt due first_error a a' b b' =
    let (ab, ac, bc) = keys_differ in
    (
      rw (header_hit, positive_header-format_nat attempt a a'),
      rw (header_miss _ _ _ _ ab, header_hit, positive_header-format_nat due b b'),
      rw (header_miss _ _ _ _ ac, header_miss _ _ _ _ bc) (first_error_back first_error),
      refl,
      refl,
    )
