-- ===== src/Upload/Instant/Issued.antt =====
-- What `Challenge` leaves in the store.
use vparser.Prelude.{ℕ, ◌+◌, ◌-◌, ◌≡◌, sym, ◌≤◌, ◌<◌, refl, ap, some, List, min, arith}
use vparser.Prelude.Int.{ℤ}
use vparser.Redis.{Link, up, down}
use vparser.Go.Bytes.{Bytes, bytes_eq_iff}
use vparser.Go.Decimal.{format_int, format_nat}
use vparser.Mq.Effects.{Answer, answer, error}
use vparser.Upload.Instant.{
  Entry, Store, Copy, Challenge, ChallengeRequest, challenge_range, challenge_ttl,
  validate_challenge_request, source_of, max_challenge_bytes, size_of, put, stored_for,
  challenge_for, issue,
}

-- The random source gives a number below its bound.
abbrev pub GivesBelow : (ℕ → Answer ℕ) → Type 0
GivesBelow rand_int = (n k : ℕ) → rand_int n ≡ answer k → k < n

-- A range to prove is not empty, at most one mebibyte, and ends in the file.
pub challenge_range_bounds :
    (size : ℕ) (rand_int : ℕ → Answer ℕ) (offset len : ℕ)
    → GivesBelow rand_int
    → 0 < size
    → challenge_range size rand_int ≡ answer (offset, len)
    → (0 < len) × (len ≤ max_challenge_bytes) × (offset + len ≤ size)
unfolding challenge_range
challenge_range_bounds size rand_int offset len below h e =
    let len' = min size max_challenge_bytes in ground (arith, below (size - len' + 1) offset)

-- What the store holds of a challenge that was issued.
unfoldable pub IsIssued : ℕ → ℤ → Bytes → Bytes → Store → Challenge → Type 0
IsIssued now user id source s' c =
    (e : Entry) × (s' id ≡ some e)
    × (c.challenge_id ≡ id)
    × (e.expires ≡ now + challenge_ttl)
    × (e.stored.user_id ≡ format_int user)
    × (e.stored.offset ≡ format_nat c.offset)
    × (e.stored.length ≡ format_nat c.length)
    × (e.stored.file_path ≡ source)

module _ (now : ℕ) (id : Bytes) (user : ℤ) (s s' : Store) (c : Challenge) where
  issue-IsIssued :
      (link : Link) (req : ChallengeRequest) (source : Bytes) (r : Answer (ℕ × ℕ))
      → issue link now id user req source s r ≡ (answer (some c), s')
      → (r ≡ answer (c.offset, c.length)) × IsIssued now user id source s' c
  unfolding IsIssued
  issue-IsIssued link req source (error e) h = absurd (ground (arith, h))
  issue-IsIssued (down done e) req source (answer (offset, len)) h = absurd (ground (arith, h))
  issue-IsIssued up req source (answer (offset, len)) h =
      let stored = stored_for user req source offset len in
      let entry : Entry = record { stored = stored; expires = now + challenge_ttl } in
      let at_id : s' id ≡ put s id (some entry) id = ap (λ p. p.1 id) (sym h) in
      let there : s' id ≡ some entry = ground (arith, at_id, bytes_eq_iff id id) in
      let c_offset : offset ≡ c.offset = ground (arith, h) in
      let c_length : len ≡ c.length = ground (arith, h) in
      (
        ground (arith, c_offset, c_length),
        (
          entry,
          there,
          ground (arith, h),
          refl,
          refl,
          ap format_nat c_offset,
          ap format_nat c_length,
          refl,
        ),
      )

  pub challenge_for-IsIssued :
      (link : Link) (rand_int : ℕ → Answer ℕ) (copies : Answer (List Copy))
      (r : Answer ChallengeRequest)
      → challenge_for rand_int copies link now id user s r ≡ (answer (some c), s')
      → (req : ChallengeRequest) × (r ≡ answer req)
        × (challenge_range (size_of req.size) rand_int ≡ answer (c.offset, c.length))
        × (cs : List Copy) × (copies ≡ answer cs)
        × IsIssued now user id (source_of cs req.size) s' c
  challenge_for-IsIssued link rand_int copies (error e) h = absurd (ground (arith, h))
  challenge_for-IsIssued link rand_int (error e) (answer req) h = absurd (ground (arith, h))
  challenge_for-IsIssued link rand_int (answer copies) (answer req) h =
      let source = source_of copies req.size in
      let rest : issue link now id user req source s (challenge_range (size_of req.size) rand_int)
          ≡ (answer (some c), s') =
        ground (arith, h) in
      let (range, issued) =
        issue-IsIssued link req source (challenge_range (size_of req.size) rand_int) rest in
      (req, refl, range, copies, refl, issued)

pub valid_size :
    (raw req : ChallengeRequest)
    → validate_challenge_request raw ≡ answer req
    → (req.size ≡ raw.size) × (0 < size_of raw.size)
unfolding validate_challenge_request
valid_size raw req h = (ground (arith, h), ground (arith, h))
