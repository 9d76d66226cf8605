-- ===== src/Upload/Instant/Protocol.antt =====
-- A challenge and its proofs, one after the other.
use vparser.Prelude.{
  ℕ, ◌+◌, ◌≡◌, ◌≢◌, sym, ◌∙◌, ◌≤◌, ◌<◌, refl, ap, Bool, true, false, Option, none, some, List,
  length, arith, ==_iff,
}
use vparser.Prelude.Int.{ℤ, pos, negsuc}
use vparser.Redis.{Link, up, down, executed}
use vparser.Go.Bytes.{Bytes, bytes_eq_iff}
use vparser.Go.Decimal.{
  format_int, format_nat, parse_int, format_int_injective, parse_int-format_nat, max_int64,
}
use vparser.Mq.Effects.{Answer, answer, error}
use vparser.TaskKeys.{is_md5}
use vparser.Upload.Instant.{
  Stored, Entry, Store, Copy, Challenge, ChallengeRequest, challenge, challenge_ttl,
  validate_challenge_request, source_of, size_of,
}
use vparser.Upload.Instant.Proof.{
  Calls, ProofRequest, prove, taken, parsed, locked, checked, live, piped, take_challenge,
  verify_range,
}
use vparser.Upload.Instant.Issued.{
  GivesBelow, challenge_range_bounds, IsIssued, challenge_for-IsIssued, valid_size,
}

module _ (md5 : Bytes → Bytes) where
  -- What a proof that succeeds has shown of its challenge.
  IsShown : Calls → ℤ → ProofRequest → Stored → Type 0
  IsShown a user req ch =
      (ch.user_id ≡ format_int user)
      × (offset : ℤ) × (n : ℕ) × (content : Bytes) × (parse_int ch.offset ≡ some offset)
      × (parse_int ch.length ≡ some (pos n))
      × (a.lock ≡ answer true)
      × (a.read_range ch.file_path offset (pos n) ≡ answer content)
      × (length content ≡ n)
      × (verify_range md5 content req.range_md5 ≡ true)

  checked-answer :
      (a : Calls) (user : ℤ) (s : Bytes) (ch : Stored) (n : ℕ) (r : Answer Bytes) (row : ℤ)
      → checked md5 a user s ch (pos n) r ≡ answer row
      → (content : Bytes) × (r ≡ answer content)
        × (length content ≡ n)
        × (verify_range md5 content s ≡ true)
  checked-answer a user s ch n (error e) row h = absurd (ground (arith, h))
  checked-answer a user s ch n (answer content) row h =
      (content, refl, ground (arith, h, ==_iff (length content) n), ground (arith, h))

  locked-answer :
      (a : Calls) (user : ℤ) (s : Bytes) (ch : Stored) (offset : ℤ) (n : ℕ) (r : Answer Bool)
      (row : ℤ)
      → locked md5 a user s ch offset (pos n) r ≡ answer row
      → (r ≡ answer true)
        × (checked md5 a user s ch (pos n) (a.read_range ch.file_path offset (pos n)) ≡ answer row)
  locked-answer a user s ch offset n (error e) row h = absurd (ground (arith, h))
  locked-answer a user s ch offset n (answer false) row h = absurd (ground (arith, h))
  locked-answer a user s ch offset n (answer true) row h = (refl, h)

  parsed-answer :
      (a : Calls) (user : ℤ) (s : Bytes) (ch : Stored) (o l : Option ℤ) (row : ℤ)
      → parsed md5 a user s ch o l ≡ answer row
      → (offset : ℤ) × (n : ℕ) × (o ≡ some offset)
        × (l ≡ some (pos n))
        × (locked md5 a user s ch offset (pos n) a.lock ≡ answer row)
  parsed-answer a user s ch none l row h = absurd (ground (arith, h))
  parsed-answer a user s ch (some offset) none row h = absurd (ground (arith, h))
  parsed-answer a user s ch (some offset) (some (negsuc n)) row h = absurd (ground (arith, h))
  parsed-answer a user s ch (some offset) (some (pos n)) row h =
      (offset, n, refl, refl, ground (arith, h))

  taken-IsShown :
      (a : Calls) (user : ℤ) (req : ProofRequest) (ch : Stored) (row : ℤ)
      → taken md5 a user req.range_md5 (answer ch) ≡ answer row
      → IsShown a user req ch
  unfolding IsShown
  taken-IsShown a user req ch row h =
      let s = req.range_md5 in
      let owned : ch.user_id ≡ format_int user =
        ground (arith, h, bytes_eq_iff ch.user_id (format_int user)) in
      let rest : parsed md5 a user s ch (parse_int ch.offset) (parse_int ch.length) ≡ answer row =
        ground (arith, h) in
      let (offset, n, o, l, more) =
        parsed-answer a user s ch (parse_int ch.offset) (parse_int ch.length) row rest in
      let (held, read) = locked-answer a user s ch offset n a.lock row more in
      let (content, there, size, fits) =
        checked-answer a user s ch n (a.read_range ch.file_path offset (pos n)) row read in
      (owned, offset, n, content, o, l, held, there, size, fits)

module _ (md5 : Bytes → Bytes) (valid_id : Bytes → Bool) where
  taken-answer :
      (a : Calls) (user : ℤ) (req : ProofRequest) (pipe : Link) (o : Option Stored) (row : ℤ)
      → taken md5 a user req.range_md5 (piped pipe o) ≡ answer row
      → (ch : Stored) × (o ≡ some ch) × IsShown md5 a user req ch
  taken-answer a user req (down done e) o row h = absurd (ground (arith, h))
  taken-answer a user req up none row h = absurd (ground (arith, h))
  taken-answer a user req up (some ch) row h = (ch, refl, taken-IsShown md5 a user req ch row h)

  prove-answer :
      (a : Calls) (user : ℤ) (req : ProofRequest) (s : Store) (row : ℤ)
      → (prove md5 valid_id a user req s).0 ≡ answer row
      → (ch : Stored) × (live a.now (s req.challenge_id) ≡ some ch) × IsShown md5 a user req ch
  unfolding prove take_challenge
  prove-answer a user req s row h =
      let now_there = live a.now (s req.challenge_id) in
      let rest : taken md5 a user req.range_md5 (piped a.pipe now_there) ≡ answer row =
        ground (arith, h) in
      taken-answer a user req a.pipe now_there row rest

  prove-Burns :
      (a : Calls) (user : ℤ) (req : ProofRequest) (s : Store)
      → is_md5 req.range_md5 ≡ true
      → valid_id req.challenge_id ≡ true
      → executed a.pipe ≡ true
      → (prove md5 valid_id a user req s).1 req.challenge_id ≡ none
  unfolding prove take_challenge
  prove-Burns a user req s hex id done =
      ground (arith, hex, id, done, bytes_eq_iff req.challenge_id req.challenge_id)

  -- A proof whose digest and challenge id are well formed, and whose transaction was executed:
  -- however it ended, no other proof of that challenge succeeds behind it.
  pub proof_burns :
      (a b : Calls) (user other : ℤ) (req again : ProofRequest) (s : Store) (row : ℤ)
      → is_md5 req.range_md5 ≡ true
      → valid_id req.challenge_id ≡ true
      → executed a.pipe ≡ true
      → again.challenge_id ≡ req.challenge_id
      → (prove md5 valid_id b other again (prove md5 valid_id a user req s).1).0 ≢ answer row
  proof_burns a b user other req again s row hex id done same h =
      let s1 = (prove md5 valid_id a user req s).1 in
      let (ch, there, shown) = prove-answer b other again s1 row h in
      let gone : s1 again.challenge_id ≡ none = rw same (prove-Burns a user req s hex id done) in
      absurd (ground (arith, rw gone at there))

  reads_back :
      (t : Bytes) (m : ℕ) (z : ℤ)
      → t ≡ format_nat m
      → m ≤ max_int64
      → parse_int t ≡ some z
      → z ≡ pos m
  reads_back t m z h fits e =
      let same = sym e ∙ (ap parse_int h ∙ parse_int-format_nat m fits) in ground (arith, same)

  live-some :
      (now : ℕ) (e : Entry) (ch : Stored)
      → live now (some e) ≡ some ch
      → (now < e.expires) × (e.stored ≡ ch)
  live-some now e ch h = (ground (arith, h), ground (arith, h))

  -- The random source gives a number below its bound, and the size fits in 64 bits: a proof of an
  -- issued challenge succeeds only for the user who was challenged, within two minutes, and with
  -- a digest that fits what the object store read of the challenged range, which is not empty and
  -- lies in the file, of the copy that was chosen.
  pub instant_earned :
      (rand_int : ℕ → Answer ℕ) (copies : Answer (List Copy)) (link : Link) (now : ℕ) (id : Bytes)
      (user other : ℤ) (raw : ChallengeRequest) (s s' : Store) (c : Challenge) (a : Calls)
      (req : ProofRequest) (row : ℤ)
      → GivesBelow rand_int
      → size_of raw.size ≤ max_int64
      → challenge rand_int copies link now id user raw s ≡ (answer (some c), s')
      → req.challenge_id ≡ c.challenge_id
      → (prove md5 valid_id a other req s').0 ≡ answer row
      → (other ≡ user)
        × (a.now < now + challenge_ttl)
        × (0 < c.length)
        × (c.offset + c.length ≤ size_of raw.size)
        × (cs : List Copy) × (copies ≡ answer cs)
        × (content : Bytes) × (a.read_range (source_of cs raw.size) (pos c.offset) (pos c.length)
            ≡ answer content)
        × (length content ≡ c.length)
        × (verify_range md5 content req.range_md5 ≡ true)
  unfolding challenge IsIssued IsShown
  instant_earned rand_int copies link now id user other raw s s' c a req row below fits h same
        proved =
      let (
        valid,
        is_valid,
        range,
        cs,
        is_copies,
        (e, there, named, expires, owner, offset, len, path),
      ) =
        challenge_for-IsIssued now id user s s' c link rand_int copies
          (validate_challenge_request raw) h in
      let (same_size, some_size) = valid_size raw valid is_valid in
      let (pos_len, small, inside) =
        challenge_range_bounds (size_of valid.size) rand_int c.offset c.length below
          (rw same_size some_size) range in
      let (ch, alive, shown) = prove-answer a other req s' row proved in
      let (in_time, stored) = live-some a.now e ch (rw (same, named, there) at alive) in
      let (mine, o, n, content, is_o, is_n, held, read, size, shows) = shown in
      let end_fits : c.offset + c.length ≤ max_int64 =
        omega (arith, inside, ap size_of same_size, fits) in
      let o_is : o ≡ pos c.offset =
        reads_back ch.offset c.offset o (sym (ap (λ x. x.offset) stored) ∙ offset)
          (omega (arith, end_fits)) is_o in
      let n_pos : pos n ≡ pos c.length =
        reads_back ch.length c.length (pos n) (sym (ap (λ x. x.length) stored) ∙ len)
          (omega (arith, end_fits)) is_n in
      let n_is : n ≡ c.length = ground (arith, n_pos) in
      (
        format_int_injective other user (sym mine ∙ (sym (ap (λ x. x.user_id) stored) ∙ owner)),
        rw (sym expires) in_time,
        pos_len,
        rw (sym same_size) inside,
        cs,
        is_copies,
        content,
        rw (sym o_is, sym n_is, sym same_size, sym path, stored) read,
        size ∙ n_is,
        shows,
      )
