-- ===== src/Tests/Instant.antt =====
-- server-go/internal/upload/instant.go at concrete inputs.
use vparser.Prelude.{
  ℕ, ◌+◌, ◌≤◌, ◌<◌, ◌≡◌, ◌≢◌, refl, Bool, true, Option, none, some, List, [], ◌∷◌, arith, length,
}
use vparser.Prelude.Int.{pos}
use vparser.Redis.{up}
use vparser.Go.Bytes.{Bytes, lit, bytes_eq}
use vparser.Go.Decimal.{format_nat, format_int, parse_int}
use vparser.Go.Hex.{hex_decode}
use vparser.Go.Text.{is_blank, utf16_length}
use vparser.Errors.{Kind, of_kind}
use vparser.Mq.Effects.{Answer, answer, error}
use vparser.TaskKeys.{is_md5}
use vparser.Media.Filename.{normalize_video_filename}
use vparser.Upload.Instant.{Copy, Store, Challenge, ChallengeRequest, challenge, challenge_ttl}
use vparser.Upload.Instant.Proof.{Calls, ProofRequest, prove, verify_range}
use vparser.Upload.Instant.Protocol.{instant_earned, proof_burns}

abbrev any_id : Bytes → Bool
any_id id = true

abbrev film : ChallengeRequest
film = record {
  md5 = lit "0123456789abcdef0123456789abcdef";
  size = pos 4;
  filename = lit "clip.mp4";
}

abbrev copies : List Copy
copies =
    record { file_path = lit "/bucket/1.mp4"; managed = true; object_size = answer (pos 4) } ∷ []

abbrev no_challenges : Store
no_challenges id = none

abbrev draw : ℕ → Answer ℕ
draw n = error (of_kind Kind.internal (lit "no entropy") [])

abbrev issued : Answer (Option Challenge) × Store
issued = challenge draw (answer copies) up 100 (lit "c") (pos 7) film no_challenges

-- A digest that is always the same.
abbrev sum : Bytes → Bytes
sum s = lit "0000000000000000"

abbrev proof : ProofRequest
proof = record { challenge_id = lit "c"; range_md5 = lit "30303030303030303030303030303030" }

abbrev proving : Calls
proving = record {
  pipe = up;
  now = 200;
  lock = answer true;
  read_range = λ path offset n. answer (lit "abcd");
  save_reference = λ name path user md5. answer (pos 5);
}

abbrev the_challenge : Challenge
the_challenge = record { challenge_id = lit "c"; offset = 0; length = 4 }

challenged_issued : issued ≡ (answer (some the_challenge), issued.1)
unfolding challenge is_md5 lit normalize_video_filename is_blank utf16_length bytes_eq
challenged_issued = refl

proved : (prove sum any_id proving (pos 7) proof issued.1).0 ≡ answer (pos 5)
unfolding prove is_md5 lit challenge normalize_video_filename is_blank utf16_length bytes_eq
    format_int format_nat parse_int hex_decode
proved = refl

instant_earned_example :
    (pos 7 ≡ pos 7)
    × (200 < 100 + challenge_ttl)
    × (0 < 4)
    × (0 + 4 ≤ 4)
    × (cs : List Copy) × (answer copies ≡ answer cs)
    × (content : Bytes) × (answer (lit "abcd") ≡ answer content)
    × (length content ≡ 4)
    × (verify_range sum content proof.range_md5 ≡ true)
instant_earned_example =
    instant_earned sum any_id draw (answer copies) up 100 (lit "c") (pos 7) (pos 7) film
      no_challenges issued.1 the_challenge proving proof (pos 5)
      (λ n k h. absurd (ground (arith, h))) (omega arith) challenged_issued refl proved

abbrev wrong_guess : ProofRequest
wrong_guess = record { challenge_id = lit "c"; range_md5 = lit "00000000000000000000000000000000" }

is_hex : is_md5 wrong_guess.range_md5 ≡ true
unfolding is_md5 lit
is_hex = refl

proof_burns_example :
    (prove sum any_id proving
      (pos 7)
      proof
      (prove sum any_id proving (pos 7) wrong_guess issued.1).1).0
    ≢ answer (pos 5)
proof_burns_example =
    proof_burns sum any_id proving proving (pos 7) (pos 7) wrong_guess proof issued.1 (pos 5) is_hex
      refl refl refl
