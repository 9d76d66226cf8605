-- ===== src/TaskKeys.antt =====
-- server-go/internal/taskkeys/taskkeys.go: goal digests and the keys that both services share.
-- `sha256Hex` is a parameter, since the hash is the standard library's.
pub mod Separation
pub mod Collision
use mathlib.Core.List.{reverse}
use vparser.Prelude.{
  ℕ, ◌+◌, ◌≡◌, Bool, true, false, ◌&&◌, ◌||◌, Option, none, some, List, [], ◌∷◌, ◌++◌, ltb, leb,
  ◌==◌, length, map, if◌then◌else◌,
}
use vparser.Prelude.Int.{ℤ}
use vparser.Go.Bytes.{Bytes, lit}
use vparser.Go.Decimal.{format_int}
use vparser.Go.Text.{is_blank}
use vparser.Errors.{Error, Kind, of_kind}
use vparser.Model.{Mode, mode_name}

abbrev is_hex : ℕ → Bool
is_hex c = (leb b'a' c && leb c b'f') || ((leb b'A' c && leb c b'F') || (leb b'0' c && leb c b'9'))

all_hex : Bytes → Bool
all_hex [] = true
all_hex (c ∷ s) = is_hex c && all_hex s

-- `md5Pattern`: 32 hexadecimal digits.
unfoldable pub is_md5 : Bytes → Bool
unfolding all_hex
is_md5 s = length s == 32 && all_hex s

-- `strings.ToLower` of hexadecimal digits.
abbrev lower : ℕ → ℕ
lower c = if leb b'A' c && leb c b'Z' then c + 32 else c

to_lower : Bytes → Bytes
to_lower [] = []
to_lower (c ∷ s) = lower c ∷ to_lower s

unfoldable pub normalize_content_hash : ℤ → Bytes → Bytes
unfolding to_lower
normalize_content_hash media_id content_hash =
    if is_md5 content_hash then to_lower content_hash else lit "media-" ++ format_int media_id

drop_control : Bytes → Bytes
drop_control [] = []
drop_control (c ∷ s) = let rest = drop_control s in if leb c 0x20 then rest else c ∷ s

-- Both ends lose the code points up to U+0020.
unfoldable pub trim_control : Bytes → Bytes
unfolding drop_control
trim_control s = reverse (drop_control (reverse (drop_control s)))

unfoldable pub unit_separator : Bytes
unit_separator = lit "␟"

pub data Digest : Type 0 where
  digest : Bytes → Digest
  invalid : Error → Digest

-- The text that is hashed.
unfoldable pub digest_text : Bytes → Mode → Bytes
digest_text goal Mode.unset = trim_control goal
digest_text goal Mode.general = trim_control goal
digest_text goal m = mode_name m ++ (unit_separator ++ trim_control goal)

module _ (sha256_hex : Bytes → Bytes) where
  unfoldable pub goal_digest : Bytes → Mode → Digest
  goal_digest goal m =
      if is_blank goal
      then invalid (of_kind Kind.invalid_argument (lit "analysis goal is required") [])
      else digest (sha256_hex (digest_text goal m))

unfoldable pub active : Bytes → Bytes → Bytes
active content_hash d = lit "analysis:active:" ++ (content_hash ++ (lit ":" ++ d))

unfoldable pub lock : Bytes → Bytes → Bytes
lock content_hash d = lit "lock:analysis:" ++ (content_hash ++ (lit ":" ++ d))

unfoldable pub completed : Bytes → Bytes → Bytes
completed scope d = lit "analysis:completed:" ++ (scope ++ (lit ":" ++ d))

unfoldable pub context_owner : Bytes → Bytes
context_owner content_hash = lit "analysis:context-owner:" ++ content_hash

unfoldable pub context_lock : Bytes → Bytes
context_lock content_hash = lit "lock:analysis-context:" ++ content_hash
