-- ===== src/Media/Filename.antt =====
-- `NormalizeVideoFilename`: a video's name without its directories.
use vparser.Prelude.{
  ℕ, zero, suc, ◌+◌, ◌≡◌, refl, Bool, true, false, ◌&&◌, ◌||◌, Option, none, some, [], ◌∷◌, ltb,
  leb, ◌==◌, if◌then◌else◌,
}
use vparser.Go.Bytes.{Bytes, lit, bytes_eq}
use vparser.Go.Text.{trim_space, is_blank, is_empty, utf16_length}
use vparser.Errors.{Kind, of_kind}
use vparser.Mq.Effects.{Answer, answer, error}

-- `strings.ReplaceAll(filename, "\\", "/")`.
abbrev with_slashes : Bytes → Bytes
with_slashes [] = []
with_slashes (c ∷ s) = (if c == b'\\' then b'/' else c) ∷ with_slashes s

-- What is behind the last `c`, if there is one.
unfoldable pub after_last : ℕ → Bytes → Option Bytes
after_last c [] = none
after_last c (b ∷ s) = elim (after_last c s) [
  | some t ↦ some t
  | none ↦ if b == c then some s else none
]

abbrev base_of : Bytes → Bytes
base_of s = elim (after_last b'/' s) [ none ↦ s | some t ↦ t ]

-- `fileSuffix`.
unfoldable pub file_suffix : Bytes → Bytes
unfolding after_last
file_suffix name = elim (after_last b'.' name) [ none ↦ [] | some t ↦ b'.' ∷ t ]

-- `strings.ToLower`, as far as it can give ASCII: of the other letters only the Kelvin sign and the
-- dotted capital I have an ASCII letter as their lower case.
abbrev starts : Bytes → Bytes → Bool
starts [] s = true
starts (b ∷ p) [] = false
starts (b ∷ p) (c ∷ s) = let rest = starts p s in b == c && rest

abbrev letter : Bytes → ℕ → ℕ
letter s c =
    if starts (0xE2 ∷ 0x84 ∷ 0xAA ∷ []) s
    then b'k'
    else if starts (0xC4 ∷ 0xB0 ∷ []) s
    then b'i'
    else if leb b'A' c && leb c b'Z'
    then c + 32
    else c

-- The bytes of a letter behind its first.
abbrev more : Bytes → ℕ
more s =
    if starts (0xE2 ∷ 0x84 ∷ 0xAA ∷ []) s then 2 else if starts (0xC4 ∷ 0xB0 ∷ []) s then 1 else 0

lower_from : ℕ → Bytes → Bytes
lower_from k [] = []
lower_from (suc k) (c ∷ s) = lower_from k s
lower_from zero (c ∷ s) = letter (c ∷ s) c ∷ lower_from (more (c ∷ s)) s

unfoldable pub to_lower : Bytes → Bytes
unfolding lower_from
to_lower s = lower_from 0 s

-- `videoSuffixes`.
unfoldable pub is_video_suffix : Bytes → Bool
is_video_suffix s =
    bytes_eq s (lit ".mp4")
    || (bytes_eq s (lit ".mov")
        || (bytes_eq s (lit ".mkv")
            || (bytes_eq s (lit ".avi") || (bytes_eq s (lit ".webm") || bytes_eq s (lit ".m4v")))))

abbrev invalid : Bytes → Answer Bytes
invalid text = error (of_kind Kind.invalid_argument text [])

unfoldable pub normalize_video_filename : Bytes → Answer Bytes
unfolding file_suffix to_lower is_video_suffix
normalize_video_filename filename =
    let n = trim_space (base_of (with_slashes filename)) in
    if is_blank filename
    then invalid (lit "视频文件名不能为空")
    else if is_empty n || ltb 255 (utf16_length n)
    then invalid (lit "视频文件名无效或过长")
    else if is_video_suffix (to_lower (file_suffix n))
    then answer n
    else invalid (lit "仅支持 MP4、MOV、MKV、AVI、WEBM 和 M4V 视频")

names :
    (normalize_video_filename (lit "C:\\clips\\a b.MP4 ") ≡ answer (lit "a b.MP4"))
    × (normalize_video_filename (lit "../x/.mkv") ≡ answer (lit ".mkv"))
    × (normalize_video_filename (lit "film.mKv") ≡ answer (lit "film.mKv"))
    × (normalize_video_filename (lit "a.txt") ≡ invalid (lit "仅支持 MP4、MOV、MKV、AVI、WEBM 和 M4V 视频"))
unfolding normalize_video_filename lit trim_space is_blank after_last bytes_eq utf16_length
    file_suffix to_lower is_video_suffix
names = (refl, refl, refl, refl)
