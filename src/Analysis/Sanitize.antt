-- ===== src/Analysis/Sanitize.antt =====
-- `truncateUTF16` and `SanitizeError` of server-go/internal/analysis/failedtask.go. The three
-- replacements of secrets by regular expressions are one parameter.
use vparser.Prelude.{ℕ, zero, suc, ◌-◌, [], ◌∷◌, ltb, leb, ◌==◌, if◌then◌else◌}
use vparser.Go.Bytes.{Bytes}
use vparser.Go.Text.{sequence_length, utf16_length}

-- Copies the `k` bytes that are left of a character, and then characters while `room` units are
-- left; a byte that belongs to none is written as U+FFFD.
truncate_from : ℕ → ℕ → Bytes → Bytes
truncate_from k room [] = []
truncate_from (suc k) room (b ∷ s) = b ∷ truncate_from k room s
truncate_from zero room (b ∷ s) =
    let w = sequence_length (b ∷ s) in
    let units = if w == 4 then 2 else 1 in
    let broken = 0xEF ∷ 0xBF ∷ 0xBD ∷ truncate_from zero (room - units) s in
    let copied = b ∷ truncate_from (w - 1) (room - units) s in
    if ltb room units then [] else if w == 0 then broken else copied

unfoldable pub truncate_utf16 : Bytes → ℕ → Bytes
unfolding truncate_from
truncate_utf16 s max_len = if leb (utf16_length s) max_len then s else truncate_from zero max_len s

-- `SanitizeError`.
unfoldable pub sanitize_error : (Bytes → Bytes) → Bytes → Bytes
sanitize_error mask value = truncate_utf16 (mask value) 1000
