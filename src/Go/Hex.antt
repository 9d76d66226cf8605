-- ===== src/Go/Hex.antt =====
-- `hex.DecodeString`.
use vparser.Prelude.{ℕ, ◌+◌, ◌-◌, ◌*◌, ◌&&◌, Option, none, some, [], ◌∷◌, leb, if◌then◌else◌}
use vparser.Go.Bytes.{Bytes}

abbrev nibble : ℕ → Option ℕ
nibble c =
    if leb b'0' c && leb c b'9'
    then some (c - b'0')
    else if leb b'a' c && leb c b'f'
    then some (c - 87)
    else if leb b'A' c && leb c b'F'
    then some (c - 55)
    else none

abbrev pair : Option ℕ → Option ℕ → Option Bytes → Option Bytes
pair (some h) (some l) (some s) = some ((h * 16 + l) ∷ s)
pair h l s = none

unfoldable pub hex_decode : Bytes → Option Bytes
hex_decode [] = some []
hex_decode (c ∷ []) = none
hex_decode (c ∷ d ∷ s) = pair (nibble c) (nibble d) (hex_decode s)
