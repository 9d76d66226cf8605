-- ===== src/Tests/Errors.antt =====
-- server-go/internal/common/errors.go at concrete chains.
use vparser.Prelude.{[], ◌∷◌}
use vparser.Go.Bytes.{lit}
use vparser.Errors.{Error, Kind, plain, of_kind}

abbrev missing : Error
missing = of_kind Kind.not_found (lit "media") (plain (lit "no rows") ∷ [])
