-- ===== src/Tests/Tasks.antt =====
-- The names and the keys of tasks at concrete values.
use vparser.Prelude.{◌≡◌, refl}
use vparser.Prelude.Int.{pos}
use vparser.Go.Bytes.{Bytes, lit}
use vparser.Go.Text.{is_blank}
use vparser.Model.{Mode}
use vparser.TaskKeys.{
  normalize_content_hash, trim_control, digest_text, digest, goal_digest, active, is_md5,
}

same_key :
    active (normalize_content_hash (pos 1) (lit "x")) (lit "d")
    ≡ active (normalize_content_hash (pos 1) (lit "y")) (lit "d")
unfolding normalize_content_hash lit is_md5
same_key = refl

abbrev identity : Bytes → Bytes
identity s = s

abbrev padded : Bytes
padded = lit " find the recipe "

abbrev learning_digest : Bytes
learning_digest = digest_text (lit "find the recipe") Mode.learning

padded-digest : goal_digest identity padded Mode.learning ≡ digest learning_digest
unfolding goal_digest digest_text is_blank lit trim_control
padded-digest = refl

plain_digest : goal_digest identity (lit "find the recipe") Mode.learning ≡ digest learning_digest
unfolding goal_digest digest_text is_blank lit
plain_digest = refl
