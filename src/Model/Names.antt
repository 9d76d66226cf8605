-- ===== src/Model/Names.antt =====
-- The names of modes and stages are read back.
use vparser.Prelude.{◌≡◌, refl}
use vparser.Go.Bytes.{lit, bytes_eq}
use vparser.Go.Text.{trim_space, is_blank}
use vparser.Model.{
  Mode, mode_name, valid_mode, mode_from_nullable, mode_from_request, parsed, resolve, Stage,
  stage_name, stage_from,
}

-- Every stage is read back from its name, so the list of `init` misses none.
pub stage_from-stage_name : (s : Stage) → stage_from (stage_name s) ≡ s
unfolding stage_from is_blank bytes_eq lit
stage_from-stage_name Stage.unknown = refl
stage_from-stage_name _ = refl

-- Every mode is read back from its name; the empty name is read as the general mode.
pub mode_from_nullable-mode_name :
    (m : Mode)
    → (mode_from_nullable (mode_name m) ≡ resolve m)
      × (mode_from_request (mode_name m) ≡ parsed (resolve m))
unfolding mode_from_nullable mode_from_request resolve valid_mode trim_space is_blank bytes_eq lit
mode_from_nullable-mode_name Mode.unset = (refl, refl)
mode_from_nullable-mode_name _ = (refl, refl)
