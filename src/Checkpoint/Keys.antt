-- ===== src/Checkpoint/Keys.antt =====
-- Different goals have different keys and rows.
use mathlib.Core.List.{append_cancel_right}
use vparser.Prelude.{
  ◌≡◌, ◌≢◌, refl, ◌∙◌, sym, ap, ap₂, subst, inr, Bool, true, false, ◌&&◌, [], ◌∷◌, ◌++◌, arith,
  append_assoc,
}
use vparser.Prelude.Int.{ℤ, int_eq, int_eq_iff}
use vparser.Go.Bytes.{Bytes, lit, bytes_eq, bytes_eq_iff, append_cancel_left}
use vparser.Go.Decimal.{format_int, format_int-Lacks, format_int_injective}
use vparser.TaskKeys.Separation.{LacksColon, colon_splits}
use vparser.Checkpoint.{media_key, goal_key, goal_checkpoint, stage_row}
use vparser.Checkpoint.Context.{context_row, media_stage_row}

number-Lacks : (id : ℤ) → LacksColon (format_int id)
number-Lacks id = format_int-Lacks b':' id (inr (omega arith))

goal_key-split :
    (id : ℤ) (d : Bytes)
    → goal_key id d ≡ lit "agent:checkpoint:" ++ (format_int id ++ b':' ∷ (lit "goal:" ++ d))
unfolding goal_key media_key lit
goal_key-split id d = append_assoc (lit "agent:checkpoint:") (format_int id) (lit ":goal:" ++ d)

goal_key_injective :
    (id id' : ℤ) (d d' : Bytes) → goal_key id d ≡ goal_key id' d' → (id ≡ id') × (d ≡ d')
goal_key_injective id id' d d' e =
    let (number, rest) =
      colon_splits (format_int id) (format_int id') (lit "goal:" ++ d) (lit "goal:" ++ d')
        (number-Lacks id) (number-Lacks id')
        (append_cancel_left (lit "agent:checkpoint:")
          (sym (goal_key-split id d) ∙ e ∙ goal_key-split id' d')) in
    (format_int_injective id id' number, append_cancel_left (lit "goal:") rest)

-- Tests that are true together are equal.
same_tests : (a b : Bool) → (a ≡ true → b ≡ true) → (b ≡ true → a ≡ true) → a ≡ b
same_tests a b f g = ground arith

pub goal_key_same :
    (id id' : ℤ) (d d' : Bytes)
    → bytes_eq (goal_key id d) (goal_key id' d') ≡ (int_eq id id' && bytes_eq d d')
goal_key_same id id' d d' =
    same_tests _ _
      (λ same.
        let (number, digests) =
          goal_key_injective id id' d d'
            ((bytes_eq_iff (goal_key id d) (goal_key id' d')).0 same) in
        ground (arith, number, digests, int_eq_iff id id', bytes_eq_iff d d'))
      (λ same.
        let number : id ≡ id' = ground (arith, same, int_eq_iff id id') in
        let digests : d ≡ d' = ground (arith, same, bytes_eq_iff d d') in
        (bytes_eq_iff (goal_key id d) (goal_key id' d')).1 (ap₂ goal_key number digests))

has_colon : (s t : Bytes) → LacksColon (s ++ b':' ∷ t) → ⊥
has_colon [] t (h, _) = h refl
has_colon (c ∷ s) t (_, h) = has_colon s t h

-- No goal's hash is that of a media.
goal_key-ne : (id id' : ℤ) (d : Bytes) → goal_key id d ≢ media_key id'
unfolding media_key
goal_key-ne id id' d e =
    let same = append_cancel_left (lit "agent:checkpoint:") (sym (goal_key-split id d) ∙ e) in
    has_colon (format_int id) (lit "goal:" ++ d) (subst LacksColon (sym same) (number-Lacks id'))

pub goal_key-media_key : (id id' : ℤ) (d : Bytes) → bytes_eq (goal_key id d) (media_key id') ≡ false
goal_key-media_key id id' d =
    ground (arith, bytes_eq_iff (goal_key id d) (media_key id'), goal_key-ne id id' d)

row_injective : (d d' : Bytes) → stage_row d ≡ stage_row d' → d ≡ d'
unfolding goal_checkpoint
row_injective d d' e =
    append_cancel_right d d' (b':' ∷ lit "stage") (append_cancel_left (lit "goal:") e)

pub stage_row_same : (d d' : Bytes) → bytes_eq (stage_row d) (stage_row d') ≡ bytes_eq d d'
stage_row_same d d' =
    same_tests _ _ (λ same. (bytes_eq_iff d d').1 (row_injective d d' ((bytes_eq_iff _ _).0 same)))
      (λ same. (bytes_eq_iff _ _).1 (ap stage_row ((bytes_eq_iff d d').0 same)))

-- No goal's row is one of a media.
pub stage_row-media :
    (d : Bytes)
    → (bytes_eq (stage_row d) context_row ≡ false)
      × (bytes_eq (stage_row d) media_stage_row ≡ false)
unfolding goal_checkpoint lit bytes_eq
stage_row-media d = (refl, refl)
