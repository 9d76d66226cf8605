-- ===== src/TaskKeys/Collision.antt =====
-- A general goal may be spelled like a task in another mode.
use vparser.Prelude.{ℕ, ◌≡◌, refl, ◌∙◌, sym, ap, inl, inr, false, [], ◌∷◌, ◌++◌, leb, Bool-cases}
use mathlib.Core.List.{reverse, reverse-append, reverse-reverse}
use vparser.Go.Bytes.{Bytes, lit}
use vparser.Model.{Mode, mode_name}
use vparser.TaskKeys.{drop_control, trim_control, unit_separator, digest_text}
use vparser.TaskKeys.Separation.{IsSpecific}

-- The string does not start with a control character or a space.
abbrev IsClean : Bytes → Type 0
IsClean [] = Unit
IsClean (c ∷ s) = leb c 0x20 ≡ false

drop_control-IsClean : (s : Bytes) → IsClean (drop_control s)
unfolding drop_control
drop_control-IsClean [] = tt
drop_control-IsClean (c ∷ s) = elim (Bool-cases (leb c 0x20)) [
  | inl control ↦ rw control (drop_control-IsClean s)
  | inr text ↦ rw text text
]

drop_control-clean : (s : Bytes) → IsClean s → drop_control s ≡ s
unfolding drop_control
drop_control-clean [] h = refl
drop_control-clean (c ∷ s) h = rw h

append-IsClean : (s t : Bytes) → IsClean s → IsClean t → IsClean (s ++ t)
append-IsClean [] t h k = k
append-IsClean (c ∷ s) t h k = h

-- A prefix with text at both ends protects what is trimmed already.
trim_control-append :
    (c : ℕ) (s g : Bytes)
    → leb c 0x20 ≡ false
    → IsClean (reverse (c ∷ s))
    → trim_control (c ∷ s ++ trim_control g) ≡ c ∷ s ++ trim_control g
unfolding trim_control
trim_control-append c s g h k =
    let y = drop_control (reverse (drop_control g)) in
    let clean =
      append-IsClean y (reverse (c ∷ s)) (drop_control-IsClean (reverse (drop_control g))) k in
    let turned : reverse (c ∷ s ++ reverse y) ≡ y ++ reverse (c ∷ s) =
      reverse-append (c ∷ s) (reverse y) ∙ ap (λ l. l ++ reverse (c ∷ s)) (reverse-reverse y) in
    ap (λ l. reverse (drop_control (reverse l))) (drop_control-clean (c ∷ s ++ reverse y) h)
    ∙ ap (λ l. reverse (drop_control l)) turned
    ∙ ap reverse (drop_control-clean (y ++ reverse (c ∷ s)) clean)
    ∙ ap reverse (sym turned)
    ∙ reverse-reverse (c ∷ s ++ reverse y)

-- For every goal in learning, review or creation mode there is a goal, the name of the mode with the
-- separator and the trimmed goal, that is hashed to the same text in general mode.
pub general_collides :
    (g : Bytes) (m : Mode)
    → IsSpecific m
    → digest_text (mode_name m ++ (unit_separator ++ trim_control g)) Mode.general ≡ digest_text g m
unfolding digest_text mode_name unit_separator lit
general_collides g Mode.unset h = absurd h
general_collides g Mode.general h = absurd h
general_collides g Mode.learning h =
    trim_control-append b'L' (lit "EARNING" ++ unit_separator) g refl refl
general_collides g Mode.review h =
    trim_control-append b'R' (lit "EVIEW" ++ unit_separator) g refl refl
general_collides g Mode.creation h =
    trim_control-append b'C' (lit "REATION" ++ unit_separator) g refl refl
