-- ===== src/TaskKeys/Separation.antt =====
-- Different tasks get different keys, as far as the hash separates what it is given.
use vparser.Prelude.{
  ◌≡◌, ◌≢◌, refl, ◌∙◌, sym, inl, inr, true, false, [], ◌∷◌, ◌++◌, arith, All, All-append,
  Bool-cases,
}
use vparser.Prelude.Int.{ℤ}
use vparser.Go.Bytes.{Bytes, lit, append_cancel_left}
use vparser.Go.Decimal.{format_int, format_int-Lacks}
use vparser.Go.Text.{is_blank}
use vparser.Model.{Mode, mode_name}
use vparser.TaskKeys.{
  is_md5, all_hex, to_lower, normalize_content_hash, trim_control, unit_separator, digest,
  digest_text, goal_digest, active,
}

abbrev pub LacksColon : Bytes → Type 0
LacksColon = All (λ c. c ≢ b':')

to_lower-Lacks : (s : Bytes) → all_hex s ≡ true → LacksColon (to_lower s)
unfolding to_lower all_hex
to_lower-Lacks [] h = tt
to_lower-Lacks (c ∷ s) h = ground (arith, to_lower-Lacks s)

normalize-Lacks : (id : ℤ) (h : Bytes) → LacksColon (normalize_content_hash id h)
unfolding normalize_content_hash is_md5 lit
normalize-Lacks id h = elim (Bool-cases (is_md5 h)) [
  | inl md5 ↦ rw md5 (to_lower-Lacks h (ground arith))
  | inr other ↦ rw other (
      All-append _ (lit "media-") (format_int id) (omega arith)
        (format_int-Lacks b':' id (inr (omega arith))))
]

pub colon_splits :
    (a b c d : Bytes)
    → LacksColon a
    → LacksColon b
    → a ++ b':' ∷ c ≡ b ++ b':' ∷ d
    → (a ≡ b) × (c ≡ d)
colon_splits [] [] c d h k e = (refl, append_cancel_left (b':' ∷ []) e)
colon_splits [] (y ∷ b) c d h k e = absurd (ground (arith, e))
colon_splits (x ∷ a) [] c d h k e = absurd (ground (arith, e))
colon_splits (x ∷ a) (y ∷ b) c d (hx, h) (ky, k) e =
    let (same, rest) = colon_splits a b c d h k (cc e) in (cc (e, same), rest)

active-lit : (a d : Bytes) → active a d ≡ lit "analysis:active:" ++ (a ++ b':' ∷ d)
unfolding active lit
active-lit a d = refl

-- Two active keys of normalized content hashes agree only if the hashes and the digests do.
pub active_separates :
    (id id' : ℤ) (h h' d d' : Bytes)
    → active (normalize_content_hash id h) d ≡ active (normalize_content_hash id' h') d'
    → (normalize_content_hash id h ≡ normalize_content_hash id' h') × (d ≡ d')
active_separates id id' h h' d d' e =
    colon_splits _ _ d d' (normalize-Lacks id h) (normalize-Lacks id' h')
      (append_cancel_left (lit "analysis:active:") (sym (active-lit _ d) ∙ e ∙ active-lit _ d'))

-- Learning, review and creation; the other two modes hash the bare goal.
abbrev pub IsSpecific : Mode → Type 0
IsSpecific Mode.unset = ⊥
IsSpecific Mode.general = ⊥
IsSpecific m = Unit

prefix_separates :
    (m m' : Mode) (s t : Bytes)
    → IsSpecific m
    → IsSpecific m'
    → mode_name m ++ (unit_separator ++ s) ≡ mode_name m' ++ (unit_separator ++ t)
    → (m ≡ m') × (s ≡ t)
unfolding mode_name lit
prefix_separates Mode.unset m' s t h k e = absurd h
prefix_separates Mode.general m' s t h k e = absurd h
prefix_separates m Mode.unset s t h k e = absurd k
prefix_separates m Mode.general s t h k e = absurd k
prefix_separates Mode.learning Mode.learning s t h k e =
    (refl, append_cancel_left (lit "LEARNING" ++ unit_separator) e)
prefix_separates Mode.review Mode.review s t h k e =
    (refl, append_cancel_left (lit "REVIEW" ++ unit_separator) e)
prefix_separates Mode.creation Mode.creation s t h k e =
    (refl, append_cancel_left (lit "CREATION" ++ unit_separator) e)
prefix_separates Mode.learning Mode.review s t h k e = absurd (cc e)
prefix_separates _ _ s t h k e = absurd (cc e)

digest_text-specific :
    (g : Bytes) (m : Mode)
    → IsSpecific m
    → digest_text g m ≡ mode_name m ++ (unit_separator ++ trim_control g)
unfolding digest_text
digest_text-specific g Mode.unset h = absurd h
digest_text-specific g Mode.general h = absurd h
digest_text-specific g _ h = refl

goal_digest-text :
    (sha : Bytes → Bytes) (g d : Bytes) (m : Mode)
    → goal_digest sha g m ≡ digest d
    → (is_blank g ≡ false) × (sha (digest_text g m) ≡ d)
unfolding goal_digest
goal_digest-text sha g d m e = elim (Bool-cases (is_blank g)) [
  | inl blank ↦ absurd (ground (arith, blank, e))
  | inr text ↦ (text, ground (arith, text, e))
]

-- Two tasks in specific modes with one digest have one mode and one goal, up to control characters
-- and spaces at the ends, if the hash does not map the two texts to one value; and their goals are
-- not blank.
pub digest_separates :
    (sha : Bytes → Bytes) (g g' d : Bytes) (m m' : Mode)
    → IsSpecific m
    → IsSpecific m'
    → (sha (digest_text g m) ≡ sha (digest_text g' m') → digest_text g m ≡ digest_text g' m')
    → goal_digest sha g m ≡ digest d
    → goal_digest sha g' m' ≡ digest d
    → (m ≡ m') × (trim_control g ≡ trim_control g') × (is_blank g ≡ false)
digest_separates sha g g' d m m' h h' apart e e' =
    let (text, hashed) = goal_digest-text sha g d m e in
    let (text', hashed') = goal_digest-text sha g' d m' e' in
    let (mode, goal) = prefix_separates m m' _ _ h h' (
      sym (digest_text-specific g m h)
      ∙ apart (hashed ∙ sym hashed')
      ∙ digest_text-specific g' m' h') in
    (mode, goal, text)
