-- ===== src/Upload/Outcomes.antt =====
-- The ways that a completion can go.
use vparser.Prelude.{
  ℕ, ◌≡◌, refl, Bool, true, false, not, Option, none, some, List, Bool-cases, Option-cases, inl,
  inr,
}
use vparser.Prelude.Int.{ℤ}
use vparser.Redis.{Link, up, down, applied}
use vparser.Go.Bytes.{Bytes}
use vparser.Go.Decimal.{parse_int}
use vparser.Mq.Effects.{Answer, answer, error}
use vparser.Upload.{Meta, World, require_upload, uploaded_chunks}
use vparser.Upload.Complete.{
  Calls, complete, asked, fresh, merge_all, of_marker, with_meta, with_total, with_parts, with_lock,
  counted,
}

-- A world that a completion leaves is the one before, or the one behind a merge.
module _ {ℓ} (P : World → Type ℓ) (a : Calls) (user : ℤ) where
  -- A merge of whatever hash.
  abbrev pub Merges : World → Type ℓ
  Merges w = (n : ℕ) (m : Meta) → P (merge_all a n user m w).1

  with_parts-cases :
      (m : Meta) (w : World) (total : ℤ) (r : Answer (List ℤ))
      → P w
      → Merges w
      → P (with_parts a user m w total r).1
  with_parts-cases m w total (error e) p q = p
  with_parts-cases m w total (answer parts) p q = elim (Option-cases (counted total parts)) [
    | inl none_counted ↦ rw (none_counted, with_parts) p
    | inr (n, all) ↦ rw (all, with_parts) (q n m)
  ]

  module _ (valid_id : Bytes → Bool) (id : Bytes) where
    with_total-cases :
        (m : Meta) (w : World) (total : Option ℤ)
        → P w
        → Merges w
        → P (with_total valid_id id a user m w total).1
    with_total-cases m w none p q = p
    with_total-cases m w (some total) p q =
        with_parts-cases m w total (uploaded_chunks valid_id id a.reads user w) p q

    with_meta-cases :
        (w : World) (r : Answer Meta) → P w → Merges w → P (with_meta valid_id id a user w r).1
    with_meta-cases w (error e) p q = p
    with_meta-cases w (answer m) p q = with_total-cases m w (parse_int m.total_chunks) p q

    fresh-cases : (w : World) → P w → Merges w → P (fresh valid_id id a user w).1
    unfolding fresh
    fresh-cases w p q = with_meta-cases w (require_upload valid_id id a.reads.meta user w) p q

    of_marker-cases :
        (w : World) (v : Option Bytes)
        → P w
        → (v ≡ none → Merges w)
        → ((s : Bytes)
            → v ≡ some s
            → parse_int s ≡ none
            → P (applied a.drop w (record w { completed = none }))
              × Merges (applied a.drop w (record w { completed = none })))
        → P (of_marker valid_id id a user w v).1
    of_marker-cases w none p q r = fresh-cases w p (q refl)
    of_marker-cases w (some s) p q r = elim (Option-cases (parse_int s)) [
      | inl bad ↦ let (p', q') = r s refl bad in rw (bad, of_marker) (fresh-cases _ p' q')
      | inr (n, good) ↦ rw (good, of_marker) p
    ]

    module _ (w : World) (p : P w) (q : w.completed ≡ none → Merges w)
        (r : (s : Bytes)
          → w.completed ≡ some s
          → parse_int s ≡ none
          → P (applied a.drop w (record w { completed = none }))
            × Merges (applied a.drop w (record w { completed = none }))) where
      asked-cases : (link : Link) → P (asked valid_id id link a user w).1
      asked-cases up = of_marker-cases w w.completed p q r
      asked-cases (down executed e) = p

      with_lock-cases : (o : Answer Bool) → P (with_lock valid_id id a user w o).1
      with_lock-cases (error e) = p
      with_lock-cases (answer true) = asked-cases a.marker
      with_lock-cases (answer false) = p

      pub complete-cases : P (complete valid_id id a user w).1
      unfolding complete
      complete-cases = elim (Bool-cases (not (valid_id id))) [
        | inl bad ↦ rw bad p
        | inr good ↦ rw good (with_lock-cases a.lock)
      ]
