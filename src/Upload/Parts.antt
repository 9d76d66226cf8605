-- ===== src/Upload/Parts.antt =====
-- The parts of an upload are different indexes below the number of its chunks.
use vparser.Prelude.{
  ℕ, ◌<◌, ◌≡◌, refl, ap, subst, Bool, true, false, not, ◌||◌, Option, none, some, List, [], ◌∷◌,
  arith, ◌==◌, ltb, map, All, inl, inr, if◌then◌else◌, Bool-cases, Option-cases,
}
use vparser.Prelude.Int.{ℤ, pos, int_eq}
use vparser.Redis.{Link, up, down, applied}
use vparser.Go.Bytes.{Bytes, bytes_eq, bytes_eq_iff}
use vparser.Go.Decimal.{format_nat, parse_int, format_nat_injective}
use vparser.Errors.{Error}
use vparser.Mq.Effects.{Answer, answer, error}
use vparser.Upload.{
  Meta, World, Links, File, upload_chunk, require_upload, add_part, member, written, receive,
  opened, checked, accepted, index_of, max_chunk_bytes,
}

abbrev pub holds : ℕ → List ℕ → Bool
holds i [] = false
holds i (j ∷ js) = let rest = holds i js in i == j || rest

abbrev pub Distinct : List ℕ → Type 0
Distinct [] = Unit
Distinct (i ∷ is) = (holds i is ≡ false) × Distinct is

abbrev pub Below : ℕ → List ℕ → Type 0
Below n = All (λ i. i < n)

-- The parts are the indexes that were printed.
abbrev pub Sound : ℕ → List Bytes → Type 0
Sound n parts =
    (indexes : List ℕ) × (parts ≡ map format_nat indexes) × Distinct indexes × Below n indexes

same_index : (i j : ℕ) → bytes_eq (format_nat i) (format_nat j) ≡ (i == j)
same_index i j = ground (
  arith,
  bytes_eq_iff (format_nat i) (format_nat j),
  format_nat_injective i j,
  ap format_nat {x = i} {y = j},
)

pub member-format_nat :
    (i : ℕ) (js : List ℕ) → member (format_nat i) (map format_nat js) ≡ holds i js
member-format_nat i [] = refl
member-format_nat i (j ∷ js) = rw (same_index i j) (rw (member-format_nat i js) refl)

pub add_part-Sound :
    (n i : ℕ) (parts : List Bytes) → i < n → Sound n parts → Sound n (add_part (format_nat i) parts)
unfolding add_part
add_part-Sound n i parts small (indexes, same, distinct, below) =
    let known = member-format_nat i indexes in
    elim (Bool-cases (holds i indexes)) [
      | inl there ↦ (indexes, rw same (rw (known, member) (rw there refl)), distinct, below)
      | inr missing ↦
          (i ∷ indexes, rw same (rw known (rw missing refl)), (missing, distinct), (small, below))
    ]

index_of-below : (x : ℤ) (n i : ℕ) → index_of x (pos n) ≡ some i → i < n
index_of-below x n i h = ground arith

applied-parts {ℓ} :
    (P : List Bytes → Type ℓ) (link : Link) (w w' : World)
    → P w.parts
    → P w'.parts
    → P (applied link w w').parts
applied-parts P up w w' p q = q
applied-parts P (down true e) w w' p q = q
applied-parts P (down false e) w w' p q = p

module _ (valid_id : Bytes → Bool) (id : Bytes) where
  require_upload-meta :
      (link : Link) (user : ℤ) (w : World) (m : Meta)
      → require_upload valid_id id link user w ≡ answer m
      → w.meta ≡ some m
  unfolding require_upload
  require_upload-meta link user w m h = ground arith

  abbrev total_of : Option Meta → Option ℤ
  total_of none = none
  total_of (some m) = parse_int m.total_chunks

  -- An upload changes the parts by an index below the number of chunks, if at all.
  module _ {ℓ} (P : List Bytes → Type ℓ) (l : Links) (w : World) (p : P w.parts) (n : ℕ)
      (q : (i : ℕ) → i < n → P (add_part (format_nat i) w.parts)) where
    written-parts :
        (put : Link) (w1 w2 : World)
        → P w1.parts
        → P w2.parts
        → P (written valid_id id put l.pipe w1 w2).1.parts
    written-parts up w1 w2 p1 p2 = p2
    written-parts (down executed e) w1 w2 p1 p2 = p1

    receive-parts :
        (i : ℕ) (content : Bytes) → i < n → P (receive valid_id id l i content w).1.parts
    receive-parts i content small =
        let w' = record w { objects = λ j. if j == i then some content else w.objects j } in
        let w1 = applied l.put w w' in
        let same : w1.parts ≡ w.parts = applied-parts (λ ps. ps ≡ w.parts) l.put w w' refl refl in
        let p1 = applied-parts P l.put w w' p p in
        written-parts l.put w1 _ p1 (
          applied-parts P l.pipe w1 (record w1 { parts = add_part (format_nat i) w1.parts }) p1
            (rw same (q i small)))

    opened-parts :
        (f : File) (i : ℕ) (o : Option Error) → i < n → P (opened valid_id id l f i w o).1.parts
    opened-parts f i (some e) small = p
    opened-parts f i none small = receive-parts i f.content small

    checked-parts :
        (index total : ℤ) (f : File)
        → P (checked valid_id id l index total f w (some (pos n))).1.parts
    checked-parts index total f = elim (Bool-cases (not (int_eq total (pos n)))) [
      | inl other ↦ rw (other, checked) p
      | inr same ↦ elim (Option-cases (index_of index (pos n))) [
        | inl bad ↦ rw (same, checked) (rw bad p)
        | inr (i, good) ↦
            rw (same, checked) (rw good (opened-parts f i f.opened (index_of-below index n i good)))
      ]
    ]

    accepted-parts :
        (index total : ℤ) (f : File) (r : Answer Meta)
        → ((m : Meta) → r ≡ answer m → parse_int m.total_chunks ≡ some (pos n))
        → P (accepted valid_id id l index total f w r).1.parts
    accepted-parts index total f (error e) number = p
    accepted-parts index total f (answer m) number =
        rw (number m refl, accepted) (checked-parts index total f)

    -- Whatever holds of the parts before, and with one more index, holds of them after.
    pub upload-parts :
        (index total : ℤ) (f : Option File) (user : ℤ) (m : Meta)
        → w.meta ≡ some m
        → parse_int m.total_chunks ≡ some (pos n)
        → P (upload_chunk valid_id id l index total f user w).1.parts
    unfolding upload_chunk
    upload-parts index total none user m there number = p
    upload-parts index total (some f) user m there number = elim (Bool-cases (f.size == 0)) [
      | inl empty ↦ rw empty p
      | inr some_bytes ↦ elim (Bool-cases (ltb max_chunk_bytes f.size)) [
        | inl large ↦ rw some_bytes (rw large p)
        | inr fits ↦ rw some_bytes (
            rw fits (
              accepted-parts index total f (require_upload valid_id id l.meta user w) λ m' e.
                subst (λ o. total_of o ≡ some (pos n)) (require_upload-meta l.meta user w m' e)
                  (rw there number)))
      ]
    ]

  pub upload-meta :
      (l : Links) (index total : ℤ) (f : Option File) (user : ℤ) (w : World)
      → (upload_chunk valid_id id l index total f user w).1.meta ≡ w.meta
  unfolding upload_chunk require_upload
  upload-meta l index total f user w = ground arith

  -- Without its hash an upload takes no chunks.
  pub upload-none :
      (l : Links) (index total : ℤ) (f : Option File) (user : ℤ) (w : World)
      → w.meta ≡ none
      → (upload_chunk valid_id id l index total f user w).1.parts ≡ w.parts
  unfolding upload_chunk require_upload
  upload-none l index total f user w gone = ground arith
