-- ===== src/Media/Ingest/Lists/Rows.antt =====
-- The rows that an insertion or a deletion changes, and the lists under way.
use vparser.Prelude.{
  ap, subst, ◌⊎◌, ◌∙◌, sym, inl, inr, Bool-cases, ◌≡◌, refl, true, false, some, List, [], ◌∷◌,
  arith, All,
}
use vparser.Prelude.Int.{ℤ, int_eq, int_eq_iff}
use vparser.Redis.{executed}
use vparser.Go.Bytes.{Bytes}
use vparser.Mq.Effects.{Answer, answer, error}
use vparser.Media.{MediaFile}
use vparser.Media.Ingest.{
  World, Calls, remember_content_hash, invalidate_user_list, inserted, told, with_name, rows_of,
  row_of, without_row, find_row,
}
use vparser.Media.Ingest.Lists.{Draft, no_draft, has_id}

-- The ids of the rows differ.
abbrev pub Distinct : List MediaFile → Type 0
Distinct [] = Unit
Distinct (m ∷ rows) = (has_id m.id rows ≡ false) × Distinct rows

abbrev pub IsFresh : List MediaFile → Draft → Type 0
IsFresh rows d = d.1 ≡ rows_of d.0 rows

abbrev pub Keeps : ℤ → List MediaFile → List MediaFile → Type 0
Keeps user rows rows' = (u : ℤ) → int_eq u user ≡ false → rows_of u rows' ≡ rows_of u rows

pub drafts-kept :
    (user : ℤ) (rows rows' : List MediaFile) (drafts : List Draft)
    → Keeps user rows rows'
    → no_draft user drafts ≡ true
    → All (IsFresh rows) drafts
    → All (IsFresh rows') drafts
drafts-kept user rows rows' [] k idle h = tt
drafts-kept user rows rows' (d ∷ drafts) k idle (fresh, h) =
    let other : int_eq d.0 user ≡ false = ground (arith, idle) in
    let rest : no_draft user drafts ≡ true = ground (arith, idle) in
    (fresh ∙ sym (k d.0 other), drafts-kept user rows rows' drafts k rest h)

pub without_row-absent :
    (id : ℤ) (rows : List MediaFile) → has_id id rows ≡ false → without_row id rows ≡ rows
without_row-absent id [] h = refl
without_row-absent id (m ∷ rows) h = ground (arith, h, without_row-absent id rows)

pub has_id-without_row :
    (x id : ℤ) (rows : List MediaFile)
    → has_id x rows ≡ false
    → has_id x (without_row id rows) ≡ false
has_id-without_row x id [] h = refl
has_id-without_row x id (m ∷ rows) h = ground (arith, h, has_id-without_row x id rows)

pub without_row-Distinct :
    (id : ℤ) (rows : List MediaFile) → Distinct rows → Distinct (without_row id rows)
without_row-Distinct id [] h = tt
without_row-Distinct id (m ∷ rows) (new, h) = elim (Bool-cases (int_eq m.id id)) [
  | inl same ↦ rw same (without_row-Distinct id rows h)
  | inr other ↦ rw other (has_id-without_row m.id id rows new, without_row-Distinct id rows h)
]

-- A row that is deleted was its owner's only.
pub without_row-Keeps :
    (id : ℤ) (rows : List MediaFile) (m : MediaFile)
    → Distinct rows
    → find_row id rows ≡ some m
    → Keeps m.user_id rows (without_row id rows)
unfolding rows_of
without_row-Keeps id [] m h found u other = refl
without_row-Keeps id (n ∷ rows) m (new, h) found u other = elim (Bool-cases (int_eq n.id id)) [
  | inl same ↦
      let is : n ≡ m = ground (arith, same, found) in
      let absent : has_id id rows ≡ false = ground (arith, new, int_eq_iff n.id id, same) in
      let owner : n.user_id ≡ m.user_id = ap (λ x. x.user_id) is in
      ground (
        arith,
        same,
        other,
        owner,
        int_eq_iff n.user_id u,
        int_eq_iff u m.user_id,
        without_row-absent id rows absent,
      )
  | inr differ ↦
      let rest : find_row id rows ≡ some m = ground (arith, differ, found) in
      ground (arith, differ, without_row-Keeps id rows m h rest u other)
]

-- The rows, or they with a new one of the user.
abbrev pub Adds : ℤ → ℤ → List MediaFile → List MediaFile → Type 0
Adds user id rows rows' =
    (rows' ≡ rows) ⊎ ((m : MediaFile) × (rows' ≡ m ∷ rows) × (m.user_id ≡ user) × (m.id ≡ id))

pub Adds-Keeps :
    (user id : ℤ) (rows rows' : List MediaFile) → Adds user id rows rows' → Keeps user rows rows'
unfolding rows_of
Adds-Keeps user id rows rows' (inl same) u other = ap (rows_of u) same
Adds-Keeps user id rows rows' (inr (m, same, owner, new)) u other =
    ap (rows_of u) same ∙ ground (arith, owner, other, int_eq_iff m.user_id u, int_eq_iff u user)

pub Adds-Distinct :
    (user id : ℤ) (rows rows' : List MediaFile)
    → has_id id rows ≡ false
    → Distinct rows
    → Adds user id rows rows'
    → Distinct rows'
Adds-Distinct user id rows rows' new h (inl same) = subst Distinct (sym same) h
Adds-Distinct user id rows rows' new h (inr (m, same, owner, is)) =
    subst Distinct (sym same) (rw is new, h)

pub with_name-Adds :
    (undo : World → World) (c : Calls) (url : Bytes) (user : ℤ) (md5 : Bytes) (w : World)
    (name : Answer Bytes)
    → ((v : World) → (undo v).rows ≡ v.rows)
    → Adds user c.row_id w.rows (with_name undo c url user md5 w name).1.rows
unfolding told remember_content_hash invalidate_user_list
with_name-Adds undo c url user md5 w (error e) keeps = inl (keeps w)
with_name-Adds undo c url user md5 w (answer name) keeps = elim (Bool-cases (executed c.insert)) [
  | inl done ↦ inr (
    row_of c name url user md5,
    ground (arith, done, keeps (inserted c.insert (row_of c name url user md5) w)),
    refl,
    refl,
  )
  | inr not_done ↦
      inl (ground (arith, not_done, keeps (inserted c.insert (row_of c name url user md5) w)))
]
