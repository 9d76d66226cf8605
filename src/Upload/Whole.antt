-- ===== src/Upload/Whole.antt =====
-- A completed file is whole: all its chunks, in order.
use vparser.Prelude.{
  ℕ, zero, suc, ◌≤◌, ◌<◌, ◌≡◌, refl, ◌∙◌, ap, subst, Bool, true, Option, none, some, List, [], ◌∷◌,
  ◌++◌, arith, map, length,
}
use vparser.Prelude.Int.{ℤ, pos}
use vparser.Go.Bytes.{Bytes, bytes_eq_iff}
use vparser.Go.Decimal.{format_int, format_nat, parse_int, max_int64, parse_int-format_nat}
use vparser.Errors.{Error}
use vparser.Mq.Effects.{Answer, answer, error}
use vparser.Media.Filename.{normalize_video_filename}
use vparser.Upload.{
  Meta, Saved, World, member, parse_parts, sort, insert, uploaded_chunks, require_upload,
  max_total_chunks,
}
use vparser.Upload.Complete.{Calls, complete, fresh, merge_all, merge, cleanup, counted, copied}
use vparser.Upload.Parts.{Below, member-format_nat}
use vparser.Upload.Consistency.{Consistent, Says}
use vparser.Upload.Counting.{all_there}

-- The chunks from `i` on are these.
abbrev pub Chunks : (ℕ → Option Bytes) → ℕ → List Bytes → Type 0
Chunks objects i [] = Unit
Chunks objects i (c ∷ cs) = (objects i ≡ some c) × Chunks objects (suc i) cs

abbrev pub concat : List Bytes → Bytes
concat [] = []
concat (c ∷ cs) = c ++ concat cs

-- The content of `n` chunks from `i` on.
abbrev pub IsJoined : (ℕ → Option Bytes) → ℕ → ℕ → Bytes → Type 0
IsJoined objects i n s = (cs : List Bytes) × (length cs ≡ n) × Chunks objects i cs × (s ≡ concat cs)

first :
    (e : Option Error) (o : Option Bytes) (r : Answer Bytes) (s : Bytes)
    → copied e o r ≡ answer s
    → (c : Bytes) × (rest : Bytes) × (o ≡ some c) × (r ≡ answer rest) × (s ≡ c ++ rest)
first e o r s h = ground (arith, h)

-- What the loop writes, if no read fails.
merge-IsJoined :
    (copy : ℕ → Option Error) (objects : ℕ → Option Bytes) (n i : ℕ) (s : Bytes)
    → merge copy objects i n ≡ answer s
    → IsJoined objects i n s
unfolding merge
merge-IsJoined copy objects zero i s h = ([], refl, tt, ground (arith, h))
merge-IsJoined copy objects (suc n) i s h =
    let (c, rest, there, more, same) =
      first (copy i) (objects i) (merge copy objects (suc i) n) s h in
    let (cs, size, chunks, whole) = merge-IsJoined copy objects n (suc i) rest more in
    (c ∷ cs, ap suc size, (there, chunks), same ∙ ap (λ t. c ++ t) whole)

length-insert : (x : ℤ) (xs : List ℤ) → length (insert x xs) ≡ suc (length xs)
length-insert x [] = refl
length-insert x (y ∷ ys) = ground (arith, length-insert x ys)

length-sort : (xs : List ℤ) → length (sort xs) ≡ length xs
unfolding sort
length-sort [] = refl
length-sort (x ∷ xs) = length-insert x (sort xs) ∙ ap suc (length-sort xs)

parse_parts-map :
    (n : ℕ) (is : List ℕ)
    → n ≤ max_int64
    → Below n is
    → parse_parts (map format_nat is) ≡ answer (map pos is)
unfolding parse_parts
parse_parts-map n [] small b = refl
parse_parts-map n (i ∷ is) small (below, b) =
    ground (arith, parse_int-format_nat i (omega arith), parse_parts-map n is small b)

length-map : (is : List ℕ) → length (map pos is) ≡ length is
length-map [] = refl
length-map (i ∷ is) = ap suc (length-map is)

counted_all :
    (n k : ℕ) (ps : List ℤ) (indexes : List ℕ)
    → ps ≡ map pos indexes
    → counted (pos n) (sort ps) ≡ some k
    → (k ≡ n) × (length indexes ≡ n)
counted_all n k ps indexes same h =
    let size : length (sort ps) ≡ length indexes =
      length-sort ps ∙ ap length same ∙ length-map indexes in
    ground (arith, size, h)

abbrev value_or : {A : Type 0} → A → Answer A → A
value_or a (answer b) = b
value_or a (error e) = a

abbrev some_or : {A : Type 0} → A → Option A → A
some_or a (some b) = b
some_or a none = a

abbrev saved_as : Calls → ℤ → Bytes → Bytes → Saved
saved_as a user name content = record {
  id = a.row_id;
  filename = name;
  user_id = user;
  content = content;
}

-- What a merge that succeeds has saved.
merge_all-saved :
    (a : Calls) (n : ℕ) (user x : ℤ) (m : Meta) (w : World)
    → (merge_all a n user m w).0 ≡ answer x
    → (content : Bytes) × (name : Bytes) × (merge a.copy w.objects 0 n ≡ answer content)
      × (a.row_id ≡ x)
      × ((merge_all a n user m w).1.saved ≡ saved_as a user name content ∷ w.saved)
unfolding merge_all cleanup
merge_all-saved a n user x m w h = (
  value_or [] (merge a.copy w.objects 0 n),
  value_or [] (normalize_video_filename m.filename),
  ground (arith, h),
  ground (arith, h),
  ground (arith, h),
)

module _ (valid_id : Bytes → Bool) (id : Bytes) where
  -- The way through `Complete` to its end.
  complete-merges :
      (a : Calls) (user x : ℤ) (w : World)
      → w.completed ≡ none
      → (complete valid_id id a user w).0 ≡ answer x
      → (m : Meta) × (total : ℤ) × (ps : List ℤ) × (k : ℕ) × (w.meta ≡ some m)
        × (format_int user ≡ m.user_id)
        × (parse_int m.total_chunks ≡ some total)
        × (parse_parts w.parts ≡ answer ps)
        × (counted total (sort ps) ≡ some k)
        × ((merge_all a k user m w).0 ≡ answer x)
        × ((complete valid_id id a user w).1 ≡ (merge_all a k user m w).1)
  unfolding complete fresh require_upload uploaded_chunks
  complete-merges a user x w new h =
      let m = some_or (record { filename = []; total_chunks = []; user_id = [] }) w.meta in
      let total = some_or (pos 0) (parse_int m.total_chunks) in
      let ps = value_or [] (parse_parts w.parts) in
      let k = some_or 0 (counted total (sort ps)) in
      (
        m,
        total,
        ps,
        k,
        ground (arith, new, h),
        ground (arith, new, h, bytes_eq_iff (format_int user) m.user_id),
        ground (arith, new, h),
        ground (arith, new, h),
        ground (arith, new, h),
        ground (arith, new, h),
        ground (arith, new, h),
      )

  -- A completion that succeeds, of a consistent upload of `n` chunks, at most 410, that has no
  -- marker yet, adds one row: that of the user who asked, with the id that it answers. Its
  -- content is that of all the `n` chunks, in their order, each of which has been received.
  pub complete_whole :
      (n : ℕ) (a : Calls) (user x : ℤ) (w : World)
      → n ≤ max_total_chunks
      → Consistent n w
      → w.completed ≡ none
      → (complete valid_id id a user w).0 ≡ answer x
      → (row : Saved) × ((complete valid_id id a user w).1.saved ≡ row ∷ w.saved)
        × (row.id ≡ x)
        × (row.user_id ≡ user)
        × IsJoined w.objects 0 n row.content
        × ((i : ℕ) → i < n → member (format_nat i) w.parts ≡ true)
  complete_whole n a user x w few (says, sound) new h =
      let (m, total, ps, k, there, own, number, listed, full, merged, left) =
        complete-merges a user x w new h in
      let (indexes, printed, distinct, below) = sound in
      let (content, name, written, same, saved) = merge_all-saved a k user x m w merged in
      let says_n : parse_int m.total_chunks ≡ some (pos n) = subst (Says n) there says in
      let is_n : total ≡ pos n = cc (number, says_n) in
      let read : ps ≡ map pos indexes =
        cc (listed, ap parse_parts printed, parse_parts-map n indexes (omega (arith, few)) below) in
      let (k_n, all) =
        counted_all n k ps indexes read (subst (λ t. counted t (sort ps) ≡ some k) is_n full) in
      (
        saved_as a user name content,
        rw left saved,
        same,
        refl,
        subst (λ j. IsJoined w.objects 0 j content) k_n
            (merge-IsJoined a.copy w.objects k 0 content written),
        λ i small.
            rw printed
              (member-format_nat i indexes ∙ all_there n indexes distinct below all i small),
      )
