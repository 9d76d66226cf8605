-- ===== src/Upload/Counting.antt =====
-- As many different indexes below `n` as there are: every index.
use vparser.Prelude.{
  ℕ, zero, suc, ◌≤◌, ◌<◌, ◌≡◌, refl, true, false, List, [], ◌∷◌, arith, ◌==◌, length, if◌then◌else◌,
  ==_iff, Bool-cases, inl, inr,
}
use vparser.Upload.Parts.{holds, Distinct, Below}

abbrev remove : ℕ → List ℕ → List ℕ
remove k [] = []
remove k (i ∷ is) = let rest = remove k is in if i == k then rest else i ∷ rest

holds-remove : (i k : ℕ) (is : List ℕ) → holds i is ≡ false → holds i (remove k is) ≡ false
holds-remove i k [] h = refl
holds-remove i k (j ∷ is) h = ground (arith, holds-remove i k is)

remove-Distinct : (k : ℕ) (is : List ℕ) → Distinct is → Distinct (remove k is)
remove-Distinct k [] h = tt
remove-Distinct k (i ∷ is) (new, h) =
    ground (arith, holds-remove i k is new, remove-Distinct k is h)

remove-Below : (n : ℕ) (is : List ℕ) → Below (suc n) is → Below n (remove n is)
remove-Below n [] h = tt
remove-Below n (i ∷ is) (small, h) = ground (arith, small, remove-Below n is h)

remove-absent : (k : ℕ) (is : List ℕ) → holds k is ≡ false → length (remove k is) ≡ length is
remove-absent k [] h = refl
remove-absent k (i ∷ is) h = ground (arith, ==_iff k i, ==_iff i k, remove-absent k is)

length-remove : (k : ℕ) (is : List ℕ) → Distinct is → length is ≤ suc (length (remove k is))
length-remove k [] h = omega arith
length-remove k (i ∷ is) (new, h) = elim (Bool-cases (i == k)) [
  | inl same ↦
      let missing : holds k is ≡ false = ground (arith, new, same, ==_iff i k) in
      rw same (omega (arith, remove-absent k is missing))
  | inr other ↦ rw other (omega (arith, length-remove k is h))
]

at_most : (n : ℕ) (is : List ℕ) → Distinct is → Below n is → length is ≤ n
at_most zero [] h b = omega arith
at_most zero (i ∷ is) h (small, b) = absurd (omega arith)
at_most (suc n) is h b = omega (
  arith,
  length-remove n is h,
  at_most n (remove n is) (remove-Distinct n is h) (remove-Below n is b),
)

-- An index that is missing would be one more.
pub all_there :
    (n : ℕ) (is : List ℕ)
    → Distinct is
    → Below n is
    → length is ≡ n
    → (i : ℕ) → i < n
    → holds i is ≡ true
all_there n is h b full i small = elim (Bool-cases (holds i is)) [
  | inl there ↦ there
  | inr missing ↦ absurd (omega (arith, at_most n (i ∷ is) (missing, h) (small, b), full))
]
