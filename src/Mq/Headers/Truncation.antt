-- ===== src/Mq/Headers/Truncation.antt =====
-- `truncateBytes` cuts between characters.
use vparser.Prelude.{
  ℕ, zero, suc, ◌-◌, ◌≤◌, ◌<◌, ◌≡◌, refl, inl, inr, true, false, [], ◌∷◌, arith, length,
  length-take, take, leb, if◌then◌else◌, Bool-cases, subst, sym, le→leb,
}
use native.Mathlib.Decide.{ℕ_discrete}
use vparser.Go.Bytes.{Bytes}
use vparser.Go.Text.{valid_string}
use vparser.Mq.Headers.{shrink, truncate_bytes}

take-take : (m n : ℕ) (s : Bytes) → m ≤ n → take m (take n s) ≡ take m s
take-take zero n s h = refl
take-take (suc m) zero s h = absurd (omega arith)
take-take (suc m) (suc n) [] h = refl
take-take (suc m) (suc n) (b ∷ s) h = rw (take-take m n s (omega arith))

take_all : (n : ℕ) (s : Bytes) → length s ≤ n → take n s ≡ s
take_all zero [] h = refl
take_all zero (b ∷ s) h = absurd (omega arith)
take_all (suc n) [] h = refl
take_all (suc n) (b ∷ s) h = rw (take_all n s (omega arith))

-- What is known of a string that was cut at `k` bytes.
pub record IsCut (s : Bytes) (k : ℕ) (r : Bytes) : Type 0 where
  pub a_prefix : r ≡ take (length r) s
  pub short : length r ≤ k
  pub valid : valid_string r ≡ true
  -- no longer prefix that fits is valid
  pub longest : (j : ℕ) → j ≤ k → j ≤ length s → valid_string (take j s) ≡ true → j ≤ length r

valid-nil : valid_string [] ≡ true
unfolding valid_string
valid-nil = refl

shrink-step :
    (f : ℕ) (s : Bytes)
    → shrink (suc f) s ≡ (if valid_string s then s else shrink f (take (length s - 1) s))
unfolding shrink
shrink-step f s = ground arith

length-take_le : (k : ℕ) (s : Bytes) → k ≤ length s → length (take k s) ≡ k
length-take_le k s h = omega (arith, length-take k s)

whole-IsCut :
    (k : ℕ) (s : Bytes) → k ≤ length s → valid_string (take k s) ≡ true → IsCut s k (take k s)
whole-IsCut k s l v =
    let n = length-take_le k s l in
    record {
      a_prefix = rw n;
      short = omega (arith, n);
      valid = v;
      longest = λ j h m w. omega (arith, n);
    }

-- Cutting one byte off a prefix gives the next shorter prefix.
shorter_prefix :
    (m : ℕ) (s : Bytes)
    → suc m ≤ length s
    → take (length (take (suc m) s) - 1) (take (suc m) s) ≡ take m s
shorter_prefix m s l =
    let n = length-take_le (suc m) s l in
    let pred : length (take (suc m) s) - 1 ≡ m = omega (arith, n) in
    subst (λ k. take k (take (suc m) s) ≡ take m s) (sym pred) (take-take m (suc m) s (omega arith))

shrink-IsCut : (f k : ℕ) (s : Bytes) → k ≤ f → k ≤ length s → IsCut s k (shrink f (take k s))
shrink-IsCut zero zero s h l = unfold shrink in whole-IsCut zero s l valid-nil
shrink-IsCut zero (suc m) s h l = absurd (omega arith)
shrink-IsCut (suc f) zero s h l = rw (shrink-step f [], valid-nil) (whole-IsCut zero s l valid-nil)
shrink-IsCut (suc f) (suc m) s h l =
    let ih = shrink-IsCut f m s (omega arith) (omega arith) in
    elim (Bool-cases (valid_string (take (suc m) s))) [
      | inl valid ↦ rw (shrink-step f (take (suc m) s), valid) (whole-IsCut (suc m) s l valid)
      | inr broken ↦
          rw (shrink-step f (take (suc m) s), broken, shorter_prefix m s l)
            (record {
              a_prefix = ih.a_prefix;
              short = omega (arith, ih.short);
              valid = ih.valid;
              longest = λ j a b w. elim (ℕ_discrete j (suc m)) [
                | yes top ↦ absurd (cc (subst (λ k. valid_string (take k s) ≡ true) top w))
                | no below ↦ ih.longest j (omega arith) b w
              ];
            })
    ]

-- A string that fits is kept; a longer one is cut to its longest valid prefix of at most `n` bytes.
pub truncate_bytes-IsCut :
    (s : Bytes) (n : ℕ)
    → (length s ≤ n → truncate_bytes s n ≡ s) × (n < length s → IsCut s n (truncate_bytes s n))
unfolding truncate_bytes
truncate_bytes-IsCut s n = (
  λ h. rw (le→leb _ _ h),
  λ h.
      let long : leb (length s) n ≡ false = ground arith in
      rw long (shrink-IsCut n n s (omega arith) (omega arith)),
)
