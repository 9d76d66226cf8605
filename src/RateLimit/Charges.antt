-- ===== src/RateLimit/Charges.antt =====
-- The two buckets of `TakeUserThenGlobal`.
use vparser.Prelude.{
  ℕ, ◌≡◌, ◌≢◌, sym, inl, inr, false, some, ◌&&◌, arith, if◌then◌else◌, Bool-cases,
}
use vparser.Prelude.Int.{ℤ}
use vparser.Go.Bytes.{Bytes, lit, bytes_eq, bytes_eq_iff, bytes_eq_refl, append_cancel_left}
use vparser.RateLimit.{
  Bucket, Store, up, user_key, global_key, take_script, take_run, take_user_then_global,
}

-- No user's key is the key of a global bucket of the same scope.
user-ne-global : (scope : Bytes) (id : ℤ) → user_key scope id ≢ global_key scope
unfolding user_key global_key
user-ne-global scope id h =
    let tail = append_cancel_left scope (append_cancel_left (lit "ratelimit:") h) in
    unfold lit in cc tail

bytes_eq-false : (s t : Bytes) → s ≢ t → bytes_eq s t ≡ false
bytes_eq-false s t h = elim (Bool-cases (bytes_eq s t)) [
  | inl same ↦ absurd (h ((bytes_eq_iff s t).0 same))
  | inr differ ↦ differ
]

module _ (scope : Bytes) (id : ℤ) (user global : Bucket) (clock now : ℕ) (s : Store) where
  -- Both calls reach Redis: the call is admitted exactly if the user's bucket and then the global
  -- one admit it. The user's bucket is charged by its own answer alone, also when the global one
  -- refuses; the global one is not touched when the user's refuses; no other key changes.
  pub user_then_global :
      let (user_ok, user_entry) = take_script user clock now (s (user_key scope id)) in
      let (global_ok, global_entry) = take_script global clock now (s (global_key scope)) in
      let (answer, s') = take_user_then_global up up scope id user global clock now s in
      (answer ≡ some (user_ok && global_ok))
      × (s' (user_key scope id) ≡ some user_entry)
      × (s' (global_key scope) ≡ (if user_ok then some global_entry else s (global_key scope)))
      × ((k : Bytes) → user_key scope id ≢ k → global_key scope ≢ k → s' k ≡ s k)
  unfolding take_user_then_global take_run
  user_then_global =
      let differ = bytes_eq-false _ _ (user-ne-global scope id) in
      let differ' = bytes_eq-false _ _ (λ e. user-ne-global scope id (sym e)) in
      let same = bytes_eq_refl (user_key scope id) in
      let same' = bytes_eq_refl (global_key scope) in
      rw differ (
        ground arith,
        ground (arith, same, differ'),
        ground (arith, same'),
        λ k n m. ground (arith, bytes_eq-false _ _ n, bytes_eq-false _ _ m),
      )
