-- ===== src/Tests/RateLimit.antt =====
-- server-go/internal/ratelimit/limiter.go at concrete buckets.
use vparser.Prelude.{ℕ, ◌+◌, ◌-◌, ◌*◌, ◌≤◌, ◌≡◌, none, some, List, [], ◌∷◌, arith}
use vparser.RateLimit.{
  Entry, Store, analysis_user, load, refilled, live, store_level, charge, take_script,
}
use vparser.RateLimit.Bounds.{IsBucket, IsEntry, take_all, admitted_bounded}
use vparser.RateLimit.Idle.{expiry_unnoticed}

analysis_user-IsBucket : IsBucket analysis_user
analysis_user-IsBucket = record {
  some_capacity = omega arith;
  some_refill = omega arith;
  some_period = omega arith;
}

abbrev burst : List ℕ
burst = 0 ∷ 0 ∷ 10 ∷ 20 ∷ 30 ∷ 40 ∷ 12000 ∷ []

admitted_bounded_example :
    (take_all analysis_user none burst).0 * 60000 ≤ 5 * 60000 + (60000 - 0) * 5
admitted_bounded_example =
    admitted_bounded analysis_user burst 0 60000 analysis_user-IsBucket (omega arith)

-- Four tokens at the instant 50.
abbrev four_left : Entry
four_left = record { tokens = 240000; ts = 50; expires = 12050 }

four_left-IsEntry : IsEntry analysis_user 100 four_left
four_left-IsEntry = record {
  within = omega arith;
  written = omega arith;
  before_expiry = omega arith;
  full_at_expiry = omega arith;
}

-- What a call at the instant 100 leaves of it.
abbrev three_left : Entry
three_left = (take_script analysis_user 100 100 (some four_left)).1

three_left_expires : three_left.expires ≤ 30000
unfolding take_script live load refilled charge store_level
three_left_expires = omega arith

expiry_unnoticed_example :
    take_script analysis_user 30000 30000 (some three_left)
    ≡ charge analysis_user 30000
        (refilled analysis_user 30000 (load analysis_user 30000 (some three_left)))
expiry_unnoticed_example =
    expiry_unnoticed analysis_user 100 30000 four_left analysis_user-IsBucket four_left-IsEntry
      (omega arith) three_left_expires

abbrev empty_store : Store
empty_store k = none
