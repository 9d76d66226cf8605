-- ===== src/RateLimit/Idle.antt =====
-- What expiry and a lagging clock do to a bucket.
use vparser.Prelude.{ℕ, ◌+◌, ◌-◌, ◌*◌, ◌≤◌, ◌≡◌, ◌∙◌, sym, ap, some, none, arith, mul_mono_left}
use vparser.RateLimit.{Bucket, Entry, load, refilled, store_level, charge, live, take_script}
use vparser.RateLimit.Bounds.{IsBucket, IsEntry, IsEntry-later, take-IsEntry, spent}

full_again :
    (b : Bucket) (now : ℕ) (e : Entry)
    → IsEntry b now e
    → e.expires ≤ now
    → refilled b now (load b now (some e)) ≡ (b.capacity * b.period, now)
unfolding refilled load
full_again b now e v h =
    ground
      (arith, v.within, v.full_at_expiry, mul_mono_left (e.expires - e.ts) (now - e.ts) b.refill)

full_when_missing :
    (b : Bucket) (now : ℕ) → refilled b now (load b now none) ≡ (b.capacity * b.period, now)
unfolding refilled load
full_when_missing b now = ground arith

live_expired : (now : ℕ) (e : Entry) → e.expires ≤ now → live now (some e) ≡ none
unfolding live
live_expired now e h = ground arith

expired-charge :
    (b : Bucket) (now : ℕ) (e : Entry)
    → IsEntry b now e
    → e.expires ≤ now
    → take_script b now now (some e) ≡ charge b now (refilled b now (load b now (some e)))
unfolding take_script
expired-charge b now e v h =
    ap (λ s. charge b now (refilled b now (load b now s))) (live_expired now e h)
    ∙ ap (charge b now) (full_when_missing b now ∙ sym (full_again b now e v h))

-- One clock, and the entry that a call at `t` leaves on a sound bucket. If it has expired when the
-- next call comes, at `now`, that call has the answer, and leaves the entry, that it would have had
-- on the kept entry.
pub expiry_unnoticed :
    (b : Bucket) (t now : ℕ) (e : Entry)
    → IsBucket b
    → IsEntry b t e
    → t ≤ now
    → (take_script b t t (some e)).1.expires ≤ now
    → take_script b now now (some (take_script b t t (some e)).1)
      ≡ charge b now (refilled b now (load b now (some (take_script b t t (some e)).1)))
expiry_unnoticed b t now e v h later gone =
    let left = (take_script b t t (some e)).1 in
    let sound = (take-IsEntry b t e v h).0 in
    expired-charge b now left (IsEntry-later b t now left later sound) gone

-- A gateway whose clock is behind the time stamp of a live bucket adds no tokens: what the call
-- leaves and what it took are the level that it found, and the stamp stays.
pub lagging_adds_nothing :
    (b : Bucket) (clock now : ℕ) (e : Entry)
    → clock + 1 ≤ e.expires
    → now ≤ e.ts
    → let (allowed, e') = take_script b clock now (some e) in
      (e'.tokens + spent b allowed ≡ e.tokens) × (e'.ts ≡ e.ts)
unfolding take_script live load refilled charge store_level
lagging_adds_nothing b clock now e h lag = ground arith

-- Whatever the two clocks show, no call leaves more than the capacity in the bucket.
pub never_over_capacity :
    (b : Bucket) (clock now : ℕ) (e : Entry)
    → e.tokens ≤ b.capacity * b.period
    → (take_script b clock now (some e)).1.tokens ≤ b.capacity * b.period
unfolding take_script live load refilled charge store_level
never_over_capacity b clock now e h = ground arith
