-- ===== src/RateLimit/Bounds.antt =====
-- The level stays within the capacity, and the bucket admits no more than its rate allows.
use vparser.Prelude.{
  ℕ, suc, ◌+◌, ◌-◌, ◌*◌, ◌≤◌, ◌<◌, ◌≡◌, refl, Bool, true, false, Option, none, some, List, [], ◌∷◌,
  inl, inr, arith, ltb, leb, if◌then◌else◌, Bool-cases, mul_mono_left, elapsed_split,
}
use vparser.RateLimit.{
  Bucket, Entry, ceil_div, load, refilled, store_level, charge, live, take_script,
}

pub record IsBucket (b : Bucket) : Type 0 where
  pub some_capacity : 0 < b.capacity
  pub some_refill : 0 < b.refill
  pub some_period : 0 < b.period

-- What holds of an entry that was written when the clock showed `t` or less.
pub record IsEntry (b : Bucket) (t : ℕ) (e : Entry) : Type 0 where
  pub within : e.tokens ≤ b.capacity * b.period
  pub written : e.ts ≤ t
  pub before_expiry : e.ts ≤ e.expires
  -- the bucket is full again when the key expires
  pub full_at_expiry : b.capacity * b.period ≤ e.tokens + (e.expires - e.ts) * b.refill

ceil_div_bound : (a b : ℕ) → 0 < b → a ≤ ceil_div a b * b
ceil_div_bound a b h = grind arith

-- Room for the missing tokens, also when the time to live is raised to 1.
expires_full :
    (c tokens ttl r t : ℕ)
    → c - tokens ≤ ttl * r
    → c ≤ tokens + (t + (if ltb ttl 1 then 1 else ttl) - t) * r
expires_full c tokens ttl r t h =
    let live_for : ℕ = if ltb ttl 1 then 1 else ttl in
    let wait : t + live_for - t ≡ live_for = omega arith in
    let longer : ttl ≤ live_for = ground arith in
    rw wait (omega (arith, mul_mono_left ttl live_for r longer))

store_level-IsEntry :
    (b : Bucket) (t tokens : ℕ)
    → IsBucket b
    → tokens ≤ b.capacity * b.period
    → IsEntry b t (store_level b t (tokens, t))
unfolding store_level
store_level-IsEntry b t tokens v h = record {
  within = h;
  written = omega arith;
  before_expiry = ground arith;
  full_at_expiry =
      expires_full (b.capacity * b.period) tokens _ b.refill t
        (ceil_div_bound (b.capacity * b.period - tokens) b.refill v.some_refill);
}

-- Tokens that an answer has taken, in units of 1/period.
abbrev pub spent : Bucket → Bool → ℕ
spent b true = b.period
spent b false = 0

charge-IsEntry :
    (b : Bucket) (t tokens : ℕ)
    → IsBucket b
    → tokens ≤ b.capacity * b.period
    → let (allowed, e) = charge b t (tokens, t) in
      IsEntry b t e × (e.tokens + spent b allowed ≡ tokens) × (e.ts ≡ t)
unfolding charge
charge-IsEntry b t tokens v h = elim (Bool-cases (leb b.period tokens)) [
  | inl enough ↦ rw enough (
    store_level-IsEntry b t (tokens - b.period) v (omega arith),
    unfold store_level in ground arith,
    unfold store_level in refl,
  )
  | inr short ↦ rw short (
    store_level-IsEntry b t tokens v h,
    unfold store_level in omega arith,
    unfold store_level in refl,
  )
]

charge-IsEntry_at :
    (b : Bucket) (t : ℕ) (level : ℕ × ℕ)
    → IsBucket b
    → level.1 ≡ t
    → level.0 ≤ b.capacity * b.period
    → let (allowed, e) = charge b t level in
      IsEntry b t e × (e.tokens + spent b allowed ≡ level.0) × (e.ts ≡ t)
charge-IsEntry_at b t (tokens, ts) v stamped h = rw stamped (charge-IsEntry b t tokens v h)

-- The level before the charge: at most what the last entry held and the time since has added.
refilled_bound :
    (b : Bucket) (now : ℕ) (e : Entry)
    → IsEntry b now e
    → let (tokens, ts) = refilled b now (load b now (live now (some e))) in
      (ts ≡ now)
      × (tokens ≤ b.capacity * b.period)
      × (tokens + e.ts * b.refill ≤ e.tokens + now * b.refill)
unfolding refilled load live
refilled_bound b now e v = ground (
  arith,
  elapsed_split e.ts now b.refill v.written,
  mul_mono_left (e.expires - e.ts) (now - e.ts) b.refill,
  v.within,
  v.full_at_expiry,
)

-- A charge keeps the entry sound, and takes nothing that time has not added.
pub take-IsEntry :
    (b : Bucket) (now : ℕ) (e : Entry)
    → IsBucket b
    → IsEntry b now e
    → let (allowed, e') = take_script b now now (some e) in
      IsEntry b now e'
      × (spent b allowed + e'.tokens + e.ts * b.refill ≤ e.tokens + e'.ts * b.refill)
unfolding take_script
take-IsEntry b now e v h =
    let level : ℕ × ℕ = refilled b now (load b now (live now (some e))) in
    let (stamped, fits, paid) = refilled_bound b now e h in
    let (sound, split, ts) = charge-IsEntry_at b now level v stamped fits in
    (sound, rw ts (omega (arith, split, paid)))

-- Takes at the given times, all by one clock; counts the admitted ones.
pub take_all : Bucket → Option Entry → List ℕ → ℕ × Option Entry
take_all b state [] = (0, state)
take_all b state (now ∷ times) =
    let (allowed, e) = take_script b now now state in
    let (n, state') = take_all b (some e) times in (if allowed then suc n else n, state')

-- The times go forward, from `start` to `finish`.
abbrev pub Ascending : ℕ → List ℕ → ℕ → Type 0
Ascending start [] finish = start ≤ finish
Ascending start (now ∷ times) finish = (start ≤ now) × Ascending now times finish

pub IsEntry-later : (b : Bucket) (s t : ℕ) (e : Entry) → s ≤ t → IsEntry b s e → IsEntry b t e
IsEntry-later b s t e h v = record {
  within = v.within;
  written = omega arith;
  before_expiry = v.before_expiry;
  full_at_expiry = v.full_at_expiry;
}

spent-suc :
    (b : Bucket) (allowed : Bool) (n : ℕ)
    → (if allowed then suc n else n) * b.period ≡ spent b allowed + n * b.period
spent-suc b true n = grind arith
spent-suc b false n = omega arith

admitted_from :
    (b : Bucket) (times : List ℕ) (t finish : ℕ) (e : Entry)
    → IsBucket b
    → IsEntry b t e
    → Ascending t times finish
    → (take_all b (some e) times).0 * b.period + e.ts * b.refill ≤ e.tokens + finish * b.refill
unfolding take_all
admitted_from b [] t finish e v h asc =
    omega (arith, mul_mono_left e.ts finish b.refill (omega (arith, h.written)))
admitted_from b (now ∷ times) t finish e v h (step, asc) =
    let (allowed, e') = take_script b now now (some e) in
    let (h', paid) = take-IsEntry b now e v (IsEntry-later b t now e step h) in
    let ih = admitted_from b times now finish e' v h' asc in
    rw (spent-suc b allowed (take_all b (some e') times).0) (omega (arith, ih, paid))

ltb_irrefl : (n : ℕ) → ltb n n ≡ false
ltb_irrefl n = ground arith

Ascending-le :
    (start : ℕ) (times : List ℕ) (finish : ℕ) → Ascending start times finish → start ≤ finish
Ascending-le start [] finish h = h
Ascending-le start (now ∷ times) finish (step, asc) =
    omega (arith, Ascending-le now times finish asc)

-- A missing key counts as a full bucket.
take-missing :
    (b : Bucket) (now : ℕ)
    → IsBucket b
    → let (allowed, e) = take_script b now now none in
      IsEntry b now e × (e.tokens + spent b allowed ≡ b.capacity * b.period) × (e.ts ≡ now)
unfolding take_script load refilled live
take-missing b now v =
    rw (ltb_irrefl now) (charge-IsEntry_at b now (b.capacity * b.period, now) v refl (omega arith))

-- One clock, which goes forward from `start` to `finish`, and a bucket with a positive capacity,
-- refill and period whose key is missing at first: however the calls fall in that time, and
-- although the key expires in between, the admitted calls are at most the capacity plus what the
-- rate adds in `finish - start` milliseconds.
pub admitted_bounded :
    (b : Bucket) (times : List ℕ) (start finish : ℕ)
    → IsBucket b
    → Ascending start times finish
    → (take_all b none times).0 * b.period ≤ b.capacity * b.period + (finish - start) * b.refill
unfolding take_all
admitted_bounded b [] start finish v asc = omega arith
admitted_bounded b (now ∷ times) start finish v (step, asc) =
    let (allowed, e) = take_script b now now none in
    let (h, paid, stamped) = take-missing b now v in
    let rest = admitted_from b times now finish e v h asc in
    let n = (take_all b (some e) times).0 in
    rw (spent-suc b allowed n) (
      omega (
        arith,
        rw stamped at rest,
        paid,
        mul_mono_left start now b.refill step,
        elapsed_split start finish b.refill
            (omega (arith, step, Ascending-le now times finish asc)),
      ))
