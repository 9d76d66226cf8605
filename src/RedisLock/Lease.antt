-- ===== src/RedisLock/Lease.antt =====
-- While a lease runs the key is its owner's, and nobody else can take, renew or delete it.
use vparser.Prelude.{
  Option, none, true, ℕ, ◌+◌, ◌≤◌, ◌<◌, ◌≡◌, ◌≢◌, inl, inr, false, some, List, [], ◌∷◌, arith,
  ==_iff, Option-cases, subst,
}
use vparser.RedisLock.{World, Event, init, is_held, step, run}

-- What is known of owner `o`.
pub record IsLeased (ttl : ℕ) (w : World) (o : ℕ) : Type 0 where
  pub unlocks_released : (w.owner o).unlocking ≡ true → (w.owner o).released ≡ true
  pub past : (s : ℕ) → (w.owner o).leased ≡ some s → s ≤ w.clock
  pub keyed :
      (s : ℕ)
      → (w.owner o).leased ≡ some s
      → (w.owner o).released ≡ false
      → w.clock < s + ttl
      → w.key ≡ some (o, s + ttl)

-- Who makes an event; nobody makes time pass.
abbrev pub actor : Event → ℕ
actor (Event.pass d) = 0
actor (Event.set_nx o) = o
actor (Event.start o) = o
actor (Event.renew o) = o
actor (Event.lose_request o) = o
actor (Event.lose_reply o) = o
actor (Event.hear o) = o
actor (Event.release o) = o
actor (Event.unlock o) = o
actor (Event.stop o) = o

module _ (ttl : ℕ) (w : World) (j : ℕ) {v : World} (h : IsLeased ttl w j) where
  step-unlocks_released :
      (e : Event)
      → step ttl w e ≡ some v
      → (v.owner j).unlocking ≡ true
      → (v.owner j).released ≡ true
  unfolding step
  step-unlocks_released (Event.pass d) e q = ground (arith, h.unlocks_released)
  step-unlocks_released a e q = ground (arith, ==_iff (actor a) j, h.unlocks_released)

  step-past :
      (e : Event) → step ttl w e ≡ some v → (s : ℕ) → (v.owner j).leased ≡ some s → s ≤ v.clock
  unfolding step
  step-past (Event.pass d) e s q = ground (arith, h.past s)
  step-past a e s q = ground (arith, ==_iff (actor a) j, h.past s)

  step-keyed :
      (e : Event)
      → step ttl w e ≡ some v
      → (s : ℕ) → (v.owner j).leased ≡ some s
      → (v.owner j).released ≡ false
      → v.clock < s + ttl
      → v.key ≡ some (j, s + ttl)
  unfolding step
  step-keyed (Event.pass d) e s q r lt = ground (arith, h.keyed s)
  step-keyed a e s q r lt = ground (arith, ==_iff (actor a) j, h.unlocks_released, h.keyed s)

  pub step-IsLeased : (e : Event) → step ttl w e ≡ some v → IsLeased ttl v j
  step-IsLeased e moved = record {
    unlocks_released = step-unlocks_released e moved;
    past = step-past e moved;
    keyed = step-keyed e moved;
  }

init-IsLeased : (ttl j : ℕ) → IsLeased ttl init j
init-IsLeased ttl j = record {
  unlocks_released = λ q. cc;
  past = λ s q. cc;
  keyed = λ s q r lt. cc;
}

run-cons :
    (ttl : ℕ) (w : World) (e : Event) (events : List Event) {v : World}
    → run ttl w (e ∷ events) ≡ some v
    → (u : World) × (step ttl w e ≡ some u) × (run ttl u events ≡ some v)
unfolding run
run-cons ttl w e events q = elim (Option-cases (step ttl w e)) [
  | inl stuck ↦ absurd (ground (arith, stuck, q))
  | inr (u, moved) ↦ (u, moved, ground (arith, moved, q))
]

run-nil : (ttl : ℕ) (w : World) {v : World} → run ttl w [] ≡ some v → w ≡ v
unfolding run
run-nil ttl w q = cc

run-IsLeased :
    (ttl : ℕ) (w : World) (events : List Event) (j : ℕ) {v : World}
    → IsLeased ttl w j
    → run ttl w events ≡ some v
    → IsLeased ttl v j
run-IsLeased ttl w [] j h q = subst (λ u. IsLeased ttl u j) (run-nil ttl w q) h
run-IsLeased ttl w (e ∷ events) j h q =
    let (u, moved, rest) = run-cons ttl w e events q in
    run-IsLeased ttl u events j (step-IsLeased ttl w j h e moved) rest

-- An owner that has not called `Unlock`, less than the time to live after Redis last set or renewed
-- the key for it.
abbrev pub HasLease : ℕ → World → ℕ → Type 0
HasLease ttl w o =
    (s : ℕ) × ((w.owner o).leased ≡ some s) × ((w.owner o).released ≡ false) × (w.clock < s + ttl)

-- In every state that events can lead to, two owners with a running lease are one owner.
pub mutual_exclusion :
    (ttl : ℕ) (events : List Event) {w : World} (o j : ℕ)
    → run ttl init events ≡ some w
    → HasLease ttl w o
    → HasLease ttl w j
    → o ≡ j
mutual_exclusion ttl events o j q (s, at_s, open_o, in_s) (t, at_t, open_j, in_t) =
    let inv = run-IsLeased ttl init events o (init-IsLeased ttl o) q in
    let inv' = run-IsLeased ttl init events j (init-IsLeased ttl j) q in
    cc (inv.keyed s at_s open_o in_s, inv'.keyed t at_t open_j in_t)

abbrev pub IsStranger : ℕ → Event → Type 0
IsStranger j (Event.pass d) = Unit
IsStranger j e = actor e ≢ j

-- While the key is live with the token of `j`, no event of another owner, and no time that
-- passes, changes it.
pub strangers_keep_key :
    (ttl : ℕ) (w : World) (e : Event) (j expires : ℕ) {v : World}
    → w.key ≡ some (j, expires)
    → w.clock < expires
    → IsStranger j e
    → step ttl w e ≡ some v
    → v.key ≡ w.key
unfolding step
strangers_keep_key ttl w (Event.pass d) j x k lt other e = ground arith
strangers_keep_key ttl w a j x k lt other e = ground arith

abbrev pub late : ℕ → List Event
late ttl = Event.set_nx 0 ∷ Event.start 0 ∷ Event.pass ttl ∷ Event.set_nx 1 ∷ Event.start 1 ∷ []

abbrev pub state_or : World → Option World → World
state_or d none = d
state_or d (some w) = w

-- Whatever the time to live, an owner whose watchdog gets no turn while the lease runs out believes
-- in its lock, as `IsHeld` says, together with the next owner.
pub belief_outlives_lease :
    (ttl : ℕ)
    → (w : World) × (run ttl init (late ttl) ≡ some w)
      × (is_held (w.owner 0) ≡ true)
      × (is_held (w.owner 1) ≡ true)
unfolding run step is_held
belief_outlives_lease ttl =
    (state_or init (run ttl init (late ttl)), ground arith, ground arith, ground arith)
