-- ===== src/TaskEvents/Delivery.antt =====
-- What a stream gets, while publications overlap.
use vparser.Prelude.{
  ℕ, zero, suc, ◌+◌, ◌≤◌, ◌<◌, ◌≡◌, refl, ◌∙◌, sym, ap, Bool, true, false, Option, none, some, List,
  [], ◌∷◌, ◌++◌, arith, ==_iff, length, append_assoc, append-nil, if◌then◌else◌, ltb, ◌==◌,
  Bool-cases, inl, inr, ◌&&◌,
}
use vparser.Go.Bytes.{Bytes, bytes_eq}
use vparser.Mq.Effects.{answer, error}
use vparser.TaskEvents.{
  TaskEvent, Subscription, Flight, Hub, Action, offer, offer_any, take_target, take_event,
  handle_message, publish_local, publish, subscribe, step, run, subscriber_buffer,
}

-- What a stream has got: what its handler has read, and what waits in its channel.
abbrev pub got : Subscription → List TaskEvent
got s = s.read ++ s.queue

-- The events of a key that an action publishes on this gateway.
abbrev pub local_events : Bytes → Action → List TaskEvent
local_events k (Action.message (some (j, ev))) = if bytes_eq k j then ev ∷ [] else []
local_events k (Action.emit (error e) j ev) = if bytes_eq k j then ev ∷ [] else []
local_events k (Action.emit (answer n) j ev) =
    if ltb 0 n then [] else if bytes_eq k j then ev ∷ [] else []
local_events k a = []

abbrev pub published : Bytes → List Action → List TaskEvent
published k [] = []
published k (a ∷ actions) = local_events k a ++ published k actions

-- The events of the publications that have still to send to a stream.
abbrev pub under_way : ℕ → List Flight → List TaskEvent
under_way j [] = []
under_way j (f ∷ fs) = let rest = under_way j fs in if f.targets j then f.event ∷ rest else rest

-- How many events pass a test.
abbrev pub how_many : (TaskEvent → Bool) → List TaskEvent → ℕ
how_many p [] = 0
how_many p (ev ∷ events) = (if p ev then 1 else 0) + how_many p events

abbrev listed : Option TaskEvent → List TaskEvent
listed none = []
listed (some ev) = ev ∷ []

module _ (p : TaskEvent → Bool) where
  how_many-append : (l m : List TaskEvent) → how_many p (l ++ m) ≡ how_many p l + how_many p m
  how_many-append [] m = omega arith
  how_many-append (ev ∷ l) m = omega (arith, how_many-append l m)

  under_way-append :
      (j : ℕ) (fs : List Flight) (f : Flight)
      → how_many p (under_way j (fs ++ f ∷ []))
        ≡ how_many p (under_way j fs) + how_many p (under_way j (f ∷ []))
  under_way-append j [] f = omega arith
  under_way-append j (g ∷ fs) f = ground (arith, under_way-append j fs f)

  -- The event that is taken is no longer under way.
  take_target-same :
      (fs : List Flight) (i j : ℕ)
      → how_many p (listed (take_target fs i j).0) + how_many p (under_way j (take_target fs i j).1)
        ≡ how_many p (under_way j fs)
  unfolding take_target
  take_target-same [] i j = refl
  take_target-same (f ∷ fs) zero j = ground (arith, (==_iff j j).1 refl)
  take_target-same (f ∷ fs) (suc i) j = ground (arith, take_target-same fs i j)

take_target-other :
    (fs : List Flight) (i j k : ℕ)
    → (j == k) ≡ false
    → under_way k (take_target fs i j).1 ≡ under_way k fs
unfolding take_target
take_target-other [] i j k h = refl
take_target-other (f ∷ fs) zero j k h = ground (arith, h)
take_target-other (f ∷ fs) (suc i) j k h = ground (arith, take_target-other fs i j k h)

-- What becomes of a stream and of the events under way to it, where `local` is published for its key.
abbrev Moves :
    Subscription → List TaskEvent → List TaskEvent → Subscription → List TaskEvent → Type 0
Moves s way local u way' =
    (u.key ≡ s.key)
    × (u.registered ≡ true → s.registered ≡ true)
    × (events : List TaskEvent) × (got u ≡ got s ++ events)
    × ((p : TaskEvent → Bool)
        → let before = how_many p way + (if s.registered then how_many p local else 0) in
          (how_many p events + how_many p way' ≤ before)
          × (u.registered ≡ true → how_many p events + how_many p way' ≡ before))

same-Moves : (s : Subscription) (way : List TaskEvent) → Moves s way [] s way
same-Moves s way =
    (refl, λ r. r, [], sym (append-nil (got s)), λ p. (ground arith, λ r. ground arith))

offer_any-Moves :
    (o : Option TaskEvent) (s : Subscription) (way way' : List TaskEvent)
    → ((p : TaskEvent → Bool) → how_many p (listed o) + how_many p way' ≡ how_many p way)
    → Moves s way [] (offer_any o s) way'
unfolding offer_any offer
offer_any-Moves none s way way' h = (
  refl,
  λ r. r,
  [],
  sym (append-nil (got s)),
  λ p. (ground (arith, h p), λ r. ground (arith, h p)),
)
offer_any-Moves (some ev) s way way' h =
    elim (Bool-cases (ltb (length s.queue) subscriber_buffer)) [
      | inl room ↦ rw room (
        refl,
        λ r. r,
        ev ∷ [],
        sym (append_assoc s.read s.queue (ev ∷ [])),
        λ p. (ground (arith, h p), λ r. ground (arith, h p)),
      )
      | inr full ↦ rw full (
        refl,
        λ r. absurd (cc r),
        [],
        sym (append-nil (got s)),
        λ p. (ground (arith, h p), λ r. absurd (cc r)),
      )
    ]

take_event-Moves :
    (k : Bytes) (queue read : List TaskEvent) (b : Bool) (way : List TaskEvent)
    → let s : Subscription = record { key = k; queue = queue; read = read; registered = b } in
      Moves s way [] (take_event s) way
unfolding take_event
take_event-Moves k [] read b way =
    same-Moves (record { key = k; queue = []; read = read; registered = b }) way
take_event-Moves k (ev ∷ q) read b way = (
  refl,
  λ r. r,
  [],
  append_assoc read (ev ∷ []) q ∙ sym (append-nil _),
  λ p. (ground arith, λ r. ground arith),
)

not_new : (i n : ℕ) → i < n → (n == i) ≡ false
not_new i n h = ground arith

publish_local-Moves :
    (h : Hub) (k : Bytes) (ev : TaskEvent) (i : ℕ)
    → i < h.count
    → Moves
        (h.subs i)
        (under_way i h.flights)
        (if bytes_eq (h.subs i).key k then ev ∷ [] else [])
        (h.subs i)
        (under_way i (publish_local k ev h).flights)
unfolding publish_local
publish_local-Moves h k ev i known = (
  refl,
  λ r. r,
  [],
  sym (append-nil _),
  λ p.
      let all = under_way-append p i h.flights (record {
        key = k;
        event = ev;
        targets = λ j. ltb j h.count && ((h.subs j).registered && bytes_eq (h.subs j).key k);
      }) in
      (ground (arith, all, known), λ r. ground (arith, all, known, r)),
)

step-Moves :
    (h : Hub) (a : Action) (i : ℕ)
    → i < h.count
    → Moves
        (h.subs i)
        (under_way i h.flights)
        (local_events (h.subs i).key a)
        ((step h a).subs i)
        (under_way i (step h a).flights)
unfolding step handle_message publish subscribe publish_local
step-Moves h (Action.message none) i known = same-Moves (h.subs i) (under_way i h.flights)
step-Moves h (Action.message (some (k, ev))) i known = publish_local-Moves h k ev i known
step-Moves h (Action.emit (error e) k ev) i known = publish_local-Moves h k ev i known
step-Moves h (Action.emit (answer n) k ev) i known = elim (Bool-cases (ltb 0 n)) [
  | inl heard ↦ rw heard (same-Moves (h.subs i) (under_way i h.flights))
  | inr alone ↦ rw alone (publish_local-Moves h k ev i known)
]
step-Moves h (Action.join k initial) i known =
    rw (not_new i h.count known) (same-Moves (h.subs i) (under_way i h.flights))
step-Moves h (Action.receive j) i known = elim (Bool-cases (j == i)) [
  | inr other ↦ rw other (same-Moves (h.subs i) (under_way i h.flights))
  | inl same ↦
      let here = (==_iff j i).0 same in
      rw (same, here)
        (take_event-Moves (h.subs i).key (h.subs i).queue (h.subs i).read (h.subs i).registered _)
]
step-Moves h (Action.close j) i known = elim (Bool-cases (j == i)) [
  | inr other ↦ rw other (same-Moves (h.subs i) (under_way i h.flights))
  | inl same ↦
      let here = (==_iff j i).0 same in
      rw (same, here)
        (refl, λ r. absurd (cc r), [], sym (append-nil _), λ p. (ground arith, λ r. absurd (cc r)))
]
step-Moves h (Action.send f j) i known = elim (Bool-cases (j == i)) [
  | inr other ↦
      rw (other, take_target-other h.flights f j i other)
        (same-Moves (h.subs i) (under_way i h.flights))
  | inl same ↦
      let here = (==_iff j i).0 same in
      rw (same, here) (offer_any-Moves _ (h.subs i) _ _ (λ p. take_target-same p h.flights f i))
]

step-count : (h : Hub) (a : Action) → h.count ≤ (step h a).count
unfolding step handle_message publish_local publish subscribe
step-count h (Action.message none) = omega arith
step-count h (Action.message (some (k, ev))) = omega arith
step-count h (Action.emit (error e) k ev) = omega arith
step-count h (Action.emit (answer n) k ev) = ground arith
step-count h _ = omega arith

run-Moves :
    (h : Hub) (actions : List Action) (i : ℕ)
    → i < h.count
    → Moves
        (h.subs i)
        (under_way i h.flights)
        (published (h.subs i).key actions)
        ((run h actions).subs i)
        (under_way i (run h actions).flights)
unfolding run
run-Moves h [] i known = same-Moves (h.subs i) (under_way i h.flights)
run-Moves h (a ∷ actions) i known =
    let later : i < (step h a).count = omega (arith, step-count h a) in
    let (key, was, first, more, counts) = step-Moves h a i known in
    let (key', was', rest, more', counts') = run-Moves (step h a) actions i later in
    let local = local_events (h.subs i).key a in
    let ours : published ((step h a).subs i).key actions ≡ published (h.subs i).key actions =
      ap (λ k. published k actions) key in
    (
      key' ∙ key,
      λ r. was (was' r),
      first ++ rest,
      more' ∙ ap (λ l. l ++ rest) more ∙ append_assoc (got (h.subs i)) first rest,
      λ p.
          let split = how_many-append p first rest in
          let whole = how_many-append p local (published (h.subs i).key actions) in
          let later_count = ap (how_many p) ours in
          (
            ground (arith, split, whole, later_count, (counts p).0, (counts' p).0, was),
            λ r. ground (
              arith,
              split,
              whole,
              later_count,
              (counts p).1 (was' r),
              (counts' p).1 r,
              was (was' r),
              was' r,
            ),
          ),
    )

-- A stream, whatever happens and however publications overlap: what it has got stays, in its order,
-- and what it gets more, with what is then under way to it, is among what was under way to it and, if
-- it was registered, the events that are published for its key on this gateway, each as often at
-- most. As long as it is registered it is all of these, each as often.
pub no_gaps :
    (h : Hub) (actions : List Action) (i : ℕ)
    → i < h.count
    → let s = h.subs i in
      let v = run h actions in
      (events : List TaskEvent) × (got (v.subs i) ≡ got s ++ events)
      × ((p : TaskEvent → Bool)
          → let before =
              how_many p (under_way i h.flights)
              + (if s.registered then how_many p (published s.key actions) else 0) in
            (how_many p events + how_many p (under_way i v.flights) ≤ before)
            × ((v.subs i).registered ≡ true
                → how_many p events + how_many p (under_way i v.flights) ≡ before))
no_gaps h actions i known =
    let (key, was, events, more, counts) = run-Moves h actions i known in (events, more, counts)

none_more : (events : List TaskEvent) → how_many (λ ev. true) events ≤ 0 → events ≡ []
none_more [] h = refl
none_more (ev ∷ events) h = absurd (omega (arith, h))

-- A publication comes to a stream whose channel is full, and no other is under way to it: from then
-- on the stream gets nothing more, whatever is published, also not the event of that publication.
pub overflow_silences :
    (h : Hub) (f : ℕ) (ev : TaskEvent) (actions : List Action) (i : ℕ)
    → i < h.count
    → (take_target h.flights f i).0 ≡ some ev
    → under_way i (take_target h.flights f i).1 ≡ []
    → subscriber_buffer ≤ length (h.subs i).queue
    → got ((run (step h (Action.send f i)) actions).subs i) ≡ got (h.subs i)
unfolding step offer_any offer
overflow_silences h f ev actions i known there alone full =
    let here = (==_iff i i).1 refl in
    let no_room : ltb (length (h.subs i).queue) subscriber_buffer ≡ false = ground arith in
    let u = step h (Action.send f i) in
    let off : (u.subs i).registered ≡ false = rw (here, there, no_room) refl in
    let kept : got (u.subs i) ≡ got (h.subs i) = rw (here, there, no_room) refl in
    let (events, more, counts) = no_gaps u actions i known in
    let none_left : how_many (λ e. true) events ≤ 0 =
      ground (arith, (counts (λ e. true)).0, off, alone) in
    more ∙ ap (λ l. got (u.subs i) ++ l) (none_more events none_left) ∙ append-nil _ ∙ kept
