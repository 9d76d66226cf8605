-- ===== src/Mq/Settle/Schedule.antt =====
-- Which records a failed attempt forwards.
use vparser.Prelude.{ℕ, ◌+◌, ◌≤◌, ◌≡◌, refl, ◌⊎◌, inl, inr, Bool, [], ◌∙◌, ap, max, arith}
use vparser.Go.Bytes.{Bytes}
use vparser.Errors.{Error, Kind, has_kind, is_permanent_failure}
use vparser.Model.{TaskMsg}
use vparser.Mq.Routing.{Topic, Reason, Route, retry, dead, route_failure}
use vparser.Mq.Headers.{Message, Decoded, Delivery, decode_record}
use vparser.Mq.Headers.RoundTrip.{decode-attempt}
use vparser.Mq.Effects.{Task, Call, Env, error}
use vparser.Mq.Effects.Avoids.{
  Made, Avoids, Avoids-pure, Avoids-if, Avoids-run, Avoids-attempt, Avoids-bind,
}
use vparser.Mq.Settle.{
  dead_letter, retry_message, forward_message, forward_retry, bury, route_error, settle,
}
use vparser.Mq.Settle.Limits.{announce-Avoids, budget-Avoids}

module _ (unmarshal : Bytes → Decoded) (d : Delivery) where
  -- What the next consumer decodes: the same task, one attempt later, the second behind 10 seconds
  -- or the third behind 60.
  abbrev pub IsNext : Message → Type 0
  IsNext m =
      let next = decode_record unmarshal m in
      (next.attempt ≡ max d.attempt 1 + 1)
      × ((next.attempt ≡ 2) × (m.topic ≡ Topic.retry_10s)
          ⊎ (next.attempt ≡ 3) × (m.topic ≡ Topic.retry_60s))
      × (m.key ≡ d.key)
      × (m.value ≡ d.value)

  -- A record is produced that is neither a dead letter nor the next attempt.
  abbrev pub IsStray : Call → Type 0
  IsStray (Call.produce m) = ¬ ((m.topic ≡ Topic.dlq) ⊎ IsNext m)
  IsStray c = ⊥

  scheduled :
      (p : Bool) (n : ℕ) (topic : Topic) (delay : ℕ)
      → 1 ≤ n
      → route_failure p n ≡ retry topic delay
      → (n ≡ 1) × (topic ≡ Topic.retry_10s) ⊎ (n ≡ 2) × (topic ≡ Topic.retry_60s)
  unfolding route_failure
  scheduled p n topic delay pos h = ground (arith, pos, h)

  module _ (mask : Bytes → Bytes) (msg : TaskMsg) (task : Task) (key : Bytes) where
    forward_message-Avoids : (m : Message) → IsNext m → Avoids IsStray (forward_message task key m)
    unfolding forward_message
    forward_message-Avoids m next = Avoids-bind _ _ (Avoids-run _ (λ h. h (inr next))) (λ u.
        Avoids-bind _ _ (Avoids-attempt _ (λ x. x)) (λ v.
          Avoids-bind _ _ (announce-Avoids IsStray task _ _ _ (λ x y. y) (λ x. x))
            (λ w. Avoids-pure _)))

    retry_message-IsNext :
        (n delay now : ℕ) (topic : Topic) (first : Bytes)
        → n ≡ max d.attempt 1
        → (n ≡ 1) × (topic ≡ Topic.retry_10s) ⊎ (n ≡ 2) × (topic ≡ Topic.retry_60s)
        → IsNext (retry_message mask d n topic delay first now)
    unfolding retry_message
    retry_message-IsNext n delay now topic first same h =
        let few : n ≤ 2 = ground arith in
        let at =
          decode-attempt unmarshal (retry_message mask d n topic delay first now) (n + 1)
            (now + delay) first (omega arith) (omega (arith, few)) in
        (
          at ∙ ap (λ k. k + 1) same,
          elim h [
            | inl (one, topical) ↦ inl (at ∙ ap (λ k. k + 1) one, topical)
            | inr (two, topical) ↦ inr (at ∙ ap (λ k. k + 1) two, topical)
          ],
          refl,
          refl,
        )

    bury-Avoids :
        (n : ℕ) (reason : Reason) (first : Bytes) (e : Error)
        → Avoids IsStray (bury mask d msg task key n reason first e)
    unfolding bury dead_letter
    bury-Avoids n reason first e = Avoids-bind _ _ (Avoids-attempt _ (λ x. x)) (λ r.
        Avoids-bind _ _ (Avoids-run _ (λ h. h (inl refl))) (λ u.
          Avoids-bind _ _ (Avoids-attempt _ (λ x. x)) (λ v.
            Avoids-bind _ _ (announce-Avoids IsStray task _ _ _ (λ x y. y) (λ x. x))
              (λ w. Avoids-pure _))))

    routed-Avoids :
        (n : ℕ) (first : Bytes) (e : Error) (r : Route)
        → n ≡ max d.attempt 1
        → ((topic : Topic) (delay : ℕ)
            → r ≡ retry topic delay
            → (n ≡ 1) × (topic ≡ Topic.retry_10s) ⊎ (n ≡ 2) × (topic ≡ Topic.retry_60s))
        → Avoids IsStray (elim r [
          | retry topic delay ↦ forward_retry mask d task key n topic delay first
          | dead reason ↦ bury mask d msg task key n reason first e
        ])
    unfolding forward_retry
    routed-Avoids n first e (retry topic delay) same h = record {
      at = λ env t.
          (forward_message-Avoids _
              (retry_message-IsNext n delay (env.now t) topic first same (h topic delay refl))).at
            env t;
    }
    routed-Avoids n first e (dead x) same h = bury-Avoids n x first e

    error-Avoids :
        (locked : Bool) (e : Error)
        → Avoids IsStray (settle mask d msg task key (record { locked = locked; ended = error e }))
    unfolding settle route_error
    error-Avoids locked e =
        Avoids-if (has_kind e Kind.budget_exhausted)
          (budget-Avoids mask d msg task key IsStray e (λ x. x) (λ x s y. y) (λ s x. x))
          (routed-Avoids _ _ e _ refl (λ topic delay.
            scheduled (is_permanent_failure e) (max d.attempt 1) topic delay (omega arith)))

    -- A failed attempt, with the lock or not, whatever its error and whatever fails behind it: every
    -- record that is produced is a dead letter, or it is what the next consumer decodes, however it
    -- reads the value, as the same key and value with an attempt that is one higher, namely the
    -- second on the topic of 10 seconds or the third on that of 60.
    pub retries_scheduled :
        (locked : Bool) (e : Error) (env : Env)
        → ¬ Made IsStray
            (settle mask d msg task key (record { locked = locked; ended = error e }) env []).1
    retries_scheduled locked e env made = (error-Avoids locked e).at env [] made
