-- ===== src/Webhooks/Retry/Laws.antt =====
-- What the retry policy comes to over a whole delivery.
use conversa_forge.Prelude.{
  ℕ, zero, suc, ◌+◌, ◌*◌, ◌≤◌, ◌≡◌, ◌≢◌, ◌⊎◌, inl, inr, refl, sym, false, Option, none, some, arith,
  leb,
}
use mathlib.Core.Path.{subst}
use conversa_forge.Webhooks.Retry.{
  base_delay, next_retry_delay_ms, AttemptOutcome, delivered, refused, retrying, failed,
  DeliveryDecision, decide_after_attempt, retry_or_fail, deliver, next_or_last,
}

module _ {J : Type 0} (spread : ℕ → J → ℕ) where
  abbrev decides :
      (attempt : ℕ) (o : AttemptOutcome) (count limit now : ℕ) (j : J) → DeliveryDecision
  decides attempt o count limit now j =
      decide_after_attempt spread attempt false o count limit now j

  abbrev pub IsFinal : DeliveryDecision → Type 0
  IsFinal d = (d.next_attempt_at ≡ none) × (d.status ≢ retrying)

  last_attempt-IsFinal :
      (attempt : ℕ) (o : AttemptOutcome) (count limit now : ℕ) (j : J)
      → 8 ≤ attempt
      → IsFinal (decides attempt o count limit now j)
  unfolding decide_after_attempt next_retry_delay_ms retry_or_fail
  last_attempt-IsFinal attempt (delivered code) count limit now j h = (refl, λ e. cc)
  last_attempt-IsFinal attempt (refused code) count limit now j h =
      (ground arith, λ e. ground arith)

  -- An automatic attempt decides for good or sets the time of the next.
  IsFinal-or_again :
      (attempt : ℕ) (o : AttemptOutcome) (count limit now : ℕ) (j : J)
      → IsFinal (decides attempt o count limit now j)
        ⊎ ((at : ℕ) × (decides attempt o count limit now j).next_attempt_at ≡ some at)
  unfolding decide_after_attempt retry_or_fail
  IsFinal-or_again attempt (delivered code) count limit now j = inl (refl, λ e. cc)
  IsFinal-or_again attempt (refused code) count limit now j =
      by_delay (next_retry_delay_ms spread attempt j)
    where
      by_delay :
          (delay : Option ℕ)
          → IsFinal (retry_or_fail spread delay count limit now)
            ⊎ ((at : ℕ) × (retry_or_fail spread delay count limit now).next_attempt_at ≡ some at)
      by_delay none = inl (refl, λ e. cc)
      by_delay (some delay) = inr (now + delay, refl)

  -- A whole delivery decides within eight attempts, whatever its attempts meet: with fuel for the
  -- attempts up to the eighth, the last decision is no retry and sets no time, and the
  -- last attempt is at most the eighth.
  pub deliver_decides :
      (fuel : ℕ) (outcome : ℕ → AttemptOutcome) (jitter : ℕ → J) (count limit attempt now : ℕ)
      → 8 ≤ attempt + fuel
      → attempt ≤ 8
      → let d = deliver spread fuel outcome jitter count limit attempt now in
        (d.0 ≤ 8) × IsFinal d.2
  unfolding deliver
  deliver_decides zero outcome jitter count limit attempt now h k = (
    k,
    last_attempt-IsFinal attempt (outcome attempt) count limit now (jitter attempt) (omega arith),
  )
  deliver_decides (suc fuel) outcome jitter count limit attempt now h k =
      elim (IsFinal-or_again attempt (outcome attempt) count limit now (jitter attempt)) [
        | inl final ↦
            subst (λ x. Ends (next_or_last spread x (attempt, now, d) rest)) (sym final.0)
              (k, final)
        | inr again ↦
            subst (λ x. Ends (next_or_last spread x (attempt, now, d) rest)) (sym again.1)
              (deliver_decides fuel outcome jitter d.failure_count limit (attempt + 1) again.0
                (omega arith) (early again.0 again.1))
      ]
    where
      d : DeliveryDecision
      d = decides attempt (outcome attempt) count limit now (jitter attempt)

      rest : ℕ → ℕ × ℕ × DeliveryDecision
      rest at = deliver spread fuel outcome jitter d.failure_count limit (attempt + 1) at

      early : (at : ℕ) → d.next_attempt_at ≡ some at → attempt + 1 ≤ 8
      early at e = ground (
        arith,
        λ (l : 8 ≤ attempt).
            (last_attempt-IsFinal attempt (outcome attempt) count limit now (jitter attempt) l).0,
      )

      Ends : ℕ × ℕ × DeliveryDecision → Type 0
      Ends r = (r.0 ≤ 8) × IsFinal r.2

  -- A delivery that is refused each time is tried eight times and then fails, more than 32 hours
  -- and at most 36 hours after the first attempt, where the jitter adds at most a tenth.
  pub deliver_refused :
      (status : ℕ → Option ℕ) (jitter : ℕ → J) (count limit now : ℕ)
      → ((base : ℕ) (j : J) → (base ≤ spread base j) × (10 * spread base j ≤ 11 * base))
      → let d = deliver spread 7 (λ n. refused (status n)) jitter count limit 1 now in
        (d.0 ≡ 8)
        × (d.2.status ≡ failed)
        × (d.2.failure_count ≡ count + 1)
        × (d.2.disable ≡ leb limit (count + 1))
        × (now + 32 * 3600000 ≤ d.1)
        × (d.1 ≤ now + 36 * 3600000)
  unfolding deliver decide_after_attempt next_retry_delay_ms retry_or_fail base_delay
  deliver_refused status jitter count limit now bounds = (
    refl,
    refl,
    refl,
    refl,
    omega (
      arith,
      bounds 60000 (jitter 1),
      bounds 300000 (jitter 2),
      bounds 1800000 (jitter 3),
      bounds 7200000 (jitter 4),
      bounds 21600000 (jitter 5),
      bounds 43200000 (jitter 6),
      bounds 43200000 (jitter 7),
    ),
    omega (
      arith,
      bounds 60000 (jitter 1),
      bounds 300000 (jitter 2),
      bounds 1800000 (jitter 3),
      bounds 7200000 (jitter 4),
      bounds 21600000 (jitter 5),
      bounds 43200000 (jitter 6),
      bounds 43200000 (jitter 7),
    ),
  )
