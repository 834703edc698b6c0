-- ===== src/Webhooks/Retry.antt =====
-- The retry policy of backend/src/modules/webhooks/webhook-retry.ts. Times are epoch milliseconds.
-- `spread` is the delay with its random jitter, `Math.round(base * (1 + 0.1 * j))` with `j` clamped
-- to 0 up to 0.999: the floating-point product is a parameter, a function of the base and the jitter
-- (of any type), which its users bound by the base and a tenth of it.
pub mod Laws
use conversa_forge.Prelude.{
  ℕ, zero, suc, ◌+◌, ◌-◌, ◌*◌, max, leb, ltb, ◌&&◌, Bool, true, false, List, [], ◌∷◌, Option, none,
  some, get_elem?, get_or_else, length, if◌then◌else◌,
}

abbrev pub max_attempts : ℕ
max_attempts = 8

abbrev pub retry_delays_ms : List ℕ
retry_delays_ms =
    60000 ∷ 5 * 60000 ∷ 30 * 60000 ∷ 2 * 3600000 ∷ 6 * 3600000 ∷ 12 * 3600000 ∷ 12 * 3600000 ∷ []

-- `RETRY_DELAYS_MS[Math.max(0, attempt - 1)] ?? RETRY_DELAYS_MS[RETRY_DELAYS_MS.length - 1]`
unfoldable pub base_delay : ℕ → ℕ
base_delay attempt =
    get_or_else (get_elem? retry_delays_ms (attempt - 1))
      (get_or_else (get_elem? retry_delays_ms (length retry_delays_ms - 1)) 0)

pub data AttemptOutcome : Type 0 where
  delivered : (status_code : ℕ) → AttemptOutcome
  refused : (status_code : Option ℕ) → AttemptOutcome

pub data DeliveryStatus : Type 0 where
  succeeded retrying failed : DeliveryStatus

pub record DeliveryDecision : Type 0 where
  pub status : DeliveryStatus
  pub next_attempt_at : Option ℕ
  pub failure_count : ℕ
  pub disable : Bool

-- `isSuccessStatus`
unfoldable pub is_success_status : ℕ → Bool
is_success_status code = leb 200 code && ltb code 300

module _ {J : Type 0} (spread : ℕ → J → ℕ) where
  -- `nextRetryDelayMs`
  unfoldable pub next_retry_delay_ms : ℕ → J → Option ℕ
  unfolding base_delay
  next_retry_delay_ms attempt jitter =
      if leb max_attempts attempt then none else some (spread (base_delay attempt) jitter)

  -- The decision on a refused attempt that counts: a further attempt, or the end of the delivery.
  unfoldable pub retry_or_fail : Option ℕ → (failure_count disable_after now : ℕ) → DeliveryDecision
  retry_or_fail (some delay) failure_count disable_after now = record {
    status = retrying;
    next_attempt_at = some (now + delay);
    failure_count = failure_count;
    disable = false;
  }
  retry_or_fail none failure_count disable_after now = record {
    status = failed;
    next_attempt_at = none;
    failure_count = failure_count + 1;
    disable = leb disable_after (failure_count + 1);
  }

  -- `decideAfterAttempt`
  unfoldable pub decide_after_attempt :
      (attempt : ℕ)
      → Bool
      → AttemptOutcome
      → (failure_count disable_after now : ℕ) → J
      → DeliveryDecision
  unfolding next_retry_delay_ms retry_or_fail
  decide_after_attempt attempt manual (delivered code) failure_count disable_after now jitter =
      record { status = succeeded; next_attempt_at = none; failure_count = 0; disable = false }
  decide_after_attempt attempt true (refused code) failure_count disable_after now jitter = record {
    status = failed;
    next_attempt_at = none;
    failure_count = failure_count;
    disable = false;
  }
  decide_after_attempt attempt false (refused code) failure_count disable_after now jitter =
      retry_or_fail (next_retry_delay_ms attempt jitter) failure_count disable_after now

  abbrev pub next_or_last : {A : Type 0} → Option ℕ → A → (ℕ → A) → A
  next_or_last none last next = last
  next_or_last (some at) last next = next at

  -- A whole delivery: automatic attempts from `attempt` at `now` on, each at the time that the one
  -- before it set, until one decides. `outcome` and `jitter` give what each attempt meets, and `fuel`
  -- is the number of attempts that may follow. The result is the last attempt, its time and its decision.
  unfoldable pub deliver :
      (fuel : ℕ)
      → (outcome : ℕ → AttemptOutcome) → (jitter : ℕ → J)
      → (failure_count disable_after attempt now : ℕ) → ℕ × ℕ × DeliveryDecision
  unfolding decide_after_attempt
  deliver zero outcome jitter count limit attempt now = (
    attempt,
    now,
    decide_after_attempt attempt false (outcome attempt) count limit now (jitter attempt),
  )
  deliver (suc fuel) outcome jitter count limit attempt now =
      let d =
        decide_after_attempt attempt false (outcome attempt) count limit now (jitter attempt) in
      next_or_last d.next_attempt_at (attempt, now, d)
        (λ at. deliver fuel outcome jitter d.failure_count limit (attempt + 1) at)
