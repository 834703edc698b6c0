-- ===== src/Webhooks/Dispatch.antt =====
-- `deliverAttempt` of backend/src/modules/webhooks/webhook-dispatcher.service.ts, for one delivery
-- and its subscription. The answer of the endpoint is an argument, as what `sender` returns or the
-- blocked URL; the job queue, the rows and the requests that were sent are the state.
pub mod Laws
use conversa_forge.Prelude.{
  ℕ, ◌+◌, ◌-◌, leb, ◌==◌, ◌&&◌, ◌||◌, not, any, Bool, true, false, List, [], ◌∷◌, ◌++◌, Option,
  none, some, is_some, if◌then◌else◌,
}
use conversa_forge.Webhooks.Retry.{
  AttemptOutcome, delivered, refused, DeliveryStatus, DeliveryDecision, is_success_status,
  decide_after_attempt,
}

-- `pending` is the state before the first attempt.
pub data Status : Type 0 where
  pending : Status
  decided : DeliveryStatus → Status

pub record Delivery : Type 0 where
  pub status : Status
  pub attempts : ℕ
  pub last_status_code : Option ℕ
  pub next_attempt_at : Option ℕ
  pub delivered_at : Option ℕ

pub record Subscription : Type 0 where
  pub active : Bool
  pub failure_count : ℕ
  pub disabled_at : Option ℕ

-- A row of `webhookDeliveryAttempt`.
pub record AttemptRow : Type 0 where
  pub attempt : ℕ
  pub manual : Bool
  pub status_code : Option ℕ

pub record DeliverJob : Type 0 where
  pub attempt : ℕ
  pub manual : Bool

-- `failed` says that `error` is set.
pub record SendResult : Type 0 where
  pub status_code : Option ℕ
  pub failed : Bool

-- `posted` are the attempts that were claimed and sent, the last first. The text of the last error is
-- left out.
pub record Dispatch : Type 0 where
  pub delivery : Option Delivery
  pub subscription : Subscription
  pub log : List AttemptRow
  pub queue : List (ℕ × ℕ)
  pub posted : List ℕ

abbrev pub is_succeeded : Status → Bool
is_succeeded (decided DeliveryStatus.succeeded) = true
is_succeeded _ = false

abbrev is_open : Status → Bool
is_open pending = true
is_open (decided DeliveryStatus.retrying) = true
is_open _ = false

abbrev is_ok : SendResult → Bool
is_ok r = elim r.status_code [ none ↦ false | some code ↦ is_success_status code && not r.failed ]

abbrev outcome_of : SendResult → AttemptOutcome
outcome_of r = elim r.status_code [
  | none ↦ refused none
  | some code ↦
      if is_success_status code && not r.failed then delivered code else refused (some code)
]

-- The delivery of a disabled subscription fails, if it was not decided.
unfoldable pub give_up : Delivery → Delivery
give_up d =
    if is_open d.status
    then record d { status = decided DeliveryStatus.failed; next_attempt_at = none }
    else d

-- The row of an attempt, of which the table holds one for each number.
unfoldable pub log_attempt : DeliverJob → SendResult → List AttemptRow → List AttemptRow
log_attempt job r log =
    if any (λ (a : AttemptRow). a.attempt == job.attempt) log
    then log
    else log
      ++ record { attempt = job.attempt; manual = job.manual; status_code = r.status_code } ∷ []

-- `autoDisable`
unfoldable pub auto_disable : ℕ → Subscription → Subscription
auto_disable now sub =
    if sub.active then record sub { active = false; disabled_at = some now } else sub

-- The subscription after an attempt with the decision.
unfoldable pub settle : ℕ → ℕ → Bool → Bool → DeliveryDecision → Subscription → Subscription
unfolding auto_disable
settle now disable_after manual was_ok d sub =
    if was_ok then record sub { failure_count = 0 } else elim d.status [
      | DeliveryStatus.failed ↦
          if manual
          then sub
          else let counted = record sub { failure_count = sub.failure_count + 1 } in
            if counted.active && leb disable_after counted.failure_count
            then auto_disable now counted
            else counted
      | _ ↦ sub
    ]

-- The next job, with its delay.
abbrev next_jobs : ℕ → ℕ → DeliveryDecision → List (ℕ × ℕ)
next_jobs now attempt d = elim d.status [
  | DeliveryStatus.retrying ↦ elim d.next_attempt_at [
    | none ↦ []
    | some at ↦ (attempt + 1, at - now) ∷ []
  ]
  | _ ↦ []
]

module _ {J : Type 0} (spread : ℕ → J → ℕ) (disable_after : ℕ) where
  -- The part of `deliverAttempt` after the claim.
  unfoldable pub attempt_claimed : ℕ → DeliverJob → SendResult → J → Delivery → Dispatch → Dispatch
  unfolding log_attempt settle
  attempt_claimed now job r jitter del s =
      let d =
        decide_after_attempt spread job.attempt job.manual (outcome_of r)
          s.subscription.failure_count disable_after now jitter in
      record {
        delivery = some (record del {
          status = decided d.status;
          attempts = job.attempt;
          last_status_code = r.status_code;
          next_attempt_at = d.next_attempt_at;
          delivered_at = if is_ok r then some now else del.delivered_at;
        });
        subscription = settle now disable_after job.manual (is_ok r) d s.subscription;
        log = log_attempt job r s.log;
        queue = s.queue ++ next_jobs now job.attempt d;
        posted = job.attempt ∷ s.posted;
      }

  -- `deliverAttempt` for a delivery that was found.
  unfoldable pub attempt_found : ℕ → DeliverJob → SendResult → J → Delivery → Dispatch → Dispatch
  unfolding attempt_claimed give_up
  attempt_found now job r jitter del s =
      let claimed = attempt_claimed now job r jitter del s in
      if not job.manual && is_succeeded del.status
      then s
      else if not job.manual && not s.subscription.active
      then record s { delivery = some (give_up del) }
      else if del.attempts + 1 == job.attempt
      then claimed
      else s

  -- `deliverAttempt`
  unfoldable pub deliver_attempt : ℕ → DeliverJob → SendResult → J → Dispatch → Dispatch
  unfolding attempt_found
  deliver_attempt now job r jitter s = elim s.delivery [
    | none ↦ s
    | some del ↦ attempt_found now job r jitter del s
  ]

  -- Jobs run one after the other, each at its time with its answer.
  pub run_jobs : List (ℕ × DeliverJob × SendResult × J) → Dispatch → Dispatch
  unfolding deliver_attempt
  run_jobs [] s = s
  run_jobs ((now, job, r, jitter) ∷ jobs) s = run_jobs jobs (deliver_attempt now job r jitter s)
