-- ===== src/Channels/Batches/Events.antt =====
-- The other operations of backend/src/modules/channels/batches.service.ts: `uploadTargets`, `start`,
-- `cancel`, `onCallOutcome`; and the events that a batch meets, one after the other.
use conversa_forge.Prelude.{
  ℕ, suc, ◌+◌, ltb, not, Bool, true, false, List, [], ◌∷◌, ◌++◌, map, filter, any, Option, none,
  some, length, Text, text_eq, if◌then◌else◌,
}
use conversa_forge.Channels.Batches.{
  TargetStatus, pending, completed, no_answer, failed, skipped, BatchStatus, draft, blocked,
  scheduled, running, done, cancelled, Target, Batch, is_pending, is_active, update_target,
  DialResult, tick,
}

abbrev pub is_editable : BatchStatus → Bool
is_editable draft = true
is_editable blocked = true
is_editable scheduled = true
is_editable _ = false

abbrev pub has_phone : List Target → Text → Bool
has_phone targets phone = any (λ t. text_eq t.phone phone) targets

-- The size of the set of the phones.
abbrev pub distinct_phones : List Target → ℕ
distinct_phones [] = 0
distinct_phones (t ∷ targets) =
    let n = distinct_phones targets in if has_phone targets t.phone then n else suc n

-- The rows of the phones that a file brings, with new ids from `id` on.
abbrev pub new_targets : (id now : ℕ) → List Text → List Target
new_targets id now [] = []
new_targets id now (phone ∷ phones) =
    record {
      id = id;
      phone = phone;
      status = pending;
      attempts = 0;
      updated_at = now;
      session_id = none;
    }
    ∷ new_targets (suc id) now phones

pub data BatchError : Type 0 where
  conflict too_many_targets : BatchError

pub data BatchResult : Type 0 where
  accepted : Batch → BatchResult
  refused : BatchError → Batch → BatchResult

-- `uploadTargets` of a file's phones, which the parser has made distinct. The rows that wait are
-- dropped first where the file replaces them, also where the file is then refused.
unfoldable pub upload_targets : (replaces : Bool) → (id now : ℕ) → List Text → Batch → BatchResult
upload_targets replaces id now phones b =
    if not (is_editable b.status)
    then refused conflict b
    else let kept =
        if replaces then filter (λ t. not (is_pending t.status)) b.targets else b.targets in
      let fresh = filter (λ p. not (has_phone kept p)) phones in
      if ltb 5000 (distinct_phones kept + length fresh)
      then refused too_many_targets (record b { targets = kept })
      else accepted (record b { targets = kept ++ new_targets id now fresh })

abbrev pub is_future : ℕ → Option ℕ → Bool
is_future now none = false
is_future now (some at) = ltb (now + 5000) at

abbrev pub or_else : Option ℕ → Option ℕ → Option ℕ
or_else (some n) o = some n
or_else none o = o

-- `start`
unfoldable pub start : (now : ℕ) → (reason at : Option ℕ) → Batch → BatchResult
start now reason at b =
    if not (is_editable b.status)
    then refused conflict b
    else if not (any (λ t. is_pending t.status) b.targets)
    then refused conflict b
    else elim reason [
      | some why ↦ accepted (record b { status = blocked; status_reason = some why })
      | none ↦
          let scheduled_at = or_else at b.scheduled_at in
          let future = is_future now scheduled_at in
          accepted (record b {
            status = if future then scheduled else running;
            status_reason = none;
            scheduled_at = scheduled_at;
            started_at = if future then b.started_at else some now;
          })
    ]

abbrev pub skip : ℕ → Target → Target
skip now t = if is_pending t.status then record t { status = skipped; updated_at = now } else t

-- `cancel`
unfoldable pub cancel : (now : ℕ) → Batch → Batch
cancel now b = elim b.status [
  | done ↦ b
  | cancelled ↦ b
  | status ↦ record b {
    status = cancelled;
    completed_at = some now;
    targets = map (skip now) b.targets;
  }
]

pub data CallStatus : Type 0 where
  ended : (connected : Bool) → CallStatus
  busy unanswered call_failed : CallStatus

abbrev pub outcome_status : CallStatus → TargetStatus
outcome_status (ended true) = completed
outcome_status (ended false) = failed
outcome_status busy = no_answer
outcome_status unanswered = no_answer
outcome_status call_failed = failed

-- `onCallOutcome`: only a call that is under way takes its outcome.
unfoldable pub on_call_outcome : (now id : ℕ) → CallStatus → Batch → Batch
on_call_outcome now id c b = record b {
  targets =
      update_target id
        (λ t.
          if is_active t.status
          then record t { status = outcome_status c; updated_at = now }
          else t)
        b.targets;
}

pub data BatchEvent : Type 0 where
  uploads : (replaces : Bool) (now : ℕ) → List Text → BatchEvent
  starts : (now : ℕ) (reason at : Option ℕ) → BatchEvent
  cancels : (now : ℕ) → BatchEvent
  ticks : (Target → DialResult) → (now : ℕ) (reason : Option ℕ) → BatchEvent
  reports : (now id : ℕ) → CallStatus → BatchEvent

abbrev pub batch_of : BatchResult → Batch
batch_of (accepted b) = b
batch_of (refused e b) = b

-- A batch with a bound on the ids of its targets.
unfoldable pub on_event : BatchEvent → Batch × ℕ → Batch × ℕ
unfolding upload_targets start cancel tick on_call_outcome
on_event (uploads replaces now phones) (b, id) =
    (batch_of (upload_targets replaces id now phones b), id + length phones)
on_event (starts now reason at) (b, id) = (batch_of (start now reason at b), id)
on_event (cancels now) (b, id) = (cancel now b, id)
on_event (ticks dial now reason) (b, id) = ((tick dial now reason b).batch, id)
on_event (reports now target c) (b, id) = (on_call_outcome now target c b, id)

unfoldable pub on_events : List BatchEvent → Batch × ℕ → Batch × ℕ
unfolding on_event
on_events [] s = s
on_events (e ∷ es) s = on_events es (on_event e s)
