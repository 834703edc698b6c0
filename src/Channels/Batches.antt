-- ===== src/Channels/Batches.antt =====
-- The batches of outbound calls of backend/src/modules/channels/batches.service.ts.
-- The targets stand in the order in which they are dialed, by creation and id. `dial` is the call through the
-- telephone provider, and `reason` what keeps a batch from dialing (`blockReason`), a number of either.
pub mod Events
pub mod Calls
pub mod Sound
pub mod Laws
use conversa_forge.Prelude.{
  ℕ, zero, suc, ◌+◌, ◌-◌, ltb, leb, ◌==◌, ◌&&◌, ◌||◌, not, ◌*◌, Bool, true, false, List, [], ◌∷◌,
  ◌++◌, map, filter, find, any, Option, none, some, is_some, get_or_else, length, Text, text_eq,
  if◌then◌else◌,
}

pub data TargetStatus : Type 0 where
  pending dialing in_progress completed no_answer failed skipped : TargetStatus

pub data BatchStatus : Type 0 where
  draft blocked scheduled running done cancelled : BatchStatus

pub record Target : Type 0 where
  pub id : ℕ
  pub phone : Text
  pub status : TargetStatus
  pub attempts : ℕ
  pub updated_at : ℕ
  pub session_id : Option ℕ

pub record Batch : Type 0 where
  pub status : BatchStatus
  pub status_reason : Option ℕ
  pub concurrency : ℕ
  pub scheduled_at : Option ℕ
  pub started_at : Option ℕ
  pub completed_at : Option ℕ
  pub targets : List Target

abbrev pub is_pending : TargetStatus → Bool
is_pending pending = true
is_pending _ = false

-- `status: { in: ['DIALING', 'IN_PROGRESS'] }`
abbrev pub is_active : TargetStatus → Bool
is_active dialing = true
is_active in_progress = true
is_active _ = false

abbrev pub stuck_dialing_ms : ℕ
stuck_dialing_ms = 15 * 60000

abbrev pub update_target : ℕ → (Target → Target) → List Target → List Target
update_target id f targets = map (λ t. if t.id == id then f t else t) targets

abbrev pub in_flight : List Target → ℕ
in_flight targets = length (filter (λ t. is_active t.status) targets)

abbrev pub next_pending : List Target → Option Target
next_pending targets = find (λ t. is_pending t.status) targets

-- The conditional update that claims a target for a call.
unfoldable pub claim : ℕ → Target → Target
claim now t =
    if is_pending t.status
    then record t { status = dialing; attempts = t.attempts + 1; updated_at = now }
    else t

pub data DialResult : Type 0 where
  calls : (session_id : ℕ) → DialResult
  -- The provider is unavailable, the status 503.
  unavailable : (message : ℕ) → DialResult
  fails : DialResult

-- What a run of the scheduler leaves, and the status that it reports.
pub record TickResult : Type 0 where
  pub batch : Batch
  pub dialed : ℕ
  pub reported : BatchStatus

abbrev pub fail_target : ℕ → Target → Target
fail_target now t = record t { status = failed; updated_at = now }

abbrev pub call_target : ℕ → ℕ → Target → Target
call_target session now t = record t { session_id = some session; updated_at = now }

pub record DialLoop : Type 0 where
  pub targets : List Target
  pub dialed : ℕ
  pub stopped : Option ℕ

-- What the result of one call leaves, and then `rest`, the rest of the loop, unless the provider is
-- unavailable.
unfoldable pub after_dial :
    (now id : ℕ) → DialResult → List Target → (dialed : ℕ) → (List Target → ℕ → DialLoop) → DialLoop
after_dial now id (calls session) targets dialed rest =
    rest (update_target id (call_target session now) targets) (dialed + 1)
after_dial now id fails targets dialed rest =
    rest (update_target id (fail_target now) targets) dialed
after_dial now id (unavailable message) targets dialed rest = record {
  targets = update_target id (fail_target now) targets;
  dialed = dialed;
  stopped = some message;
}

-- The loop of `tick` with `slots` calls to place. Nothing runs between the reading of a target and its
-- claim, so that each claim counts.
unfoldable pub dial_loop : (Target → DialResult) → ℕ → ℕ → List Target → ℕ → DialLoop
unfolding claim after_dial
dial_loop dial now zero targets dialed = record {
  targets = targets;
  dialed = dialed;
  stopped = none;
}
dial_loop dial now (suc slots) targets dialed = elim (next_pending targets) [
  | none ↦ record { targets = targets; dialed = dialed; stopped = none }
  | some next ↦
      after_dial now next.id (dial next) (update_target next.id (claim now) targets) dialed
        (λ ts n. dial_loop dial now slots ts n)
]

-- Calls without a status for too long count as failed.
unfoldable pub fail_stuck : ℕ → List Target → List Target
fail_stuck now targets =
    map
      (λ t.
        if is_active t.status && ltb (t.updated_at + stuck_dialing_ms) now
        then record t { status = failed; updated_at = now }
        else t)
      targets

abbrev pub is_unfinished : Target → Bool
is_unfinished t = is_pending t.status || is_active t.status

-- The end of `tick`: the batch is completed once no target is left.
unfoldable pub finish_tick : ℕ → Batch → DialLoop → TickResult
finish_tick now b l = elim l.stopped [
  | some message ↦ record {
    batch = record b { status = blocked; status_reason = some message; targets = l.targets };
    dialed = l.dialed;
    reported = blocked;
  }
  | none ↦
      if any is_unfinished l.targets
      then record {
        batch = record b { targets = l.targets };
        dialed = l.dialed;
        reported = running;
      }
      else record {
        batch = record b { status = done; completed_at = some now; targets = l.targets };
        dialed = l.dialed;
        reported = done;
      }
]

-- `tick` of a batch that runs.
unfoldable pub run_batch :
    (Target → DialResult) → (now : ℕ) → (reason : Option ℕ) → Batch → TickResult
unfolding fail_stuck dial_loop finish_tick
run_batch dial now (some reason) b = record {
  batch = record b { status = blocked; status_reason = some reason };
  dialed = 0;
  reported = blocked;
}
run_batch dial now none b =
    let targets = fail_stuck now b.targets in
    finish_tick now b (dial_loop dial now (b.concurrency - in_flight targets) targets 0)

abbrev pub is_due : ℕ → Option ℕ → Bool
is_due now none = true
is_due now (some at) = leb at (now + 5000)

-- `tick`
unfoldable pub tick : (Target → DialResult) → (now : ℕ) → (reason : Option ℕ) → Batch → TickResult
unfolding run_batch
tick dial now reason b = elim b.status [
  | running ↦ run_batch dial now reason b
  | scheduled ↦
      if is_due now b.scheduled_at
      then run_batch dial now reason
          (record b { status = running; started_at = some (get_or_else b.started_at now) })
      else record { batch = b; dialed = 0; reported = scheduled }
  | status ↦ record { batch = b; dialed = 0; reported = status }
]
