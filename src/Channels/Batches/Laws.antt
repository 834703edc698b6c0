-- ===== src/Channels/Batches/Laws.antt =====
-- What every run of events keeps of a batch: no target is called twice.
use conversa_forge.Prelude.{
  ℕ, suc, ◌+◌, ◌≤◌, ◌<◌, ◌≡◌, refl, sym, ltb, not, Bool, true, false, List, [], ◌∷◌, ◌++◌, map,
  filter, All, All-imp, All-filter, All-append, Option, none, some, length, length-filter-le, Text,
  arith, if◌then◌else◌,
}
use mathlib.Core.Path.{subst}
use mathlib.Core.List.{append_assoc, append-nil}
use conversa_forge.Channels.Batches.{
  pending, BatchStatus, draft, blocked, scheduled, running, done, cancelled, Target, Batch,
  is_pending, is_active,
}
use conversa_forge.Channels.Batches.Calls.{HasUniqueIds, started, tick-cases}
use conversa_forge.Channels.Batches.Sound.{
  IsSound, Spares, map-IsSound, update-Spares, run_batch-IsSound,
}
use conversa_forge.Channels.Batches.Events.{
  new_targets, upload_targets, start, cancel, skip, CallStatus, on_call_outcome, BatchEvent,
  uploads, starts, cancels, ticks, reports, batch_of, accepted, refused, conflict, too_many_targets,
  outcome_status, on_event, on_events, has_phone, distinct_phones, is_editable,
}

filter-IsSound :
    (bound : ℕ) (p : Target → Bool) (targets : List Target)
    → IsSound bound targets
    → IsSound bound (filter p targets)
filter-IsSound bound p targets h = record {
  once = All-filter _ p targets h.once;
  unique = unique_in targets h.unique;
  below = All-filter _ p targets h.below;
}
  where
    unique_in : (ts : List Target) → HasUniqueIds ts → HasUniqueIds (filter p ts)
    unique_in [] k = tt
    unique_in (t ∷ ts) k =
        elim (p t) as (λ b. HasUniqueIds (if b then t ∷ filter p ts else filter p ts)) [
          | true ↦ (All-filter _ p ts k.0, unique_in ts k.1)
          | false ↦ unique_in ts k.1
        ]

weaken :
    (bound bound' : ℕ) (targets : List Target)
    → bound ≤ bound'
    → IsSound bound targets
    → IsSound bound' targets
weaken bound bound' targets le h = record {
  once = h.once;
  unique = h.unique;
  below = All-imp _ _ targets (λ t k. omega (arith, k, le)) h.below;
}

-- A row with the next id can stand behind the others.
snoc_unique :
    (bound : ℕ) (t : Target) (targets : List Target)
    → All (λ x. x.id < bound) targets
    → HasUniqueIds targets
    → t.id ≡ bound
    → HasUniqueIds (targets ++ t ∷ [])
snoc_unique bound t [] below h e = (tt, tt)
snoc_unique bound t (x ∷ targets) below h e = (
  All-append _ targets _ h.0 ((λ e'. omega (arith, e, e', below.0)), tt),
  snoc_unique bound t targets below.1 h.1 e,
)

new_targets-IsSound :
    (now : ℕ) (phones : List Text) (bound : ℕ) (targets : List Target)
    → IsSound bound targets
    → IsSound (bound + length phones) (targets ++ new_targets bound now phones)
new_targets-IsSound now [] bound targets h =
    subst (IsSound (bound + 0)) (sym (append-nil targets))
      (weaken bound (bound + 0) targets (omega arith) h)
new_targets-IsSound now (phone ∷ phones) bound targets h =
    subst (λ n. IsSound n (targets ++ new_targets bound now (phone ∷ phones))) (omega arith)
      (subst (IsSound (suc bound + length phones))
        (append_assoc targets (new_target ∷ []) (new_targets (suc bound) now phones))
        (new_targets-IsSound now phones (suc bound) (targets ++ new_target ∷ []) (record {
          once = All-append _ targets _ h.once ((omega arith, λ e. refl), tt);
          unique = snoc_unique bound new_target targets h.below h.unique refl;
          below =
              All-append _ targets _ (weaken bound (suc bound) targets (omega arith) h).below
                (omega arith, tt);
        })))
  where
    new_target : Target
    new_target = record {
      id = bound;
      phone = phone;
      status = pending;
      attempts = 0;
      updated_at = now;
      session_id = none;
    }

upload-IsSound :
    (replaces : Bool) (bound now : ℕ) (phones : List Text) (b : Batch)
    → IsSound bound b.targets
    → IsSound
        (bound + length phones)
        (batch_of (upload_targets replaces bound now phones b)).targets
unfolding upload_targets
upload-IsSound replaces bound now phones b h =
    by_tests (not (is_editable b.status)) (ltb 5000 (distinct_phones kept + length fresh))
  where
    kept : List Target
    kept = if replaces then filter (λ t. not (is_pending t.status)) b.targets else b.targets

    fresh : List Text
    fresh = filter (λ p. not (has_phone kept p)) phones

    kept-IsSound : IsSound bound kept
    kept-IsSound =
        elim replaces
          as (λ r.
            IsSound bound
              (if r then filter (λ t. not (is_pending t.status)) b.targets else b.targets)) [
                | true ↦ filter-IsSound bound _ b.targets h
                | false ↦ h
              ]

    by_tests :
        (x y : Bool)
        → IsSound
            (bound + length phones)
            (batch_of (
              if x
              then refused conflict b
              else if y
              then refused too_many_targets (record b { targets = kept })
              else accepted (record b { targets = kept ++ new_targets bound now fresh }))).targets
    by_tests true y = weaken bound (bound + length phones) b.targets (omega arith) h
    by_tests false true = weaken bound (bound + length phones) kept (omega arith) kept-IsSound
    by_tests false false =
        weaken (bound + length fresh) (bound + length phones) _
          (omega (arith, length-filter-le (λ p. not (has_phone kept p)) phones))
          (new_targets-IsSound now fresh bound kept kept-IsSound)

start-targets :
    (now : ℕ) (reason at : Option ℕ) (b : Batch)
    → (batch_of (start now reason at b)).targets ≡ b.targets
unfolding start
start-targets now reason at b = ground arith

skip-Spares : (now : ℕ) → Spares (skip now)
skip-Spares now = record {
  same_id = λ t. ground arith;
  keeps = λ t h. (ground (arith, h.0), λ e. ground (arith, h.1, e));
}

outcome-Spares :
    (now : ℕ) (c : CallStatus)
    → Spares (λ t.
      if is_active t.status then record t { status = outcome_status c; updated_at = now } else t)
outcome-Spares now c = record {
  same_id = λ t. ground arith;
  keeps = λ t h. (ground (arith, h.0), λ e. ground (arith, h.1, e));
}

on_event-IsSound :
    (e : BatchEvent) (b : Batch) (bound : ℕ)
    → IsSound bound b.targets
    → let s = on_event e (b, bound) in IsSound s.1 s.0.targets
unfolding on_event cancel on_call_outcome
on_event-IsSound (uploads replaces now phones) b bound h =
    upload-IsSound replaces bound now phones b h
on_event-IsSound (starts now reason at) b bound h =
    subst (IsSound bound) (sym (start-targets now reason at b)) h
on_event-IsSound (ticks dial now reason) b bound h =
    tick-cases (λ b'. IsSound bound b'.targets) dial now reason b
      (run_batch-IsSound bound dial now reason b h)
      (run_batch-IsSound bound dial now reason (started now b) h) h
on_event-IsSound (reports now id c) b bound h =
    map-IsSound bound _ b.targets (update-Spares id _ (outcome-Spares now c)) h
on_event-IsSound (cancels now) b bound h = by_status b.status
  where
    skipped_all : IsSound bound (map (skip now) b.targets)
    skipped_all = map-IsSound bound (skip now) b.targets (skip-Spares now) h

    by_status :
        (s : BatchStatus)
        → IsSound bound
            (elim s as (λ x. Batch) [
              | done ↦ b
              | cancelled ↦ b
              | status ↦ record b {
                status = cancelled;
                completed_at = some now;
                targets = map (skip now) b.targets;
              }
            ]).targets
    by_status done = h
    by_status cancelled = h
    by_status draft = skipped_all
    by_status blocked = skipped_all
    by_status scheduled = skipped_all
    by_status running = skipped_all

-- From a batch whose targets have ids of their own and were called at most once, those that wait
-- not at all: however uploads, starts, cancellations, runs of the scheduler and outcomes of calls
-- follow each other, no target is called more than once, and one that waits was not called.
pub on_events-IsSound :
    (es : List BatchEvent) (b : Batch) (bound : ℕ)
    → IsSound bound b.targets
    → let s = on_events es (b, bound) in IsSound s.1 s.0.targets
unfolding on_events
on_events-IsSound [] b bound h = h
on_events-IsSound (e ∷ es) b bound h =
    on_events-IsSound es (on_event e (b, bound)).0 (on_event e (b, bound)).1
      (on_event-IsSound e b bound h)
