-- ===== src/Channels/Batches/Sound.antt =====
-- What the scheduler's runs keep of the targets: none is called twice.
use conversa_forge.Prelude.{
  ℕ, zero, suc, ◌+◌, ◌-◌, ◌≤◌, ◌<◌, ◌≡◌, refl, sym, ltb, ◌==◌, true, false, List, map, All, Option,
  none, some, arith, All-map, ◌&&◌, if◌then◌else◌,
}
use mathlib.Core.Path.{subst}
use conversa_forge.Channels.Batches.{
  Target, Batch, is_pending, is_active, stuck_dialing_ms, update_target, in_flight, next_pending,
  claim, DialResult, calls, unavailable, fails, fail_target, call_target, DialLoop, after_dial,
  dial_loop, fail_stuck, run_batch,
}
use conversa_forge.Channels.Batches.Calls.{
  HasUniqueIds, map-HasUniqueIds, claim-id, finish_tick-targets,
}

-- A target that waits was not called, and none was called more than once.
abbrev pub IsOnce : Target → Type 0
IsOnce t = (t.attempts ≤ 1) × (is_pending t.status ≡ true → t.attempts ≡ 0)

-- The targets have ids of their own, below a bound, and were called at most once.
pub record IsSound (bound : ℕ) (targets : List Target) : Type 0 where
  pub once : All IsOnce targets
  pub unique : HasUniqueIds targets
  pub below : All (λ t. t.id < bound) targets

-- A change of a target that neither calls it again nor sets it back.
pub record Spares (f : Target → Target) : Type 0 where
  pub same_id : (t : Target) → (f t).id ≡ t.id
  pub keeps : (t : Target) → IsOnce t → IsOnce (f t)

pub map-IsSound :
    (bound : ℕ) (f : Target → Target) (targets : List Target)
    → Spares f
    → IsSound bound targets
    → IsSound bound (map f targets)
map-IsSound bound f targets s h = record {
  once = All-map _ _ f targets s.keeps h.once;
  unique = map-HasUniqueIds f targets s.same_id h.unique;
  below = All-map _ _ f targets (λ t k. ground (arith, k, s.same_id t)) h.below;
}

pub update-Spares :
    (id : ℕ) (f : Target → Target) → Spares f → Spares (λ t. if t.id == id then f t else t)
update-Spares id f s = record {
  same_id = λ t. ground (arith, s.same_id t);
  keeps = λ t h. elim (t.id == id) as (λ b. IsOnce (if b then f t else t)) [
    | true ↦ s.keeps t h
    | false ↦ h
  ];
}

claim-Spares : (now : ℕ) → Spares (claim now)
unfolding claim
claim-Spares now = record {
  same_id = claim-id now;
  keeps = λ t h. (ground (arith, h.0, h.1), λ e. ground (arith, h.0, h.1, e));
}

fail-Spares : (now : ℕ) → Spares (fail_target now)
fail-Spares now = record {
  same_id = λ t. refl;
  keeps = λ t h. (h.0, λ e. absurd (ground (arith, e)));
}

call-Spares : (session now : ℕ) → Spares (call_target session now)
call-Spares session now = record { same_id = λ t. refl; keeps = λ t h. h }

after_dial-IsSound :
    (bound now id dialed : ℕ) (r : DialResult) (targets : List Target)
    (rest : List Target → ℕ → DialLoop)
    → IsSound bound targets
    → ((ts : List Target) (n : ℕ) → IsSound bound ts → IsSound bound (rest ts n).targets)
    → IsSound bound (after_dial now id r targets dialed rest).targets
unfolding after_dial
after_dial-IsSound bound now id dialed (calls session) targets rest h again =
    again _ _ (map-IsSound bound _ targets (update-Spares id _ (call-Spares session now)) h)
after_dial-IsSound bound now id dialed fails targets rest h again =
    again _ _ (map-IsSound bound _ targets (update-Spares id _ (fail-Spares now)) h)
after_dial-IsSound bound now id dialed (unavailable message) targets rest h again =
    map-IsSound bound _ targets (update-Spares id _ (fail-Spares now)) h

dial_loop-IsSound :
    (bound : ℕ) (dial : Target → DialResult) (now slots dialed : ℕ) (targets : List Target)
    → IsSound bound targets
    → IsSound bound (dial_loop dial now slots targets dialed).targets
unfolding dial_loop
dial_loop-IsSound bound dial now zero dialed targets h = h
dial_loop-IsSound bound dial now (suc slots) dialed targets h =
    by_next (next_pending targets) (λ ts n h'. dial_loop-IsSound bound dial now slots n ts h')
  where
    by_next :
        (o : Option Target)
        → ((ts : List Target) (n : ℕ)
            → IsSound bound ts
            → IsSound bound (dial_loop dial now slots ts n).targets)
        → IsSound bound
            (elim o as (λ x. DialLoop) [
              | none ↦ record { targets = targets; dialed = dialed; stopped = none }
              | some next ↦
                  after_dial now next.id
                    (dial next)
                    (update_target next.id (claim now) targets)
                    dialed
                    (λ ts n. dial_loop dial now slots ts n)
            ]).targets
    by_next none again = h
    by_next (some next) again =
        after_dial-IsSound bound now next.id dialed (dial next)
          (update_target next.id (claim now) targets) (λ ts n. dial_loop dial now slots ts n)
          (map-IsSound bound _ targets (update-Spares next.id (claim now) (claim-Spares now)) h)
          again

stuck-Spares :
    (now : ℕ)
    → Spares (λ t.
      if is_active t.status && ltb (t.updated_at + stuck_dialing_ms) now
      then fail_target now t
      else t)
stuck-Spares now = record {
  same_id = λ t. ground arith;
  keeps = λ t h. (ground (arith, h.0), λ e. ground (arith, h.1, e));
}

pub run_batch-IsSound :
    (bound : ℕ) (dial : Target → DialResult) (now : ℕ) (reason : Option ℕ) (b : Batch)
    → IsSound bound b.targets
    → IsSound bound (run_batch dial now reason b).batch.targets
unfolding run_batch fail_stuck
run_batch-IsSound bound dial now (some reason) b h = h
run_batch-IsSound bound dial now none b h =
    subst (IsSound bound) (sym (finish_tick-targets now b loop))
      (dial_loop-IsSound bound dial now _ 0 _ (map-IsSound bound _ b.targets (stuck-Spares now) h))
  where
    loop : DialLoop
    loop =
        dial_loop dial now (b.concurrency - in_flight (fail_stuck now b.targets))
          (fail_stuck now b.targets) 0
