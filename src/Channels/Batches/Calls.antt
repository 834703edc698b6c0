-- ===== src/Channels/Batches/Calls.antt =====
-- How many calls a run of the scheduler places: no more at a time than the batch allows.
use conversa_forge.Prelude.{
  ℕ, ◌+◌, ◌≤◌, ◌≡◌, ◌≢◌, ◌⊎◌, refl, sym, ◌∙◌, ◌==◌, Bool, true, false, List, [], ◌∷◌, map, All,
  All-imp, Option, some, get_or_else, arith, All-map, if◌then◌else◌,
}
use conversa_forge.Channels.Batches.{
  BatchStatus, draft, blocked, scheduled, running, done, cancelled, is_due, Target, Batch,
  is_active, update_target, in_flight, claim, DialResult, DialLoop, finish_tick, run_batch, tick,
  TickResult,
}

abbrev pub HasUniqueIds : List Target → Type 0
HasUniqueIds [] = Unit
HasUniqueIds (t ∷ targets) = All (λ x. x.id ≢ t.id) targets × HasUniqueIds targets

update-absent :
    (id : ℕ) (f : Target → Target) (targets : List Target)
    → All (λ x. x.id ≢ id) targets
    → update_target id f targets ≡ targets
update-absent id f [] h = refl
update-absent id f (t ∷ targets) h = ground (arith, h.0, update-absent id f targets h.1)

-- An update of one target changes what is in flight as it does for that target.
pub in_flight-update :
    (id k : ℕ) (f : Target → Target) (targets : List Target)
    → HasUniqueIds targets
    → ((t : Target) → is_active (f t).status ≡ true → (is_active t.status ≡ true) ⊎ (k ≡ 1))
    → in_flight (update_target id f targets) ≤ in_flight targets + k
in_flight-update id k f [] h g = omega arith
in_flight-update id k f (t ∷ targets) h g =
    by_test (t.id == id) refl (in_flight-update id k f targets h.1 g)
  where
    absent : t.id ≡ id → update_target id f targets ≡ targets
    absent e = update-absent id f targets (All-imp _ _ targets (λ x k' e'. k' (e' ∙ sym e)) h.0)

    by_test :
        (b : Bool)
        → (t.id == id) ≡ b
        → in_flight (update_target id f targets) ≤ in_flight targets + k
        → in_flight (update_target id f (t ∷ targets)) ≤ in_flight (t ∷ targets) + k
    by_test true e later = ground (arith, e, absent (ground (arith, e)), g t)
    by_test false e later = ground (arith, e, later)

-- A change of targets that keeps their ids keeps them unique.
pub map-HasUniqueIds :
    (f : Target → Target) (targets : List Target)
    → ((t : Target) → (f t).id ≡ t.id)
    → HasUniqueIds targets
    → HasUniqueIds (map f targets)
map-HasUniqueIds f [] same h = tt
map-HasUniqueIds f (t ∷ targets) same h = (
  All-map _ _ f targets (λ x k e. k (sym (same x) ∙ e ∙ same t)) h.0,
  map-HasUniqueIds f targets same h.1,
)

pub in_flight-map :
    (f : Target → Target) (targets : List Target)
    → ((t : Target) → is_active (f t).status ≡ true → is_active t.status ≡ true)
    → in_flight (map f targets) ≤ in_flight targets
in_flight-map f [] g = omega arith
in_flight-map f (t ∷ targets) g = ground (arith, g t, in_flight-map f targets g)

pub claim-id : (now : ℕ) (t : Target) → (claim now t).id ≡ t.id
unfolding claim
claim-id now t = ground arith

pub finish_tick-targets :
    (now : ℕ) (b : Batch) (l : DialLoop) → (finish_tick now b l).batch.targets ≡ l.targets
unfolding finish_tick
finish_tick-targets now b l = ground arith

-- The batch once it has come due.
abbrev pub started : ℕ → Batch → Batch
started now b = record b { status = running; started_at = some (get_or_else b.started_at now) }

-- A run of the scheduler runs the batch, or leaves it alone.
pub tick-cases :
    (P : Batch → Type 0) (dial : Target → DialResult) (now : ℕ) (reason : Option ℕ) (b : Batch)
    → P (run_batch dial now reason b).batch
    → P (run_batch dial now reason (started now b)).batch
    → P b
    → P (tick dial now reason b).batch
unfolding tick
tick-cases P dial now reason b h h' h'' = by_status b.status
  where
    by_due :
        (due : Bool)
        → P
            (if due
              then run_batch dial now reason (started now b)
              else record { batch = b; dialed = 0; reported = scheduled }).batch
    by_due true = h'
    by_due false = h''

    by_status :
        (s : BatchStatus)
        → P
            (elim s as (λ x. TickResult) [
              | running ↦ run_batch dial now reason b
              | scheduled ↦
                  if is_due now b.scheduled_at
                  then run_batch dial now reason (started now b)
                  else record { batch = b; dialed = 0; reported = scheduled }
              | status ↦ record { batch = b; dialed = 0; reported = status }
            ]).batch
    by_status running = h
    by_status scheduled = by_due (is_due now b.scheduled_at)
    by_status draft = h''
    by_status blocked = h''
    by_status done = h''
    by_status cancelled = h''
