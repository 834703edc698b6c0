-- ===== src/Engine/Transition/Clock.antt =====
-- The clock of active time: what `activeMs` and `activeSince` add up to over a history of
-- transitions.
use conversa_forge.Prelude.{
  ℕ, ◌+◌, ◌≤◌, ◌≡◌, true, false, Option, none, some, is_some, arith, if◌then◌else◌,
}
use conversa_forge.Session.{SessionState, is_terminal}
use conversa_forge.Engine.State.{RuntimeState}
use conversa_forge.Engine.Transition.{is_counting, elapsed_ms, stamp}

abbrev pub StartedBy : ℕ → Option ℕ → Type 0
StartedBy now none = Unit
StartedBy now (some since) = since ≤ now

-- The clock runs exactly in the counting states, and was not started in the future.
pub record HasClock (now : ℕ) (state : SessionState) (r : RuntimeState) : Type 0 where
  pub runs : is_some r.active_since ≡ is_counting state
  pub started : StartedBy now r.active_since

-- A transition keeps the clock in step with the state that it enters.
pub stamp-HasClock :
    (now : ℕ) (from to : SessionState) (r : RuntimeState)
    → HasClock now from r
    → HasClock now to (stamp now from to r)
unfolding stamp
stamp-HasClock now from to r h = record { runs = ground arith; started = started-stamp }
  where
    started-stamp : StartedBy now (stamp now from to r).active_since
    started-stamp = ground (arith, h.started)

-- It neither adds nor loses time at its own instant.
pub elapsed_ms-stamp :
    (now : ℕ) (from to : SessionState) (r : RuntimeState)
    → HasClock now from r
    → elapsed_ms now (stamp now from to r) ≡ elapsed_ms now r
unfolding elapsed_ms stamp
elapsed_ms-stamp now from to r h = ground arith

-- Between transitions the time passes in the counting states only.
pub elapsed_ms-add :
    (now delay : ℕ) (state : SessionState) (r : RuntimeState)
    → HasClock now state r
    → elapsed_ms (now + delay) r ≡ elapsed_ms now r + (if is_counting state then delay else 0)
unfolding elapsed_ms
elapsed_ms-add now delay state r h = ground (arith, h.started, h.runs)

pub HasClock-add :
    (now delay : ℕ) (state : SessionState) (r : RuntimeState)
    → HasClock now state r
    → HasClock (now + delay) state r
HasClock-add now delay state r h = record {
  runs = h.runs;
  started = later r.active_since h.started;
}
  where
    later : (o : Option ℕ) → StartedBy now o → StartedBy (now + delay) o
    later none k = tt
    later (some since) k = omega arith

not_counting_of_terminal : (s : SessionState) → is_terminal s ≡ true → is_counting s ≡ false
unfolding is_terminal
not_counting_of_terminal s h = ground arith

-- In a terminal state all the time is in `activeMs`.
pub elapsed_ms_of_terminal :
    (now : ℕ) (state : SessionState) (r : RuntimeState)
    → HasClock now state r
    → is_terminal state ≡ true
    → elapsed_ms now r ≡ r.active_ms
unfolding elapsed_ms
elapsed_ms_of_terminal now state r h last =
    ground (arith, h.runs, not_counting_of_terminal state last)
