-- ===== src/Engine/Transition/History.antt =====
-- The duration that a session is billed for, over a whole history of transitions of one engine.
use conversa_forge.Prelude.{
  ℕ, ◌+◌, ◌≡◌, refl, sym, ap, ◌∙◌, true, List, [], ◌∷◌, some, Text, arith, if◌then◌else◌,
}
use mathlib.Core.Path.{subst, ap₂}
use native.Mathlib.Nat.{add_assoc}
use conversa_forge.Session.{SessionState, is_terminal, can_transition, state_eq_refl}
use conversa_forge.Engine.State.{Session, RuntimeState, Env, Machine}
use conversa_forge.Engine.Exec.{Exec, Result, ok, proceed, proceed_of_ok}
use conversa_forge.Engine.Transition.{
  Extra, is_counting, elapsed_ms, stamp, updated_row, transition,
}
use conversa_forge.Engine.Transition.Clock.{
  HasClock, stamp-HasClock, elapsed_ms-stamp, elapsed_ms-add, HasClock-add, elapsed_ms_of_terminal,
}
use conversa_forge.Engine.Transition.Success.{Won, transition_succeeds}

-- After `delay` milliseconds the engine moves to `to`.
pub record Visit : Type 0 where
  pub delay : ℕ
  pub to : SessionState
  pub reason : Text
  pub extra : Extra

abbrev pub end_time : ℕ → List Visit → ℕ
end_time now [] = now
end_time now (v ∷ vs) = end_time (now + v.delay) vs

-- Each step is an edge of the table.
abbrev pub IsHistory : SessionState → List Visit → Type 0
IsHistory s [] = Unit
IsHistory s (v ∷ vs) = (can_transition s v.to ≡ true) × IsHistory v.to vs

-- The time spent in ACTIVE and ENDING.
abbrev pub counted : SessionState → List Visit → ℕ
counted s [] = 0
counted s (v ∷ vs) = (if is_counting s then v.delay else 0) + counted v.to vs

pub run_history : Env → ℕ → List Visit → Exec (Unit {0})
run_history env now [] m = (ok tt, m)
run_history env now (v ∷ vs) m =
    proceed (transition env (now + v.delay) v.to v.reason v.extra m)
      (λ _. run_history env (now + v.delay) vs)

-- The engine holds the stored row, its clock is in step, and a session that has ended stores the
-- time on it.
pub record IsInStep (now : ℕ) (m : Machine) : Type 0 where
  pub stored : m.db ≡ some m.session
  pub clock : HasClock now m.session.state m.runtime
  pub duration :
      is_terminal m.session.state ≡ true → m.session.duration_ms ≡ some (elapsed_ms now m.runtime)

module _ (env : Env) where
  duration-updated_row :
      (now : ℕ) (to : SessionState) (reason : Text) (extra : Extra) (r : RuntimeState)
      (own row : Session)
      → is_terminal to ≡ true
      → (updated_row env now to reason extra r own row).duration_ms ≡ some r.active_ms
  unfolding updated_row
  duration-updated_row now to reason extra r own row last = rw last

  pub state-updated_row :
      (now : ℕ) (to : SessionState) (reason : Text) (extra : Extra) (r : RuntimeState)
      (own row : Session)
      → (updated_row env now to reason extra r own row).state ≡ to
  unfolding updated_row
  state-updated_row now to reason extra r own row = refl

  Won-IsInStep :
      (t : ℕ) (to : SessionState) (reason : Text) (extra : Extra) {row : Session} {m m' : Machine}
      → HasClock t m.session.state m.runtime
      → Won env t to reason extra row m m'
      → (m'.session.state ≡ to) × IsInStep t m' × (elapsed_ms t m'.runtime ≡ elapsed_ms t m.runtime)
  Won-IsInStep t to reason extra {row} {m} {m'} h w =
      let from = m.session.state in
      let r = stamp t from to m.runtime in
      let clock = stamp-HasClock t from to m.runtime h in
      let at_to : m'.session.state ≡ to =
        ap (λ (s : Session). s.state) w.session
        ∙ state-updated_row t to reason extra r m.session row in
      let clock' : HasClock t m'.session.state m'.runtime =
        subst (λ x. HasClock t m'.session.state x) (sym w.runtime)
          (subst (λ s. HasClock t s r) (sym at_to) clock) in
      (
        at_to,
        record {
          stored = w.db;
          clock = clock';
          duration = λ last.
              ap (λ (s : Session). s.duration_ms) w.session
              ∙ duration-updated_row t to reason extra r m.session row (rw (← at_to) last)
              ∙ ap some (
                  sym (
                    elapsed_ms_of_terminal t m'.session.state m'.runtime clock' last
                    ∙ ap (λ (x : RuntimeState). x.active_ms) w.runtime));
        },
        ap (elapsed_ms t) w.runtime ∙ elapsed_ms-stamp t from to m.runtime h,
      )

  abbrev Reaches : ℕ → Visit → List Visit → Machine → Result (Unit {0}) × Machine → Type 0
  Reaches now v vs m x =
      (x.0 ≡ ok tt)
      × IsInStep (end_time now (v ∷ vs)) x.1
      × (elapsed_ms (end_time now (v ∷ vs)) x.1.runtime
          ≡ elapsed_ms now m.runtime + counted m.session.state (v ∷ vs))

  -- From an engine that holds the stored row with its clock in step, every history that follows the
  -- table succeeds and ends in such an engine; its clock has gained the time spent in ACTIVE and
  -- ENDING, and a session that has ended stores the time on its clock as its duration.
  pub run-IsInStep :
      (now : ℕ) (vs : List Visit) (m : Machine)
      → IsInStep now m
      → IsHistory m.session.state vs
      → let m' = (run_history env now vs m).1 in
        ((run_history env now vs m).0 ≡ ok tt)
        × IsInStep (end_time now vs) m'
        × (elapsed_ms (end_time now vs) m'.runtime
            ≡ elapsed_ms now m.runtime + counted m.session.state vs)
  unfolding run_history
  run-IsInStep now [] m h _ = (refl, h, omega arith)
  run-IsInStep now (v ∷ vs) m h (edge, more) =
      let t = now + v.delay in
      let p = transition env t v.to v.reason v.extra m in
      let (good, won) =
        transition_succeeds env t v.to v.reason v.extra m.session m h.stored
          (state_eq_refl m.session.state) edge in
      let (at_to, next, same) =
        Won-IsInStep t v.to v.reason v.extra
          (HasClock-add now v.delay m.session.state m.runtime h.clock) won in
      let (good', h', total) =
        run-IsInStep t vs p.1 next (subst (λ s. IsHistory s vs) (sym at_to) more) in
      subst (Reaches now v vs m) (sym (proceed_of_ok p (λ _. run_history env t vs) tt good)) (
        good',
        h',
        total
            ∙ ap₂ ◌+◌ (same ∙ elapsed_ms-add now v.delay m.session.state m.runtime h.clock)
                (ap (λ s. counted s vs) at_to)
            ∙ add_assoc _ _ _,
      )
