-- ===== src/Engine/Ending/Outcome.antt =====
-- Where the ways to end a session lead, for an engine that holds the stored row.
use conversa_forge.Prelude.{
  ℕ, ◌≡◌, refl, sym, ap, ◌∙◌, Bool, true, false, ◌||◌, [], ◌∷◌, some, Text, text, arith,
  if◌then◌else◌,
}
use mathlib.Core.Path.{subst}
use conversa_forge.Session.{
  SessionState, created, ready, connecting, active, paused, reconnecting, ending, completed,
  expired, abandoned, is_terminal, can_transition, includes, state_eq_refl,
}
use conversa_forge.Engine.State.{Env, Session, Machine}
use conversa_forge.Engine.Exec.{Result, ok, Exec, proceed_of_ok, ◌>>◌}
use conversa_forge.Engine.Transition.{Extra, plain, by_whom, transition}
use conversa_forge.Engine.Transition.Success.{Won, transition_succeeds}
use conversa_forge.Engine.Transition.History.{state-updated_row}
use conversa_forge.Engine.Ending.{is_in, complete, complete_ending, abandon, abandon_waiting}

-- The engine holds the stored row and knows whether it has ended.
pub record IsCurrent (m : Machine) : Type 0 where
  pub stored : m.db ≡ some m.session
  pub terminal : m.terminal ≡ is_terminal m.session.state

-- The run returned, the engine still holds the stored row, and it is in the state.
pub record Arrives (to : SessionState) (p : Result (Unit {0}) × Machine) : Type 0 where
  pub returned : p.0 ≡ ok tt
  pub state : p.1.session.state ≡ to
  pub current : IsCurrent p.1

if-Arrives :
    {to : SessionState} (b : Bool) (x y : Exec (Unit {0})) (m : Machine)
    → (b ≡ true → Arrives to (x m))
    → (b ≡ false → Arrives to (y m))
    → Arrives to ((if b then x else y) m)
if-Arrives true x y m f g = f refl
if-Arrives false x y m f g = g refl

module _ (env : Env) (now : ℕ) where
  live_of_edge : (s t : SessionState) → can_transition s t ≡ true → is_terminal s ≡ false
  unfolding can_transition is_terminal
  live_of_edge s t e = ground arith

  state-updated :
      (to : SessionState) (reason : Text) (extra : Extra) (row : Session) (m m' : Machine)
      → Won env now to reason extra row m m'
      → m'.session.state ≡ to
  state-updated to reason extra row m m' w =
      ap (λ (s : Session). s.state) w.session
      ∙ state-updated_row env now to reason extra _ m.session row

  pub transition-Arrives :
      (to : SessionState) (reason : Text) (extra : Extra) (m : Machine)
      → IsCurrent m
      → can_transition m.session.state to ≡ true
      → Arrives to (transition env now to reason extra m)
  transition-Arrives to reason extra m h edge =
      let (good, won) =
        transition_succeeds env now to reason extra m.session m h.stored
          (state_eq_refl m.session.state) edge in
      let at_to =
        state-updated to reason extra m.session m (transition env now to reason extra m).1 won in
      record {
        returned = good;
        state = at_to;
        current = record {
          stored = won.db;
          terminal =
              won.terminal
              ∙ ap (λ b. b || is_terminal to) (h.terminal ∙ live_of_edge m.session.state to edge)
              ∙ ap is_terminal (sym at_to);
        };
      }

  -- What `abandon` makes of a session in a state.
  abbrev pub abandoned_from : SessionState → SessionState
  abandoned_from created = expired
  abandoned_from ready = expired
  abandoned_from connecting = abandoned
  abandoned_from active = abandoned
  abandoned_from paused = abandoned
  abandoned_from reconnecting = abandoned
  abandoned_from ending = completed
  abandoned_from s = s

  edge_of_waiting :
      (s : SessionState)
      → includes (reconnecting ∷ paused ∷ []) s ≡ true
      → can_transition s abandoned ≡ true
  unfolding can_transition
  edge_of_waiting s h = ground arith

  edge_of_ending :
      (s : SessionState) → includes (ending ∷ []) s ≡ true → can_transition s completed ≡ true
  unfolding can_transition
  edge_of_ending s h = ground arith

  edge_of_unstarted :
      (s : SessionState)
      → includes (created ∷ ready ∷ []) s ≡ true
      → can_transition s expired ≡ true
  unfolding can_transition
  edge_of_unstarted s h = ground arith

  edge_of_running :
      (s : SessionState)
      → includes (active ∷ connecting ∷ []) s ≡ true
      → can_transition s reconnecting ≡ true
  unfolding can_transition
  edge_of_running s h = ground arith

  abandon_waiting-Arrives :
      (reason : Text) (m : Machine)
      → IsCurrent m
      → is_in (reconnecting ∷ paused ∷ []) m ≡ true
      → Arrives abandoned (abandon_waiting env now reason m)
  unfolding abandon_waiting
  abandon_waiting-Arrives reason m h waits =
      if-Arrives (is_in (reconnecting ∷ paused ∷ []) m) _ _ m
        (λ _.
          transition-Arrives abandoned reason (by_whom (text "system")) m h
            (edge_of_waiting m.session.state waits))
        (λ e. cc)

  complete-Arrives :
      (m : Machine)
      → IsCurrent m
      → is_in (ending ∷ []) m ≡ true
      → Arrives completed (complete env now m)
  unfolding complete complete_ending
  complete-Arrives m h at_end =
      let edge = edge_of_ending m.session.state at_end in
      let live = h.terminal ∙ live_of_edge m.session.state completed edge in
      if-Arrives m.terminal _ _ m (λ e. cc)
        (λ _.
          if-Arrives (is_in (ending ∷ []) m) _ _ m (λ _. transition-Arrives completed _ _ m h edge)
            (λ e. cc))

  -- A session that runs is taken to `reconnecting` first, and abandoned from there.
  abandon_running-Arrives :
      (reason : Text) (m : Machine)
      → IsCurrent m
      → is_in (active ∷ connecting ∷ []) m ≡ true
      → Arrives abandoned (
          (transition env now reconnecting (text "orphaned") plain
              >> abandon_waiting env now reason)
            m)
  abandon_running-Arrives reason m h runs =
      let p = transition env now reconnecting (text "orphaned") plain m in
      let a =
        transition-Arrives reconnecting (text "orphaned") plain m h
          (edge_of_running m.session.state runs) in
      subst (Arrives abandoned)
        (sym (proceed_of_ok p (λ _. abandon_waiting env now reason) tt a.returned))
        (abandon_waiting-Arrives reason p.1 a.current
          (ap (includes (reconnecting ∷ paused ∷ [])) a.state))

  abandoned_from_lem :
      (s : SessionState)
      → ((is_terminal s ≡ true) → abandoned_from s ≡ s)
        × ((includes (ending ∷ []) s ≡ true) → abandoned_from s ≡ completed)
        × ((includes (created ∷ ready ∷ []) s ≡ true) → abandoned_from s ≡ expired)
        × ((includes (active ∷ connecting ∷ []) s ≡ true) → abandoned_from s ≡ abandoned)
        × ((includes (reconnecting ∷ paused ∷ []) s ≡ true) → abandoned_from s ≡ abandoned)
  unfolding is_terminal
  abandoned_from_lem s = ground arith

  others_wait :
      (s : SessionState)
      → is_terminal s ≡ false
      → includes (ending ∷ []) s ≡ false
      → includes (created ∷ ready ∷ []) s ≡ false
      → includes (active ∷ connecting ∷ []) s ≡ false
      → includes (reconnecting ∷ paused ∷ []) s ≡ true
  unfolding is_terminal
  others_wait s a b c d = ground arith

  -- On an engine that holds the stored row, `abandon` returns and ends the session: a session that nobody started expires, one in its last words is
  -- completed, any other is abandoned, and one that has ended stays as it is.
  pub abandon-Arrives :
      (reason : Text) (m : Machine)
      → IsCurrent m
      → Arrives (abandoned_from m.session.state) (abandon env now reason m)
  unfolding abandon
  abandon-Arrives reason m h =
      let s = m.session.state in
      let (ended, closing, unstarted, running, waiting) = abandoned_from_lem s in
      if-Arrives m.terminal _ _ m
        (λ e. record { returned = refl; state = sym (ended (sym h.terminal ∙ e)); current = h })
        (λ live.
          if-Arrives (is_in (ending ∷ []) m) _ _ m
            (λ e. arrive (closing e) (complete-Arrives m h e))
            (λ not_ending.
              if-Arrives (is_in (created ∷ ready ∷ []) m) _ _ m
                (λ e. arrive (unstarted e) (
                  transition-Arrives expired reason (by_whom (text "system")) m h
                    (edge_of_unstarted s e)))
                (λ not_new.
                  if-Arrives (is_in (active ∷ connecting ∷ []) m) _ _ m
                    (λ e. arrive (running e) (abandon_running-Arrives reason m h e))
                    (λ not_running.
                      let waits =
                        others_wait s (sym h.terminal ∙ live) not_ending not_new not_running in
                      arrive (waiting waits) (abandon_waiting-Arrives reason m h waits)))))
    where
      arrive :
          {to : SessionState} {p : Result (Unit {0}) × Machine}
          → abandoned_from m.session.state ≡ to
          → Arrives to p
          → Arrives (abandoned_from m.session.state) p
      arrive {p = p} e a = subst (λ t. Arrives t p) (sym e) a
