-- ===== src/Engine/Transition/Success.antt =====
-- What a transition that returns has done to the engine and to the stored row.
use conversa_forge.Prelude.{
  ℕ, ◌≡◌, refl, sym, ap, ◌∙◌, true, some, Text, arith, if◌then◌else◌, ◌||◌,
}
use mathlib.Core.Path.{subst}
use conversa_forge.Session.{
  SessionState, invalid_transition, assert_transition, passed, is_terminal, state_eq,
  can_transition,
}
use conversa_forge.Engine.State.{Session, Env, Machine}
use conversa_forge.Engine.Exec.{send, on_engine, ok}
use conversa_forge.Engine.Transition.{
  Extra, on_terminal, lost_race, won_race, write_row, updated_row, after_assertion, stamp,
  transition,
}

-- The engine that won holds the row that it stored, and its clock is stamped.
pub record Won (env : Env) (now : ℕ) (to : SessionState) (reason : Text) (extra : Extra)
    (row : Session) (m m' : Machine) : Type 0 where
  pub stored : m.db ≡ some row
  pub at_from : state_eq row.state m.session.state ≡ true
  pub runtime : m'.runtime ≡ stamp now m.session.state to m.runtime
  pub session :
      m'.session
      ≡ updated_row env now to reason extra (stamp now m.session.state to m.runtime) m.session row
  pub db : m'.db ≡ some m'.session
  pub terminal : m'.terminal ≡ (m.terminal || is_terminal to)
  pub transport : m'.transport ≡ m.transport

module _ (env : Env) (now : ℕ) where
  ok-won_race :
      (to : SessionState) (reason : Text) (row : Session) (m : Machine)
      → (won_race env now to reason row m).0 ≡ ok tt
  unfolding won_race
  ok-won_race to reason row m = refl

  runtime-won_race :
      (to : SessionState) (reason : Text) (row : Session) (m : Machine)
      → (won_race env now to reason row m).1.runtime ≡ m.runtime
  unfolding won_race on_terminal send
  runtime-won_race to reason row m = ground arith

  session-won_race :
      (to : SessionState) (reason : Text) (row : Session) (m : Machine)
      → (won_race env now to reason row m).1.session ≡ row
  unfolding won_race on_terminal send
  session-won_race to reason row m = ground arith

  db-won_race :
      (to : SessionState) (reason : Text) (row : Session) (m : Machine)
      → (won_race env now to reason row m).1.db ≡ some row
  unfolding won_race on_terminal send
  db-won_race to reason row m = ground arith

  transport-won_race :
      (to : SessionState) (reason : Text) (row : Session) (m : Machine)
      → (won_race env now to reason row m).1.transport ≡ m.transport
  unfolding won_race on_terminal send
  transport-won_race to reason row m = ground arith

  terminal-won_race :
      (to : SessionState) (reason : Text) (row : Session) (m : Machine)
      → (won_race env now to reason row m).1.terminal ≡ (m.terminal || is_terminal to)
  unfolding won_race on_terminal send
  terminal-won_race to reason row m = ground arith

  won_race-Won :
      (to : SessionState) (reason : Text) (extra : Extra) (row : Session) (m : Machine)
      → m.db ≡ some row
      → state_eq row.state m.session.state ≡ true
      → let r = stamp now m.session.state to m.runtime in
        Won env now to reason extra row m
          (won_race env now to reason
            (updated_row env now to reason extra r m.session row)
            (on_engine (λ e. record e { runtime = r }) m)).1
  won_race-Won to reason extra row m stored at_from =
      let r = stamp now m.session.state to m.runtime in
      let row' = updated_row env now to reason extra r m.session row in
      let m' = on_engine (λ e. record e { runtime = r }) m in
      record {
        stored = stored;
        at_from = at_from;
        runtime = runtime-won_race to reason row' m';
        session = session-won_race to reason row' m';
        db = db-won_race to reason row' m' ∙ ap some (sym (session-won_race to reason row' m'));
        terminal = terminal-won_race to reason row' m';
        transport = transport-won_race to reason row' m';
      }

  transition-eq-won_race :
      (to : SessionState) (reason : Text) (extra : Extra) (row : Session) (m : Machine)
      → m.db ≡ some row
      → state_eq row.state m.session.state ≡ true
      → can_transition m.session.state to ≡ true
      → let r = stamp now m.session.state to m.runtime in
        transition env now to reason extra m
        ≡ won_race env now to reason
            (updated_row env now to reason extra r m.session row)
            (on_engine (λ e. record e { runtime = r }) m)
  unfolding transition after_assertion assert_transition write_row
  transition-eq-won_race to reason extra row m stored at_from edge =
      let from = m.session.state in
      let r = stamp now from to m.runtime in
      let m' : Machine = on_engine (λ e. record e { runtime = r }) m in
      ap
        (λ b.
          after_assertion env now (if b then passed else invalid_transition from to) from to reason
            extra m)
        edge
      ∙ ap (λ o. write_row env now o from to reason extra m') stored
      ∙ ap
          (λ b.
            if b
            then won_race env now to reason (updated_row env now to reason extra r m.session row) m'
            else lost_race env now from to m')
          at_from

  -- With the row stored as the engine believes, an edge of the table is taken.
  pub transition_succeeds :
      (to : SessionState) (reason : Text) (extra : Extra) (row : Session) (m : Machine)
      → m.db ≡ some row
      → state_eq row.state m.session.state ≡ true
      → can_transition m.session.state to ≡ true
      → ((transition env now to reason extra m).0 ≡ ok tt)
        × Won env now to reason extra row m (transition env now to reason extra m).1
  transition_succeeds to reason extra row m stored at_from edge =
      subst (λ x. (x.0 ≡ ok tt) × Won env now to reason extra row m x.1)
        (sym (transition-eq-won_race to reason extra row m stored at_from edge))
        (ok-won_race to reason _ _, won_race-Won to reason extra row m stored at_from)
