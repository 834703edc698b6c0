-- ===== src/Engine/Transition/Laws.antt =====
-- What one `transition` does to the rows that the engine shares with other writers.
use conversa_forge.Prelude.{
  ℕ, ◌≡◌, refl, inl, inr, Bool, true, ◌||◌, not, [], ◌∷◌, ◌++◌, Option, none, some, Text, arith,
  if◌then◌else◌, Bool-cases,
}
use conversa_forge.Session.{
  SessionState, is_terminal, can_transition, Assertion, invalid_transition, assert_transition,
  passed, state_eq, eq_of_state_eq,
}
use conversa_forge.Engine.State.{Session, session_terminal, Env, Machine}
use conversa_forge.Engine.Exec.{send, on_engine}
use conversa_forge.Engine.Guarantee.{
  Guarantee, Guarantees, Guarantee-of_eq, Guarantee-refl, Guarantee-of_edge,
}
use conversa_forge.Engine.Transition.{
  Extra, on_terminal, lost_race, won_race, write_row, after_assertion, stamp, transition,
}

pub db-send : (msg : _) (m : Machine) → (send msg m).db ≡ m.db
unfolding send
db-send msg m = ground arith

module _ (realtime : Bool) where
  pub db-on_terminal : (ext : Bool) (m : Machine) → (on_terminal realtime ext m).db ≡ m.db
  unfolding on_terminal send
  db-on_terminal ext m = ground arith

  pub events-on_terminal :
      (ext : Bool) (m : Machine)
      → (on_terminal realtime ext m).events ≡ (
          if m.terminal || ext then m.events else m.events ++ session_terminal m.session.state ∷ [])
  unfolding on_terminal send
  events-on_terminal ext m = ground arith

  pub terminal-on_terminal :
      (ext : Bool) (m : Machine) → (on_terminal realtime ext m).terminal ≡ true
  unfolding on_terminal send
  terminal-on_terminal ext m = ground arith

module _ (env : Env) (now : ℕ) where
  db-lost_race : (from to : SessionState) (m : Machine) → (lost_race env now from to m).1.db ≡ m.db
  unfolding lost_race send
  db-lost_race from to m = ground arith

  events-lost_race :
      (from to : SessionState) (m : Machine) → (lost_race env now from to m).1.events ≡ m.events
  unfolding lost_race send
  events-lost_race from to m = ground arith

  db-won_race :
      (to : SessionState) (reason : Text) (row : Session) (m : Machine)
      → (won_race env now to reason row m).1.db ≡ some row
  unfolding won_race send
  db-won_race to reason row m = ground arith

  events-won_race :
      (to : SessionState) (reason : Text) (row : Session) (m : Machine)
      → (won_race env now to reason row m).1.events ≡ (
          if m.terminal || not (is_terminal to)
          then m.events
          else m.events ++ session_terminal row.state ∷ [])
  unfolding won_race send
  events-won_race to reason row m = ground arith

  lost_race-Guarantee :
      (from to : SessionState) (m : Machine)
      → Guarantee m.world (lost_race env now from to m).1.world
  lost_race-Guarantee from to m =
      Guarantee-of_eq m.world _ (db-lost_race from to m) (events-lost_race from to m)

  -- The writer that moves the row along an edge of the table announces the end at most once.
  won_race-Guarantee :
      (to : SessionState) (reason : Text) (row row' : Session) (m : Machine)
      → m.db ≡ some row
      → row'.state ≡ to
      → can_transition row.state row'.state ≡ true
      → Guarantee m.world (won_race env now to reason row' m).1.world
  won_race-Guarantee to reason row row' m stored target edge =
      Guarantee-of_edge m.world _ row row' stored (db-won_race to reason row' m) edge
        (ground (arith, events-won_race to reason row' m))

  write_row-Guarantee :
      (o : Option Session) (from to : SessionState) (reason : Text) (extra : Extra) (m : Machine)
      → m.db ≡ o
      → can_transition from to ≡ true
      → Guarantee m.world (write_row env now o from to reason extra m).1.world
  unfolding write_row
  write_row-Guarantee none from to reason extra m stored edge = lost_race-Guarantee from to m
  write_row-Guarantee (some row) from to reason extra m stored edge =
      elim (Bool-cases (state_eq row.state from)) [
        | inl same ↦
            let at_from : row.state ≡ from = eq_of_state_eq row.state from same in
            rw same (won_race-Guarantee to reason row _ m stored refl (rw at_from edge))
        | inr other ↦ rw other (lost_race-Guarantee from to m)
      ]

  after_assertion-Guarantee :
      (a : Assertion) (from to : SessionState) (reason : Text) (extra : Extra) (m : Machine)
      → assert_transition from to ≡ a
      → Guarantee m.world (after_assertion env now a from to reason extra m).1.world
  unfolding after_assertion assert_transition
  after_assertion-Guarantee (invalid_transition s t) from to reason extra m h =
      Guarantee-refl m.world
  after_assertion-Guarantee passed from to reason extra m h =
      write_row-Guarantee m.db from to reason extra
        (on_engine (λ e. record e { runtime = stamp now from to e.runtime }) m) refl (ground arith)

  -- Whatever the engine believes, a transition moves the stored row along an edge of the table or
  -- leaves its state alone, and keeps the end announced at most once.
  pub transition-Guarantees :
      (to : SessionState) (reason : Text) (extra : Extra)
      → Guarantees (transition env now to reason extra)
  unfolding transition
  transition-Guarantees to reason extra m =
      after_assertion-Guarantee _ m.session.state to reason extra m refl
