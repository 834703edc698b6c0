-- ===== src/Session.antt =====
-- The session life cycle of shared/session-state.ts: the states, the table of transitions and the
-- predicates over them. `Session.Reach` proves what the table allows over whole histories.
pub mod Reach
mod Tests
use conversa_forge.Prelude.{
  ℕ, ◌≡◌, arith, Bool, true, false, List, [], ◌∷◌, any, ◌==◌, if◌then◌else◌,
}

pub data SessionState : Type 0 where
  created ready connecting active paused reconnecting ending : SessionState
  completed failed cancelled expired abandoned : SessionState

-- The position in SESSION_STATES; `===` on states compares it.
abbrev pub index : SessionState → ℕ
index created = 0
index ready = 1
index connecting = 2
index active = 3
index paused = 4
index reconnecting = 5
index ending = 6
index completed = 7
index failed = 8
index cancelled = 9
index expired = 10
index abandoned = 11

abbrev pub state_eq : SessionState → SessionState → Bool
state_eq s t = index s == index t

abbrev pub includes : List SessionState → SessionState → Bool
includes states s = any (state_eq s) states

abbrev pub terminal_states : List SessionState
terminal_states = completed ∷ failed ∷ cancelled ∷ expired ∷ abandoned ∷ []

abbrev pub analyzable_terminal_states : List SessionState
analyzable_terminal_states = completed ∷ abandoned ∷ failed ∷ []

abbrev pub live_states : List SessionState
live_states = active ∷ paused ∷ reconnecting ∷ ending ∷ []

abbrev pub session_transitions : SessionState → List SessionState
session_transitions created = ready ∷ cancelled ∷ expired ∷ failed ∷ []
session_transitions ready = connecting ∷ cancelled ∷ expired ∷ failed ∷ []
session_transitions connecting = active ∷ reconnecting ∷ failed ∷ cancelled ∷ ending ∷ []
session_transitions active = paused ∷ reconnecting ∷ ending ∷ failed ∷ []
session_transitions paused = active ∷ ending ∷ reconnecting ∷ failed ∷ abandoned ∷ []
session_transitions reconnecting = active ∷ paused ∷ ending ∷ failed ∷ abandoned ∷ []
session_transitions ending = completed ∷ failed ∷ []
session_transitions completed = []
session_transitions failed = []
session_transitions cancelled = []
session_transitions expired = []
session_transitions abandoned = []

unfoldable pub is_terminal : SessionState → Bool
is_terminal state = includes terminal_states state

unfoldable pub can_transition : SessionState → SessionState → Bool
can_transition from to = includes (session_transitions from) to

-- `InvalidTransitionError`, or nothing.
pub data Assertion : Type 0 where
  passed : Assertion
  invalid_transition : SessionState → SessionState → Assertion

unfoldable pub assert_transition : SessionState → SessionState → Assertion
unfolding can_transition
assert_transition from to = if can_transition from to then passed else invalid_transition from to

pub state_eq_refl : (s : SessionState) → state_eq s s ≡ true
state_eq_refl s = ground arith

pub eq_of_state_eq : (s t : SessionState) → state_eq s t ≡ true → s ≡ t
eq_of_state_eq s t h = ground arith
