-- ===== src/Session/Tests.antt =====
-- Histories of a session.
use conversa_forge.Prelude.{◌≡◌, ◌↔◌, ◌⊎◌, refl, true, false}
use conversa_forge.Session.{
  SessionState, active, ending, completed, includes, is_terminal, can_transition,
}
use conversa_forge.Session.Reach.{
  Reach, here, next, is_terminal_iff, started_states, started_stays, Passes, Reach-completed,
}

abbrev to_the_end : Reach active completed
unfolding can_transition
to_the_end = next {t = ending} (next {t = active} here refl) refl

is_terminal_iff_example :
    (is_terminal ending ≡ true) ↔ ((t : SessionState) → can_transition ending t ≡ false)
is_terminal_iff_example = is_terminal_iff ending

started_stays_example : includes started_states completed ≡ true
started_stays_example = started_stays refl to_the_end

Reach-completed_example : (active ≡ completed) ⊎ Passes ending to_the_end
Reach-completed_example = Reach-completed to_the_end refl
