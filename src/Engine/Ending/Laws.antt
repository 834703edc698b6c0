-- ===== src/Engine/Ending/Laws.antt =====
-- The guarantee of each way to end a session.
use conversa_forge.Prelude.{ℕ, refl, Text, Option}
use conversa_forge.Session.{SessionState}
use conversa_forge.Engine.State.{Env}
use conversa_forge.Engine.Exec.{modify}
use conversa_forge.Engine.Guarantee.{Guarantees, modify-Guarantees, guarantee_rules, state_of-map}
use conversa_forge.Engine.Transition.Laws.{transition-Guarantees}
use conversa_forge.Engine.Speech.Laws.{speak_scripted-Guarantees, abort_generation-Guarantees}
use conversa_forge.Engine.Ending.{
  save_runtime_state, complete_ending, complete, abandon, abandon_waiting, say_closing,
  close_started, close_session_now, fail, complete_if_detached, begin_agent_ending,
}

pub save_runtime_state-Guarantees :
    (env : Env) (now : ℕ) → Guarantees (modify (save_runtime_state env now))
unfolding save_runtime_state
save_runtime_state-Guarantees env now =
    modify-Guarantees (save_runtime_state env now) (λ m. state_of-map _ m.db (λ s. refl))
      (λ m. refl)

ruleset speech_rules = (
  guarantee_rules, transition-Guarantees, speak_scripted-Guarantees, abort_generation-Guarantees,
  save_runtime_state-Guarantees,
)

module _ (env : Env) (now : ℕ) where
  complete_ending-Guarantees : Guarantees (complete_ending env now)
  unfolding complete_ending
  complete_ending-Guarantees = search speech_rules

  pub complete-Guarantees : Guarantees (complete env now)
  unfolding complete
  complete-Guarantees = search (speech_rules, complete_ending-Guarantees) depth 12

  say_closing-Guarantees : (id : ℕ) → Guarantees (say_closing env now id)
  unfolding say_closing
  say_closing-Guarantees id = search speech_rules depth 12

  close_started-Guarantees :
      (st : SessionState) (id : ℕ) (reason ended_by : Text)
      → Guarantees (close_started env now st id reason ended_by)
  unfolding close_started
  close_started-Guarantees st id reason ended_by =
      search (speech_rules, complete-Guarantees, say_closing-Guarantees) depth 12

  -- `closeSessionNow` gives the guarantee.
  pub close_session_now-Guarantees :
      (id : ℕ) (reason ended_by : Text) → Guarantees (close_session_now env now id reason ended_by)
  unfolding close_session_now
  close_session_now-Guarantees id reason ended_by =
      search (speech_rules, close_started-Guarantees) depth 12

  abandon_waiting-Guarantees : (reason : Text) → Guarantees (abandon_waiting env now reason)
  unfolding abandon_waiting
  abandon_waiting-Guarantees reason = search speech_rules depth 12

  pub abandon-Guarantees : (reason : Text) → Guarantees (abandon env now reason)
  unfolding abandon
  abandon-Guarantees reason =
      search (speech_rules, complete-Guarantees, abandon_waiting-Guarantees) depth 12

  pub fail-Guarantees : (code : Text) → Guarantees (fail env now code)
  unfolding fail
  fail-Guarantees code = search speech_rules depth 12

  complete_if_detached-Guarantees : Guarantees (complete_if_detached env now)
  unfolding complete_if_detached
  complete_if_detached-Guarantees = search (speech_rules, complete-Guarantees) depth 12

  pub begin_agent_ending-Guarantees :
      (id : ℕ) (reason : Text) (closing_turn_id : Option ℕ) (spoken_text : Text)
      → Guarantees (begin_agent_ending env now id reason closing_turn_id spoken_text)
  unfolding begin_agent_ending
  begin_agent_ending-Guarantees id reason closing_turn_id spoken_text =
      search (speech_rules, complete_if_detached-Guarantees) depth 12
