-- ===== src/Engine/Control/Laws.antt =====
-- The guarantee of the participant's commands and of the failures of the model.
use conversa_forge.Prelude.{
  ℕ, ◌≡◌, refl, sym, ap, ◌∙◌, Bool, Option, none, some, arith, ◌++◌, [], ◌∷◌,
}
use conversa_forge.Engine.State.{Env, Machine, Session, Generation, TurnRecord, session_started}
use conversa_forge.Engine.Exec.{modify, on_world}
use conversa_forge.Engine.Guarantee.{
  announced-append, Guarantee, Guarantees, Guarantee-of_state, guarantee_rules, state_of,
  Guarantee-refl,
}
use conversa_forge.Engine.Transition.Laws.{transition-Guarantees}
use conversa_forge.Engine.Turns.Quiet.{persist_turn-Guarantees}
use conversa_forge.Engine.Speech.Laws.{
  truncate_turn-Guarantees, speak_scripted-Guarantees, abort_generation-Guarantees,
}
use conversa_forge.Engine.Ending.Laws.{
  save_runtime_state-Guarantees, complete-Guarantees, close_session_now-Guarantees,
}
use conversa_forge.Engine.Control.{
  write_back, update_row, record_consent, open_conversation, start_ready, on_start, ControlAction,
  pause, resume, end, mute, unmute, unknown, set_muted, on_control, truncate_found,
  complete_if_closing, PlaybackEvent, started, finished, interrupted, on_playback, keep_streamed,
  give_up_or_go_on, on_generation_error,
}

write_back-Guarantee :
    (f : Session → Session) (o : Option Session) (m : Machine)
    → ((s : Session) → (f s).state ≡ s.state)
    → m.db ≡ o
    → Guarantee m.world (write_back f o m).1.world
unfolding write_back
write_back-Guarantee f none m keeps stored = Guarantee-refl m.world
write_back-Guarantee f (some row) m keeps stored =
    Guarantee-of_state m.world _ (ap some (keeps row) ∙ sym (ap state_of stored)) refl

pub update_row-Guarantees :
    (f : Session → Session) → ((s : Session) → (f s).state ≡ s.state) → Guarantees (update_row f)
unfolding update_row
update_row-Guarantees f keeps m = write_back-Guarantee f m.db m keeps refl

announce_start-Guarantees :
    Guarantees (modify (on_world (λ w. record w { events = w.events ++ session_started ∷ [] })))
announce_start-Guarantees m =
    Guarantee-of_state m.world _ refl
      (omega (arith, announced-append m.events (session_started ∷ [])))

ruleset control_rules = (
  guarantee_rules, transition-Guarantees, persist_turn-Guarantees, truncate_turn-Guarantees,
  speak_scripted-Guarantees, abort_generation-Guarantees, save_runtime_state-Guarantees,
  complete-Guarantees, close_session_now-Guarantees, update_row-Guarantees,
  announce_start-Guarantees,
)

module _ (env : Env) (now : ℕ) where
  pub record_consent-Guarantees : (analysis : Bool) → Guarantees (record_consent env now analysis)
  unfolding record_consent
  record_consent-Guarantees analysis = search control_rules depth 14

  open_conversation-Guarantees : (id : ℕ) → Guarantees (open_conversation env now id)
  unfolding open_conversation
  open_conversation-Guarantees id = search control_rules depth 16

  start_ready-Guarantees : (q : Bool) (id : ℕ) → Guarantees (start_ready env now q id)
  unfolding start_ready
  start_ready-Guarantees q id = search (control_rules, open_conversation-Guarantees) depth 14

  pub on_start-Guarantees : (q : Bool) (id : ℕ) → Guarantees (on_start env now q id)
  unfolding on_start
  on_start-Guarantees q id = search (control_rules, start_ready-Guarantees) depth 14

  set_muted-Guarantees : (b : Bool) → Guarantees (set_muted env now b)
  unfolding set_muted
  set_muted-Guarantees b = search control_rules depth 12

  pub on_control-Guarantees : (c : ControlAction) (id : ℕ) → Guarantees (on_control env now c id)
  unfolding on_control
  on_control-Guarantees pause id = search control_rules depth 14
  on_control-Guarantees resume id = search control_rules depth 14
  on_control-Guarantees end id = search control_rules depth 14
  on_control-Guarantees mute id = set_muted-Guarantees _
  on_control-Guarantees unmute id = set_muted-Guarantees _
  on_control-Guarantees unknown id = search control_rules depth 14

  truncate_found-Guarantees :
      (o : Option TurnRecord) (id spoken : ℕ) → Guarantees (truncate_found env now o id spoken)
  unfolding truncate_found
  truncate_found-Guarantees none id spoken = search control_rules depth 12
  truncate_found-Guarantees (some t) id spoken = search control_rules depth 12

  complete_if_closing-Guarantees : (id : ℕ) → Guarantees (complete_if_closing env now id)
  unfolding complete_if_closing
  complete_if_closing-Guarantees id = search control_rules depth 12

  pub on_playback-Guarantees :
      (id : ℕ) (event : PlaybackEvent) → Guarantees (on_playback env now id event)
  unfolding on_playback
  on_playback-Guarantees id started = search control_rules
  on_playback-Guarantees id finished =
      search (control_rules, complete_if_closing-Guarantees) depth 12
  on_playback-Guarantees id (interrupted spoken) =
      search (control_rules, complete_if_closing-Guarantees, truncate_found-Guarantees) depth 12

  keep_streamed-Guarantees : (g : Generation) → Guarantees (keep_streamed env now g)
  unfolding keep_streamed
  keep_streamed-Guarantees g = search control_rules depth 14

  give_up_or_go_on-Guarantees : Guarantees (give_up_or_go_on env now)
  unfolding give_up_or_go_on
  give_up_or_go_on-Guarantees = search control_rules depth 12

  pub on_generation_error-Guarantees : (g : Generation) → Guarantees (on_generation_error env now g)
  unfolding on_generation_error
  on_generation_error-Guarantees g =
      search (control_rules, keep_streamed-Guarantees, give_up_or_go_on-Guarantees) depth 14
