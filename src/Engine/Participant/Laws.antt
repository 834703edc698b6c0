-- ===== src/Engine/Participant/Laws.antt =====
-- The guarantee of what the participant says.
use conversa_forge.Prelude.{ℕ, ◌≡◌, refl, ap, Bool, List, [], ◌∷◌, map, Option, none, some, Text}
use conversa_forge.Session.{SessionState}
use conversa_forge.Engine.State.{Env, Machine, Generation, DeferredClose, TurnRecord, ServerMessage}
use conversa_forge.Engine.Exec.{modify, send}
use conversa_forge.Engine.Guarantee.{
  announced, state_of, Guarantees, modify-Guarantees, guarantee_rules,
}
use conversa_forge.Engine.Turns.Quiet.{persist_turn-Guarantees}
use conversa_forge.Engine.Speech.Laws.{abort_generation-Guarantees}
use conversa_forge.Engine.Ending.Laws.{close_session_now-Guarantees}
use conversa_forge.Engine.Connection.Laws.{schedule_generation-Guarantees}
use conversa_forge.Engine.Participant.{
  send_all, flush_notices, flush_instructions, ParticipantFinal, flush_deferred, speech_started,
  speech_ended, on_speaking, resume_after_false_barge_in, close_or_reply, after_final, accept_final,
  echo_or_accept, on_participant_final, notice_of, instruction_of,
}

world-send_all :
    (msgs : List ServerMessage) (m : Machine)
    → ((send_all msgs m).db ≡ m.db) × ((send_all msgs m).events ≡ m.events)
unfolding send_all send
world-send_all [] m = (refl, refl)
world-send_all (msg ∷ msgs) m = world-send_all msgs (send msg m)

flush_notices-Guarantees : Guarantees (modify flush_notices)
unfolding flush_notices
flush_notices-Guarantees =
    modify-Guarantees flush_notices
      (λ m. ap state_of (world-send_all (map notice_of m.deferred_notices) m).0)
      (λ m. ap announced (world-send_all (map notice_of m.deferred_notices) m).1)

flush_instructions-Guarantees : Guarantees (modify flush_instructions)
unfolding flush_instructions
flush_instructions-Guarantees =
    modify-Guarantees flush_instructions
      (λ m. ap state_of (world-send_all (map instruction_of m.runtime.pending_instructions) m).0)
      (λ m. ap announced (world-send_all (map instruction_of m.runtime.pending_instructions) m).1)

module _ (env : Env) (now : ℕ) where
  ruleset participant_rules = (
    guarantee_rules, flush_notices-Guarantees, flush_instructions-Guarantees,
    persist_turn-Guarantees, abort_generation-Guarantees, close_session_now-Guarantees,
    schedule_generation-Guarantees,
  )

  pub flush_deferred-Guarantees : Guarantees (flush_deferred env now)
  unfolding flush_deferred
  flush_deferred-Guarantees = search participant_rules depth 12

  speech_started-Guarantees : Guarantees (speech_started env now)
  unfolding speech_started
  speech_started-Guarantees = search participant_rules depth 12

  speech_ended-Guarantees : Guarantees (speech_ended env now)
  unfolding speech_ended
  speech_ended-Guarantees = search (participant_rules, flush_deferred-Guarantees) depth 12

  pub on_speaking-Guarantees : (speaking : Bool) → Guarantees (on_speaking env now speaking)
  unfolding on_speaking
  on_speaking-Guarantees speaking =
      search (participant_rules, speech_started-Guarantees, speech_ended-Guarantees) depth 12

  pub resume_after_false_barge_in-Guarantees :
      (g : Generation) → Guarantees (resume_after_false_barge_in env now g)
  unfolding resume_after_false_barge_in
  resume_after_false_barge_in-Guarantees g = search participant_rules depth 12

  close_or_reply-Guarantees :
      (d : Option DeferredClose) (closing_id : ℕ) (g : Generation)
      → Guarantees (close_or_reply env now d closing_id g)
  unfolding close_or_reply
  close_or_reply-Guarantees (some d) closing_id g = search participant_rules depth 12
  close_or_reply-Guarantees none closing_id g =
      search (participant_rules, flush_deferred-Guarantees) depth 12

  after_final-Guarantees :
      (st : SessionState) (turn : Option TurnRecord) (closing_id : ℕ) (g : Generation)
      → Guarantees (after_final env now st turn closing_id g)
  unfolding after_final
  after_final-Guarantees st none closing_id g = search participant_rules depth 12
  after_final-Guarantees st (some turn) closing_id g =
      search (participant_rules, close_or_reply-Guarantees) depth 12

  accept_final-Guarantees :
      (msg : ParticipantFinal) (words : Text) (fresh_id closing_id : ℕ) (g : Generation)
      → Guarantees (accept_final env now msg words fresh_id closing_id g)
  unfolding accept_final
  accept_final-Guarantees msg words fresh_id closing_id g =
      search (participant_rules, after_final-Guarantees) depth 12

  echo_or_accept-Guarantees :
      (known : Option TurnRecord) (msg : ParticipantFinal) (words : Text) (fresh_id closing_id : ℕ)
      (g : Generation)
      → Guarantees (echo_or_accept env now known msg words fresh_id closing_id g)
  unfolding echo_or_accept
  echo_or_accept-Guarantees (some t) msg words fresh_id closing_id g =
      search participant_rules depth 12
  echo_or_accept-Guarantees none msg words fresh_id closing_id g =
      search (participant_rules, accept_final-Guarantees) depth 12

  pub on_participant_final-Guarantees :
      (msg : ParticipantFinal) (fresh_id closing_id : ℕ) (g : Generation)
      → Guarantees (on_participant_final env now msg fresh_id closing_id g)
  unfolding on_participant_final
  on_participant_final-Guarantees msg fresh_id closing_id g =
      search (participant_rules, echo_or_accept-Guarantees) depth 12
