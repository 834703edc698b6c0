-- ===== src/Engine/Participant.antt =====
-- What the participant says: `onSpeaking` with the timer of a false barge-in, `onParticipantFinal`,
-- and `flushDeferred`, which delivers what was held back while the participant spoke.
pub mod Laws
use conversa_forge.Prelude.{
  ℕ, ◌-◌, ltb, ◌&&◌, ◌||◌, not, any, Bool, true, false, List, [], ◌∷◌, ◌++◌, map, find, Option,
  none, some, is_some, Text, text, text_eq, trim, take, length, is_empty, if◌then◌else◌,
}
use conversa_forge.Session.{SessionState, active, ending, state_eq}
use conversa_forge.Engine.State.{
  participant, opening, agenda, Phase, closing, ended, no_metadata, TurnRecord, RuntimeState,
  Generation, DeferredClose, ServerMessage, realtime_instruction, notice, turn_saved, Env,
  SessionEngine, Machine,
}
use conversa_forge.Engine.Exec.{
  Exec, ◌>>=◌, ◌>>◌, get, done, pure, modify, send, error, on_engine, on_runtime,
}
use conversa_forge.Engine.Turns.{TurnInput, client_is, persist_turn}
use conversa_forge.Engine.Speech.{turn_offsets, abort_generation}
use conversa_forge.Engine.Ending.{is_in, close_session_now}
use conversa_forge.Engine.Connection.{schedule_generation}

unfoldable pub send_all : List ServerMessage → Machine → Machine
unfolding send
send_all [] m = m
send_all (msg ∷ msgs) m = send_all msgs (send msg m)

-- `participantActivity`
abbrev pub participant_activity : ℕ → SessionEngine → SessionEngine
participant_activity now e = record e { last_participant_activity_at = now; silence_fired = false }

-- `participantBusy`
abbrev pub participant_busy : ℕ → Machine → Bool
participant_busy now m = m.participant_speaking || ltb (now - m.last_partial_at) 2500

abbrev notice_of : Text × Text → ServerMessage
notice_of (level, message) = notice level message

abbrev instruction_of : Text × Text → ServerMessage
instruction_of (kind, words) = realtime_instruction (text "[" ++ kind ++ text "] " ++ words) false

unfoldable pub flush_notices : Machine → Machine
unfolding send_all
flush_notices m =
    on_engine (λ e. record e { deferred_notices = [] })
      (send_all (map notice_of m.deferred_notices) m)

unfoldable pub flush_instructions : Machine → Machine
unfolding send_all
flush_instructions m =
    on_runtime (λ r. record r { pending_instructions = [] })
      (send_all (map instruction_of m.runtime.pending_instructions) m)

-- A final utterance, of a client whose message has the texts that it must have.
pub record ParticipantFinal : Type 0 where
  pub text : Text
  pub client_turn_id : Text
  pub source : Text
  pub started_at_ms : Option ℕ
  pub ended_at_ms : Option ℕ

abbrev final_text_limit : ℕ
final_text_limit = 4000

abbrev is_opening : Phase → Bool
is_opening opening = true
is_opening _ = false

module _ (env : Env) (now : ℕ) where
  -- `flushDeferred`
  unfoldable pub flush_deferred : Exec (Unit {0})
  unfolding flush_notices flush_instructions
  flush_deferred = do
    m ← get
    if participant_busy now m then done else (do
      modify flush_notices
      if env.realtime && not (is_empty m.runtime.pending_instructions) && is_in (active ∷ []) m
          then modify flush_instructions
          else done)

  speech_started : Exec (Unit {0})
  speech_started = do
    m ← get
    if is_some m.gen && env.allow_barge_in && is_in (active ∷ []) m
        then (do
          modify
              (on_engine (λ e. record e { pending_barge_in = true; false_barge_in_timer = false }))
          abort_generation env now (text "barge_in"))
        else done

  speech_ended : Exec (Unit {0})
  unfolding flush_deferred
  speech_ended = do
    m ← get
    if m.pending_barge_in && is_in (active ∷ []) m && not env.realtime
        then modify (on_engine (λ e. record e { false_barge_in_timer = true }))
        else done
    flush_deferred

  -- `onSpeaking`; the timer that it sets runs `resume_after_false_barge_in` later.
  unfoldable pub on_speaking : Bool → Exec (Unit {0})
  unfolding speech_started speech_ended
  on_speaking speaking = do
    modify
        (on_engine (λ e. record (participant_activity now e) { participant_speaking = speaking }))
    if speaking then speech_started else speech_ended

  -- The task of the false barge-in timer; `g` is the new generation.
  unfoldable pub resume_after_false_barge_in : Generation → Exec (Unit {0})
  resume_after_false_barge_in g = do
    modify (on_engine (λ e. record e { false_barge_in_timer = false }))
    m ← get
    if not m.pending_barge_in
          || participant_busy now m
          || is_some m.gen
          || not (is_in (active ∷ []) m)
        then done
        else (do
          modify (on_engine (λ e. record e { pending_barge_in = false }))
          schedule_generation env now g)

  abbrev known_sources : List Text
  known_sources =
      text "browser_stt"
      ∷ text "server_stt"
      ∷ text "typed"
      ∷ text "realtime"
      ∷ text "simulated"
      ∷ []

  abbrev source_of : Text → Text
  source_of source = if any (text_eq source) known_sources then source else text "browser_stt"

  -- A close that waited for the participant to finish, or the reply that is due.
  close_or_reply : Option DeferredClose → ℕ → Generation → Exec (Unit {0})
  unfolding flush_deferred
  close_or_reply (some d) closing_id g = do
    modify (on_engine (λ e. record e { deferred_close = none }))
    close_session_now env now closing_id d.reason d.by
  close_or_reply none closing_id g = do
    flush_deferred
    if env.realtime then done else schedule_generation env now g

  -- What follows a turn that was stored; `st` is the state at its start.
  after_final : SessionState → Option TurnRecord → ℕ → Generation → Exec (Unit {0})
  unfolding close_or_reply
  after_final st none closing_id g = done
  after_final st (some turn) closing_id g = do
    modify (on_runtime (λ r. record r { phase = if is_opening r.phase then agenda else r.phase }))
    m ← get
    if state_eq st ending || is_some m.runtime.end_requested
        then done
        else close_or_reply m.deferred_close closing_id g

  -- A final utterance that is new and has text, in an active session or one in its last words.
  accept_final : ParticipantFinal → Text → (fresh_id closing_id : ℕ) → Generation → Exec (Unit {0})
  unfolding after_final turn_offsets
  accept_final msg words fresh_id closing_id g = do
    modify (
        on_engine (λ e. record (participant_activity now e) {
          participant_speaking = false;
          pending_barge_in = false;
          false_barge_in_timer = false;
        }))
    m ← get
    let offsets = turn_offsets now m.session msg.started_at_ms msg.ended_at_ms
    turn ← persist_turn env (record {
      id = fresh_id;
      speaker = participant;
      text = words;
      client_turn_id = some (take 128 msg.client_turn_id);
      source = some (source_of msg.source);
      interrupted = false;
      started_at_ms = offsets.0;
      ended_at_ms = some offsets.1;
      metadata = no_metadata;
    })
    after_final m.session.state turn closing_id g

  -- The echo of a turn that the engine knows already, or the checks of a new one.
  echo_or_accept :
      Option TurnRecord
      → ParticipantFinal
      → Text
      → (fresh_id closing_id : ℕ) → Generation
      → Exec (Unit {0})
  unfolding accept_final
  echo_or_accept (some known) msg words fresh_id closing_id g = modify (send (turn_saved known))
  echo_or_accept none msg words fresh_id closing_id g = do
    m ← get
    if is_empty words
        then done
        else if not (is_in (active ∷ ending ∷ []) m)
        then modify (error (text "not_active") false)
        else accept_final msg words fresh_id closing_id g

  -- `onParticipantFinal`; `fresh_id` is the id of the turn, `closing_id` of closing words, `g` the
  -- generation of the reply.
  unfoldable pub on_participant_final :
      ParticipantFinal → (fresh_id closing_id : ℕ) → Generation → Exec (Unit {0})
  unfolding echo_or_accept trim
  on_participant_final msg fresh_id closing_id g = do
    m ← get
    if is_empty msg.client_turn_id
        then modify (error (text "bad_request") false)
        else if ltb final_text_limit (length (trim msg.text))
        then modify (error (text "too_large") false)
        else echo_or_accept (find (client_is (take 128 msg.client_turn_id)) m.turns) msg
            (trim msg.text) fresh_id closing_id g
