-- ===== src/Engine/Control.antt =====
-- The participant's side of the life cycle: `recordConsent`, `onStart`, `onControl`, `onSpeaking`
-- and `onPlayback`, and the failures of the model, `onGenerationError`.
pub mod Laws
use mathlib.Core.Option
use conversa_forge.Prelude.{
  ℕ, suc, ◌+◌, ◌-◌, ltb, leb, ◌==◌, ◌&&◌, ◌||◌, not, Bool, true, false, List, [], ◌∷◌, ◌++◌, find,
  Option, none, some, is_some, get_or_else, String, Text, text, text_eq, trim, is_empty,
  if◌then◌else◌,
}
use conversa_forge.Session.{
  SessionState, created, ready, connecting, active, paused, ending, failed,
}
use conversa_forge.Engine.State.{
  Speaker, agent, participant, system, opening, not_started, skipped, TurnRecord, RuntimeState,
  Session, Generation, session_started, state_changed, realtime_instruction, agent_end,
  agent_cancel, Env, SessionEngine, Machine,
}
use conversa_forge.Engine.Exec.{
  Fault, conflict, not_found, ok, err, Exec, ◌>>=◌, ◌>>◌, get, done, pure, throw, modify, send,
  error, on_engine, on_runtime, on_ledger, on_world,
}
use conversa_forge.Engine.Ledger.{record_usage}
use conversa_forge.Engine.Transition.{Extra, plain, transition}
use conversa_forge.Engine.Turns.{persist_turn}
use conversa_forge.Engine.Speech.{
  truncate_turn, speak_scripted, abort_generation, agent_turn, agent_metadata, source_name,
}
use conversa_forge.Engine.Ending.{is_in, save_runtime_state, close_session_now, complete}

-- `this.session = await prisma.session.update(...)`, on the stored row, which must be there.
write_back : (Session → Session) → Option Session → Exec (Unit {0})
write_back f none m = (err not_found, m)
write_back f (some row) m = (
  ok tt,
  record m {
    engine = record m.engine { session = f row };
    world = record m.world { db = some (f row) };
  },
)

pub update_row : (Session → Session) → Exec (Unit {0})
unfolding write_back
update_row f m = write_back f m.db m

module _ (env : Env) (now : ℕ) where
  -- `recordConsent`, for a consent whose `analysis` is the argument
  unfoldable pub record_consent : (analysis : Bool) → Exec (Unit {0})
  unfolding update_row
  record_consent analysis = do
    m ← get
    if not (is_in (created ∷ ready ∷ []) m) then throw conflict else (do
      update_row (λ s. record s {
        analysis_consent = some analysis;
        analysis_status = if analysis then not_started else skipped;
      })
      if is_in (created ∷ []) m
          then transition env now ready (text "consent_given") plain
          else done)

  -- `consentRequired`
  abbrev consent_required : Bool
  consent_required = env.record_audio || env.record_video || env.analysis_enabled

  -- The first turn, once the session is active.
  open_conversation : ℕ → Exec (Unit {0})
  unfolding save_runtime_state
  open_conversation fresh_id = do
    modify (on_world (λ w. record w { events = w.events ++ session_started ∷ [] }))
    modify (on_runtime (λ r. record r { phase = opening }))
    modify (on_engine (λ e. record e { last_participant_activity_at = now }))
    if env.realtime
        then modify (on_runtime (λ r. record r { realtime_started_at = some now }))
        else done
    if env.first_turn_agent
        then if env.realtime
          then modify (send (realtime_instruction env.first_turn_text true))
          else (do turn ← speak_scripted env now fresh_id env.first_turn_text "opening"; done)
        else done
    modify (save_runtime_state env now)

  -- The part of `onStart` from the check of the state `READY` on; `within_quota` is the answer of
  -- the usage service.
  start_ready : (within_quota : Bool) → ℕ → Exec (Unit {0})
  unfolding open_conversation
  start_ready within_quota fresh_id = do
    m ← get
    if not (is_in (ready ∷ []) m)
        then modify (send (state_changed m.session.state none))
        else if not within_quota
        then modify (error (text "quota_exceeded") true)
        else (do
          transition env now connecting (text "start") plain
          transition env now active (text "started")
              (record { started_at = some now; ended_by = none; error_code = none })
          open_conversation fresh_id)

  -- `onStart`
  unfoldable pub on_start : (within_quota : Bool) → ℕ → Exec (Unit {0})
  unfolding start_ready update_row
  on_start within_quota fresh_id = do
    m ← get
    if is_in (created ∷ []) m
        then if consent_required then modify (error (text "consent_required") false) else (do
          update_row (λ s. record s { analysis_consent = some false })
          transition env now ready (text "no_consent_required") plain
          start_ready within_quota fresh_id)
        else start_ready within_quota fresh_id

pub data ControlAction : Type 0 where
  pause resume end mute unmute unknown : ControlAction

pub data PlaybackEvent : Type 0 where
  started finished : PlaybackEvent
  interrupted : (spoken_chars : ℕ) → PlaybackEvent

abbrev pub max_llm_failures : ℕ
max_llm_failures = 3

abbrev max_safe_integer : ℕ
max_safe_integer = 9007199254740991

module _ (env : Env) (now : ℕ) where
  set_muted : Bool → Exec (Unit {0})
  unfolding save_runtime_state
  set_muted value = do
    modify (on_runtime (λ r. record r { muted = value }))
    modify (save_runtime_state env now)

  -- `onControl`; `fresh_id` is for the closing words.
  unfoldable pub on_control : ControlAction → ℕ → Exec (Unit {0})
  unfolding set_muted
  on_control pause fresh_id = do
    m ← get
    if not (is_in (active ∷ []) m) then modify (error (text "invalid_state") false) else (do
      abort_generation env now (text "paused")
      modify (on_runtime (λ r. record r { paused_at = some now }))
      transition env now paused (text "participant_paused") plain)
  on_control resume fresh_id = do
    m ← get
    if not (is_in (paused ∷ []) m) then modify (error (text "invalid_state") false) else (do
      modify (on_runtime (λ r. record r { paused_at = none }))
      modify (on_engine (λ e. record e { last_participant_activity_at = now }))
      transition env now active (text "participant_resumed") plain)
  on_control end fresh_id = do
    m ← get
    if not env.allow_participant_end && is_in (active ∷ paused ∷ []) m
        then modify (error (text "not_allowed") false)
        else close_session_now env now fresh_id (text "participant_ended") (text "participant")
  on_control mute fresh_id = set_muted true
  on_control unmute fresh_id = set_muted false
  on_control unknown fresh_id = modify (error (text "bad_request") false)

  abbrev is_agent : Speaker → Bool
  is_agent agent = true
  is_agent _ = false

  abbrev is_generating : ℕ → Machine → Bool
  is_generating id m = elim m.gen [ none ↦ false | some g ↦ g.turn_id == id ]

  truncate_found : Option TurnRecord → ℕ → ℕ → Exec (Unit {0})
  truncate_found (some t) id spoken = truncate_turn t spoken
  truncate_found none id spoken = do
    m ← get
    if is_generating id m
        then modify (
            on_engine
              (λ e. record e { pending_truncations = (id, spoken) ∷ e.pending_truncations }))
        else done

  abbrev closing_turn_is : ℕ → Machine → Bool
  closing_turn_is id m = elim (Option.bind m.runtime.end_requested (λ er. er.closing_turn_id)) [
    | none ↦ false
    | some c ↦ c == id
  ]

  complete_if_closing : ℕ → Exec (Unit {0})
  unfolding complete
  complete_if_closing id = do
    m ← get
    if closing_turn_is id m && is_in (ending ∷ []) m then complete env now else done

  -- `onPlayback`
  unfoldable pub on_playback : ℕ → PlaybackEvent → Exec (Unit {0})
  unfolding truncate_found complete_if_closing
  on_playback id started =
      modify (on_engine (λ e. record e { agent_busy_until = max_safe_integer }))
  on_playback id finished = do
    modify (on_engine (λ e. record e { agent_busy_until = now }))
    complete_if_closing id
  on_playback id (interrupted spoken) = do
    modify (on_engine (λ e. record e { agent_busy_until = now }))
    m ← get
    truncate_found (find (λ (t : TurnRecord). t.id == id && is_agent t.speaker) m.turns) id spoken
    complete_if_closing id

  -- What was streamed before the model failed.
  keep_streamed : Generation → Exec (Unit {0})
  keep_streamed g = if is_empty (trim g.text) then modify (send (agent_cancel g.turn_id)) else (do
    modify (send (agent_end g.turn_id (trim g.text) true))
    m ← get
    turn ← persist_turn env (
        agent_turn env now g.turn_id (trim g.text) (source_name env now) true
          (agent_metadata env now g) m.session)
    done)

  -- The end of `onGenerationError`: the session fails with the third failure in a row.
  give_up_or_go_on : Exec (Unit {0})
  give_up_or_go_on = do
    m ← get
    if leb max_llm_failures m.runtime.consecutive_llm_failures
        then (do
          modify (error (text "llm_unavailable") true)
          transition env now failed (text "llm_unavailable") (record {
            started_at = none;
            ended_by = some (text "system");
            error_code = some (text "llm_unavailable");
          }))
        else (do modify (error (text "llm_error") false); modify (save_runtime_state env now))

  -- `onGenerationError`
  unfoldable pub on_generation_error : Generation → Exec (Unit {0})
  unfolding keep_streamed give_up_or_go_on
  on_generation_error g = do
    m ← get
    if is_generating g.turn_id m then modify (on_engine (λ e. record e { gen = none })) else done
    modify
        (on_runtime (λ r. record r { consecutive_llm_failures = r.consecutive_llm_failures + 1 }))
    modify (on_ledger (record_usage g none))
    keep_streamed g
    give_up_or_go_on
