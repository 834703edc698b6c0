-- ===== src/Engine/Ending.antt =====
-- How a session ends: `closeSessionNow`, `complete`, `abandon`, `fail`, `beginAgentEnding`, and
-- `saveRuntimeState`.
pub mod Laws
pub mod Outcome
use mathlib.Core.Option
use conversa_forge.Prelude.{
  ℕ, ◌+◌, min, ◌==◌, ltb, ◌||◌, ◌&&◌, not, Bool, true, false, List, [], ◌∷◌, ◌++◌, Option, none,
  some, is_some, get_or_else, Text, text, length, is_empty, if◌then◌else◌,
}
use conversa_forge.Session.{
  SessionState, created, ready, connecting, active, paused, reconnecting, ending, completed, failed,
  cancelled, expired, abandoned, includes, state_eq,
}
use conversa_forge.Engine.State.{
  closing, TurnRecord, EndRequest, RuntimeState, Session, realtime_instruction, Env, Machine,
}
use conversa_forge.Engine.Exec.{
  ok, Exec, ◌>>=◌, ◌>>◌, get, done, pure, modify, send, error, on_engine, on_runtime, on_world,
}
use conversa_forge.Engine.Transition.{Extra, plain, by_whom, transition}
use conversa_forge.Engine.Speech.{speak_scripted, abort_generation}

abbrev pub is_in : List SessionState → Machine → Bool
is_in states m = includes states m.session.state

module _ (env : Env) (now : ℕ) where
  -- `saveRuntimeState`
  unfoldable pub save_runtime_state : Machine → Machine
  save_runtime_state m =
      let r = record m.runtime { heartbeat_at = some now } in
      record m {
        engine = record m.engine { runtime = r };
        world = record m.world {
          db = Option.map (λ (s : Session). record s { runtime_state = r }) m.db;
        };
      }

  -- `er?.reason ?? 'completed'` and `er?.by ?? 'system'`
  abbrev end_reason : Option EndRequest → Text
  end_reason none = text "completed"
  end_reason (some er) = er.reason

  abbrev pub end_by : Option EndRequest → Text
  end_by none = text "system"
  end_by (some er) = er.by

  complete_ending : Exec (Unit {0})
  complete_ending = do
    m ← get
    transition env now completed (end_reason m.runtime.end_requested)
        (by_whom (end_by m.runtime.end_requested))

  -- `complete`
  unfoldable pub complete : Exec (Unit {0})
  unfolding complete_ending
  complete = do
    m ← get
    if m.terminal
        then done
        else if is_in (ending ∷ []) m
        then complete_ending
        else if is_in (active ∷ paused ∷ reconnecting ∷ []) m
        then (do transition env now ending (text "completing") plain; complete_ending)
        else done

  abbrev request_end : EndRequest → Machine → Machine
  request_end er m = on_runtime (λ r. record r { end_requested = some er; phase = closing }) m

  abbrev set_closing_turn : Option ℕ → Machine → Machine
  set_closing_turn id m =
      on_runtime
        (λ r. record r {
          end_requested =
              Option.map (λ (er : EndRequest). record er { closing_turn_id = id }) r.end_requested;
        })
        m

  abbrev wait_until : ℕ → Machine → Machine
  wait_until t m = on_engine (λ e. record e { closing_wait_until = t }) m

  abbrev turn_id : Option TurnRecord → Option ℕ
  turn_id t = Option.map (λ (t : TurnRecord). t.id) t

  abbrev closing_wait : Text → ℕ
  closing_wait words = now + min 30000 (env.estimate_speech_ms (length words) + 4000)

  -- The closing words of `closeSessionNow`, spoken while somebody is connected.
  say_closing : ℕ → Exec (Unit {0})
  unfolding save_runtime_state
  say_closing fresh_id =
      if env.realtime
      then (do
        modify (send (realtime_instruction env.closing_text true))
        modify (wait_until (now + 15000)))
      else (do
        t ← speak_scripted env now fresh_id env.closing_text "closing"
        modify (set_closing_turn (turn_id t))
        modify (wait_until (closing_wait env.closing_text))
        modify save_runtime_state)

  -- The part of `closeSessionNow` after the early returns; `st` is the state at its start.
  close_started : SessionState → ℕ → Text → Text → Exec (Unit {0})
  unfolding complete say_closing
  close_started st fresh_id reason ended_by = do
    abort_generation env now (text "closing")
    modify (on_engine (λ e. record e { deferred_close = none }))
    modify (request_end (record { reason = reason; by = ended_by; closing_turn_id = none }))
    transition env now ending reason plain
    m ← get
    if not (is_some m.transport) || state_eq st reconnecting then complete else say_closing fresh_id

  -- `closeSessionNow`
  unfoldable pub close_session_now : ℕ → Text → Text → Exec (Unit {0})
  unfolding close_started
  close_session_now fresh_id reason ended_by = do
    m ← get
    if m.terminal || is_in (ending ∷ []) m
        then done
        else if is_in (created ∷ ready ∷ []) m
        then transition env now cancelled reason (by_whom ended_by)
        else close_started m.session.state fresh_id reason ended_by

  -- The last step of `abandon`, on the state that the engine is in by then.
  abandon_waiting : Text → Exec (Unit {0})
  abandon_waiting reason = do
    m ← get
    if is_in (reconnecting ∷ paused ∷ []) m
        then transition env now abandoned reason (by_whom (text "system"))
        else done

  -- `abandon`
  unfoldable pub abandon : Text → Exec (Unit {0})
  unfolding complete abandon_waiting
  abandon reason = do
    m ← get
    if m.terminal
        then done
        else if is_in (ending ∷ []) m
        then complete
        else if is_in (created ∷ ready ∷ []) m
        then transition env now expired reason (by_whom (text "system"))
        else if is_in (active ∷ connecting ∷ []) m
        then (do transition env now reconnecting (text "orphaned") plain; abandon_waiting reason)
        else abandon_waiting reason

  -- `fail`
  unfoldable pub fail : Text → Exec (Unit {0})
  fail code = do
    m ← get
    if m.terminal then done else (do
      modify (error code true)
      transition env now failed code
          (record { started_at = none; ended_by = some (text "system"); error_code = some code }))

  complete_if_detached : Exec (Unit {0})
  unfolding complete
  complete_if_detached = do m ← get; if is_some m.transport then done else complete

  -- `beginAgentEnding`
  unfoldable pub begin_agent_ending : ℕ → Text → Option ℕ → Text → Exec (Unit {0})
  unfolding complete_if_detached
  begin_agent_ending fresh_id reason closing_turn_id spoken_text = do
    modify (
        request_end
          (record { reason = reason; by = text "agent"; closing_turn_id = closing_turn_id }))
    transition env now ending (text "agent_" ++ reason) plain
    if is_empty spoken_text
        then (do
          t ← speak_scripted env now fresh_id env.closing_text "closing"
          modify (set_closing_turn (turn_id t))
          modify (wait_until (closing_wait env.closing_text)))
        else modify (wait_until (closing_wait spoken_text))
    complete_if_detached
