-- ===== src/Engine/Timer.antt =====
-- The timer of the engine: `tick` with its heartbeat, timeouts, timed instructions, wrap-up, hard
-- cap and silence check-in, and `requestClose`, `addInstruction`, `notice`.
pub mod Laws
use conversa_forge.Prelude.{
  ℕ, ◌+◌, ◌-◌, ◌*◌, ◌/◌, min, max, ltb, leb, ◌==◌, ◌&&◌, ◌||◌, not, any, Bool, true, false, List,
  [], ◌∷◌, ◌++◌, Option, none, some, is_some, get_or_else, get_last?, Text, text, text_eq, is_empty,
  if◌then◌else◌,
}
use conversa_forge.Session.{created, ready, active, paused, reconnecting, ending, abandoned}
use conversa_forge.Engine.State.{
  Speaker, agent, TurnRecord, closing, TimedAction, nudge, wrap_up, end_session, TimedInstruction,
  DeferredClose, Generation, realtime_instruction, timer, Env, Machine,
}
use conversa_forge.Engine.Exec.{
  Exec, ◌>>=◌, ◌>>◌, get, done, pure, modify, send, on_engine, on_runtime,
}
use conversa_forge.Engine.Transition.{by_whom, elapsed_ms, transition}
use conversa_forge.Engine.Ending.{is_in, save_runtime_state, complete, close_session_now}
use conversa_forge.Engine.Connection.{schedule_generation}
use conversa_forge.Engine.Participant.{participant_busy, flush_deferred}

abbrev heartbeat_ms : ℕ
heartbeat_ms = 15000

abbrev reconnect_grace_ms : ℕ
reconnect_grace_ms = 90000

abbrev pause_timeout_ms : ℕ
pause_timeout_ms = 1800000

abbrev timer_broadcast_ms : ℕ
timer_broadcast_ms = 5000

abbrev cap_defer_max_ms : ℕ
cap_defer_max_ms = 30000

module _ (env : Env) (now : ℕ) where
  -- `requestClose`
  unfoldable pub request_close : Text → Text → ℕ → Machine → Machine
  request_close reason ended_by max_defer_ms m =
      on_engine
        (λ e. record e {
          deferred_close = some (record {
            reason = reason;
            by = ended_by;
            until = if participant_busy now m || is_some m.gen then now + max_defer_ms else now;
          });
        })
        m

  -- `addInstruction`
  add_instruction : Text → Text → Exec (Unit {0})
  unfolding flush_deferred
  add_instruction kind words = do
    modify (
        on_runtime
          (λ r. record r { pending_instructions = r.pending_instructions ++ (kind, words) ∷ [] }))
    if env.realtime then flush_deferred env now else done

  -- `notice`
  add_notice : Text → Text → Exec (Unit {0})
  unfolding flush_deferred
  add_notice level message = do
    modify (
        on_engine
          (λ e. record e { deferred_notices = e.deferred_notices ++ (level, message) ∷ [] }))
    flush_deferred env now

  -- `ti.instruction || ...`
  abbrev or_words : Text → Text → Text
  or_words words default = if is_empty words then default else words

  fire : TimedInstruction → Exec (Unit {0})
  unfolding request_close add_instruction
  fire ti = elim ti.action [
    | end_session ↦ modify (request_close (text "timed_end") (text "timer") 60000)
    | nudge ↦
        add_instruction (text "nudge")
          (or_words ti.instruction (text "Keep the conversation moving."))
    | wrap_up ↦ (do
      add_instruction (text "wrap_up") (or_words ti.instruction (text "Start wrapping up now."))
      modify (on_runtime (λ r. record r { phase = closing })))
  ]

  -- The loop over the timed instructions, in an active time of `elapsed`.
  fire_due : ℕ → List TimedInstruction → Exec (Unit {0})
  unfolding fire save_runtime_state
  fire_due elapsed [] = done
  fire_due elapsed (ti ∷ rest) = do
    m ← get
    if any (text_eq ti.id) m.runtime.fired_timed_instruction_ids
          || ltb elapsed (ti.at_second * 1000)
        then done
        else (do
          modify (
              on_runtime (λ r. record r {
                fired_timed_instruction_ids = r.fired_timed_instruction_ids ++ ti.id ∷ [];
              }))
          fire ti
          modify (save_runtime_state env now))
    fire_due elapsed rest

  -- `Math.max(1, Math.round(ms / 60_000))`
  abbrev minutes : ℕ → ℕ
  minutes ms = max 1 ((ms + 30000) / 60000)

  warn_of_end : (elapsed max_ms : ℕ) → Exec (Unit {0})
  unfolding add_instruction add_notice save_runtime_state
  warn_of_end elapsed max_ms = do
    m ← get
    if ltb 0 env.wrap_up_lead_ms
          && not m.runtime.wrap_up_sent
          && leb max_ms (elapsed + env.wrap_up_lead_ms)
          && ltb elapsed max_ms
        then (do
          modify (on_runtime (λ r. record r { wrap_up_sent = true }))
          add_instruction (text "wrap_up") (env.wrap_up_text (minutes (max_ms - elapsed)))
          modify (on_runtime (λ r. record r { phase = closing }))
          add_notice (text "warning") (env.remaining_text (minutes (max_ms - elapsed)))
          modify (save_runtime_state env now))
        else done

  cap : (elapsed max_ms : ℕ) → Exec (Unit {0})
  unfolding request_close
  cap elapsed max_ms = do
    m ← get
    if leb max_ms elapsed && not (is_some m.deferred_close)
        then modify (request_close (text "time_limit") (text "timer") cap_defer_max_ms)
        else done

  -- The deferred close that is due now.
  unfoldable pub due_close : Machine → Option DeferredClose
  due_close m = elim m.deferred_close [
    | none ↦ none
    | some d ↦
        if (not (participant_busy now m) || leb d.until now)
          && (not (is_some m.gen) || leb d.until now)
        then some d
        else none
  ]

  abbrev is_agent : Speaker → Bool
  is_agent agent = true
  is_agent _ = false

  abbrev ends_with_agent : List TurnRecord → Bool
  ends_with_agent turns = elim (get_last? turns) [ none ↦ false | some t ↦ is_agent t.speaker ]

  -- `since`, from which the silence is measured
  abbrev silent_since : Machine → ℕ
  silent_since m = max m.last_participant_activity_at (min m.agent_busy_until now)

  -- `timer_running` says that a timer which the agent presented still runs.
  unfoldable pub is_silent : (timer_running : Bool) → Machine → Bool
  is_silent timer_running m =
      ltb 0 env.silence_check_in_ms
      && not (is_some m.gen)
      && not m.silence_fired
      && not (participant_busy now m)
      && not (is_some m.runtime.end_requested)
      && ends_with_agent m.turns
      && not timer_running
      && leb m.agent_busy_until now
      && leb env.silence_check_in_ms (now - silent_since m)

  check_in : (timer_running : Bool) → Generation → Exec (Unit {0})
  unfolding is_silent
  check_in timer_running g = do
    m ← get
    if is_silent timer_running m
        then (do
          modify (on_engine (λ e. record e { silence_fired = true }))
          if env.realtime
              then modify
                  (send (realtime_instruction (env.check_in_text (now - silent_since m)) true))
              else schedule_generation env now g)
        else done

  close_or_check_in :
      Option DeferredClose
      → (timer_running : Bool) → (closing_id : ℕ) → Generation
      → Exec (Unit {0})
  unfolding check_in flush_deferred
  close_or_check_in (some d) timer_running closing_id g = do
    modify (on_engine (λ e. record e { deferred_close = none }))
    close_session_now env now closing_id d.reason d.by
  close_or_check_in none timer_running closing_id g = do
    flush_deferred env now
    check_in timer_running g

  -- The part of `tick` for an active session.
  tick_active :
      (elapsed max_ms : ℕ)
      → (timer_running : Bool) → (closing_id : ℕ) → Generation
      → Exec (Unit {0})
  unfolding fire_due warn_of_end cap close_or_check_in due_close
  tick_active elapsed max_ms timer_running closing_id g = do
    m ← get
    if leb timer_broadcast_ms (now - m.last_timer_broadcast)
        then (do
          modify (on_engine (λ e. record e { last_timer_broadcast = now }))
          modify (send (timer elapsed (max_ms - elapsed))))
        else done
    fire_due elapsed env.timed_instructions
    warn_of_end elapsed max_ms
    cap elapsed max_ms
    m' ← get
    close_or_check_in (due_close m') timer_running closing_id g

  -- The heartbeat, for a session that was started.
  beat : Exec (Unit {0})
  unfolding save_runtime_state
  beat = do
    m ← get
    if leb heartbeat_ms (now - m.last_heartbeat) && not (is_in (created ∷ ready ∷ []) m)
        then (do
          modify (on_engine (λ e. record e { last_heartbeat = now }))
          modify (save_runtime_state env now))
        else done

  time_out : ℕ → Option ℕ → Text → Exec (Unit {0})
  time_out limit since reason =
      if ltb limit (now - get_or_else since now)
      then transition env now abandoned reason (by_whom (text "system"))
      else done

  -- `tick`; `closing_id` is for closing words, `g` is the generation of a check-in.
  unfoldable pub tick : (timer_running : Bool) → (closing_id : ℕ) → Generation → Exec (Unit {0})
  unfolding beat time_out tick_active elapsed_ms complete
  tick timer_running closing_id g = do
    m ← get
    if m.terminal then done else (do
      beat
      if is_in (reconnecting ∷ []) m
          then time_out reconnect_grace_ms m.runtime.disconnected_at (text "reconnect_timeout")
          else if is_in (paused ∷ []) m
          then time_out pause_timeout_ms m.runtime.paused_at (text "pause_timeout")
          else if is_in (ending ∷ []) m
          then if not (m.closing_wait_until == 0) && leb m.closing_wait_until now
            then complete env now
            else done
          else if is_in (active ∷ []) m
          then tick_active (elapsed_ms now m.runtime) (m.session.max_duration_sec * 1000)
              timer_running closing_id g
          else done)
