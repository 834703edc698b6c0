-- ===== src/Engine/Connection.antt =====
-- Connections and restarts: `attach`, `onDetach`, `recoverAfterRestart`, `dispose`, and the start of
-- a reply, `scheduleGeneration` with `needsResponse`.
pub mod Laws
use mathlib.Core.List.{reverse}
use conversa_forge.Prelude.{
  ℕ, ◌+◌, ◌-◌, min, max, ◌&&◌, ◌||◌, not, Bool, true, false, List, [], ◌∷◌, ◌++◌, Option, none,
  some, is_some, get_or_else, String, Text, text, text_eq, ◌==◌, if◌then◌else◌,
}
use conversa_forge.Session.{
  SessionState, connecting, active, paused, reconnecting, ending, completed, is_terminal,
}
use conversa_forge.Engine.State.{
  Speaker, agent, participant, system, TurnRecord, EndRequest, Generation, error_message,
  end_message, Env, SessionEngine, Machine,
}
use conversa_forge.Engine.Exec.{
  Exec, ◌>>=◌, ◌>>◌, get, done, pure, modify, send, on_engine, on_runtime, on_ledger, on_world,
}
use conversa_forge.Engine.Transition.{plain, by_whom, stretch, transition, state_name}
use conversa_forge.Engine.Speech.{abort_generation}
use conversa_forge.Engine.Ending.{is_in, complete, end_by}

abbrev kind_is : String → TurnRecord → Bool
kind_is name t = elim t.metadata.kind [ none ↦ false | some k ↦ text_eq k (text name) ]

-- The loop of `needsResponse`, over the turns from the last.
unfoldable pub awaits_reply : List TurnRecord → Bool
awaits_reply [] = false
awaits_reply (t ∷ ts) = elim t.speaker [
  | agent ↦ false
  | participant ↦ true
  | system ↦ (kind_is "tool_response" t || kind_is "document" t) || awaits_reply ts
]

-- `needsResponse`
unfoldable pub needs_response : Machine → Bool
unfolding awaits_reply
needs_response m = awaits_reply (reverse m.turns)

module _ (env : Env) (now : ℕ) where
  abbrev set_generation : Generation → SessionEngine → SessionEngine
  set_generation g e = record e { gen = some g }

  start_generation : Generation → Exec (Unit {0})
  start_generation g = do
    m ← get
    if m.terminal || not (is_in (active ∷ []) m)
        then done
        else modify (on_engine (set_generation g))

  -- `scheduleGeneration`; a silence check-in has set `silenceFired` before. `g` is the new generation, with its
  -- fresh `turnId` and nothing streamed. What the model streams comes later.
  unfoldable pub schedule_generation : Generation → Exec (Unit {0})
  unfolding start_generation
  schedule_generation g = do
    m ← get
    if m.terminal || not (is_in (active ∷ []) m)
        then done
        else (do abort_generation env now (text "superseded"); start_generation g)

  -- What `attach` does with a session that waits for its participant.
  resume_if_waiting : Exec (Unit {0})
  resume_if_waiting = do
    m ← get
    if is_in (reconnecting ∷ []) m
        then (do
          transition env now (if m.was_paused_before_disconnect then paused else active)
              (text "reconnected") plain
          modify (on_runtime (λ r. record r { disconnected_at = none })))
        else done

  reply_if_due : Generation → Exec (Unit {0})
  unfolding needs_response schedule_generation
  reply_if_due g = do
    m ← get
    if is_in (active ∷ []) m && not env.realtime && needs_response m
        then schedule_generation g
        else done

  -- A connection that is replaced is told so.
  supersede : ℕ → Machine → Machine
  unfolding send
  supersede transport m = elim m.transport [
    | none ↦ m
    | some old ↦ if old == transport then m else send (error_message (text "superseded") true) m
  ]

  set_transport : Option ℕ → SessionEngine → SessionEngine
  set_transport t e = record e { transport = t }

  -- `attach`; the `welcome` message, which repeats the state, is left out. `g` is the generation of
  -- a reply that is due.
  unfoldable pub attach : ℕ → Generation → Exec (Unit {0})
  unfolding resume_if_waiting reply_if_due supersede set_transport
  attach transport g = do
    modify (supersede transport)
    modify (on_engine (set_transport (some transport)))
    m ← get
    if m.terminal
        then modify (
            send (
              end_message (get_or_else m.session.state_reason (text "ended"))
                (get_or_else m.session.ended_by (text "system"))))
        else (do resume_if_waiting; reply_if_due g)

  -- What `onDetach` does with the state of a session that has not ended.
  lose_connection : Exec (Unit {0})
  unfolding complete
  lose_connection = do
    m ← get
    if is_in (active ∷ paused ∷ connecting ∷ []) m
        then (do
          modify
              (on_engine (λ e. record e { was_paused_before_disconnect = is_in (paused ∷ []) m }))
          modify (on_runtime (λ r. record r { disconnected_at = some now }))
          transition env now reconnecting (text "connection_lost") plain)
        else if is_in (ending ∷ []) m
        then complete env now
        else done

  abbrev is_current : ℕ → Machine → Bool
  is_current transport m = elim m.transport [ none ↦ false | some t ↦ t == transport ]

  -- `onDetach`
  unfoldable pub on_detach : ℕ → Exec (Unit {0})
  unfolding lose_connection set_transport
  on_detach transport = do
    m ← get
    if not (is_current transport m) then done else (do
      modify (on_engine (λ e. record e { transport = none; participant_speaking = false }))
      if m.terminal
          then done
          else (do abort_generation env now (text "disconnect"); lose_connection))

  -- The time up to the last heartbeat is folded into `activeMs`.
  abbrev folded : ℕ → ℕ → Option ℕ → ℕ
  folded ms since heartbeat = ms + (min now (max since (get_or_else heartbeat since)) - since)

  unfoldable pub fold_time : Machine → Machine
  fold_time m = elim m.runtime.active_since [
    | none ↦ m
    | some since ↦
        on_runtime
          (λ r. record r {
            active_ms = folded r.active_ms since r.heartbeat_at;
            active_since = none;
          })
          m
  ]

  -- `recoverAfterRestart`
  unfoldable pub recover_after_restart : Exec (Unit {0})
  unfolding fold_time is_terminal
  recover_after_restart = do
    m ← get
    if is_terminal m.session.state
        then modify (on_engine (λ e. record e { terminal = true }))
        else if is_in (ending ∷ []) m
        then (do
          modify fold_time
          modify (on_runtime (λ r. record r { active_since = some now }))
          transition env now completed (text "recovered_after_restart")
              (by_whom (end_by env now m.runtime.end_requested)))
        else if is_in (active ∷ connecting ∷ []) m
        then (do
          modify fold_time
          modify (
              on_runtime
                (λ r. record r { disconnected_at = some (get_or_else r.heartbeat_at now) }))
          transition env now reconnecting (text "server_restart") plain)
        else if is_in (reconnecting ∷ []) m && not (is_some m.runtime.disconnected_at)
        then modify (on_runtime (λ r. record r { disconnected_at = some now }))
        else done
