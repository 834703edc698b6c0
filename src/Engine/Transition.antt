-- ===== src/Engine/Transition.antt =====
-- The state machine of the engine: `transition`, `onTerminal`, `dispose` and the clock of active
-- time (`COUNTING`, `elapsedMs`).
pub mod Laws
pub mod Success
pub mod Clock
pub mod History
use conversa_forge.Prelude.{
  ℕ, suc, ◌+◌, ◌-◌, ◌*◌, ◌/◌, ◌==◌, ◌&&◌, ◌||◌, not, Bool, true, false, List, [], ◌∷◌, ◌++◌, Option,
  none, some, is_some, get_or_else, Text, text, take, if◌then◌else◌,
}
use conversa_forge.Session.{
  SessionState, created, ready, connecting, active, paused, reconnecting, ending, completed, failed,
  cancelled, expired, abandoned, includes, state_eq, is_terminal, Assertion, assert_transition,
  passed, invalid_transition,
}
use conversa_forge.Engine.State.{
  Session, RuntimeState, ended, skipped, UsageKey, session_seconds, realtime_seconds, UsageEntry,
  ServerMessage, session_terminal, Generation, state_changed, end_message, Env, SessionEngine,
  World, Machine,
}
use conversa_forge.Engine.Exec
use conversa_forge.Engine.Exec.{
  Fault, concurrent_change, ok, err, Result, Exec, send, on_engine, on_world,
}
use conversa_forge.Engine.Ledger.{record_entry, record_usage}

abbrev pub counting : List SessionState
counting = active ∷ ending ∷ []

abbrev pub is_counting : SessionState → Bool
is_counting s = includes counting s

-- The stretch since `activeSince`, or 0.
abbrev pub stretch : ℕ → Option ℕ → ℕ
stretch now none = 0
stretch now (some since) = now - since

unfoldable pub elapsed_ms : ℕ → RuntimeState → ℕ
elapsed_ms now r = r.active_ms + stretch now r.active_since

-- What `transition` writes to the runtime state before it writes to the database.
unfoldable pub stamp : ℕ → SessionState → SessionState → RuntimeState → RuntimeState
unfolding is_terminal
stamp now from to r =
    let stops = is_counting from && not (is_counting to) in
    let starts = not (is_counting from) && is_counting to in
    record r {
      active_ms = if stops then r.active_ms + stretch now r.active_since else r.active_ms;
      active_since = if stops then none else if starts then some now else r.active_since;
      phase = if is_terminal to then ended else r.phase;
      heartbeat_at = some now;
    }

-- The optional `extra` of a transition.
pub record Extra : Type 0 where
  pub started_at : Option ℕ
  pub ended_by : Option Text
  pub error_code : Option Text

abbrev pub plain : Extra
plain = record { started_at = none; ended_by = none; error_code = none }

abbrev pub by_whom : Text → Extra
by_whom who = record { started_at = none; ended_by = some who; error_code = none }

abbrev pub or_else {ℓ} : {A : Type ℓ} → Option A → Option A → Option A
or_else none o = o
or_else (some a) o = some a

abbrev requester : RuntimeState → Text
requester r = elim r.end_requested [ none ↦ text "system" | some e ↦ e.by ]

abbrev declined : Option Bool → Bool
declined (some false) = true
declined _ = false

-- `String(s.state).toLowerCase()`
unfoldable pub state_name : SessionState → Text
unfolding text
state_name created = text "created"
state_name ready = text "ready"
state_name connecting = text "connecting"
state_name active = text "active"
state_name paused = text "paused"
state_name reconnecting = text "reconnecting"
state_name ending = text "ending"
state_name completed = text "completed"
state_name failed = text "failed"
state_name cancelled = text "cancelled"
state_name expired = text "expired"
state_name abandoned = text "abandoned"

-- The in-flight generation is dropped, and its usage recorded.
drop_generation : Machine → Machine
drop_generation m = record m {
  engine = record m.engine { gen = none };
  world = record m.world {
    ledger = elim m.gen [ none ↦ m.ledger | some g ↦ record_usage g none m.ledger ];
  };
}

-- The ledger after the charges of a session that ran for `ms` milliseconds.
unfoldable pub charge_session : (realtime : Bool) → ℕ → List UsageEntry → List UsageEntry
unfolding record_entry
charge_session realtime ms ledger =
    let seconds = (ms + 999) / 1000 in
    let charged = record_entry session_seconds seconds ledger in
    if realtime then record_entry realtime_seconds seconds charged else charged

-- What the engine that made the session terminal charges and announces.
settle : (realtime : Bool) → Machine → Machine
settle realtime m =
    on_world
      (λ w. record w {
        ledger = charge_session realtime (get_or_else m.session.duration_ms 0) w.ledger;
        events = w.events ++ session_terminal m.session.state ∷ [];
      })
      m

end_of : Machine → ServerMessage
end_of m =
    end_message (get_or_else m.session.state_reason (state_name m.session.state))
      (get_or_else m.session.ended_by (text "system"))

-- `onTerminal`
pub on_terminal : (realtime external : Bool) → Machine → Machine
unfolding drop_generation settle end_of
on_terminal realtime external m =
    if m.terminal
    then m
    else let stopped =
        on_engine (λ e. record e { terminal = true; ticking = false; false_barge_in_timer = false })
          m in
      let dropped = drop_generation stopped in
      let settled = if external then dropped else settle realtime dropped in
      send (end_of settled) settled

module _ (env : Env) (now : ℕ) where
  -- `analysisSkipped`, from the engine's copy of the row.
  analysis_skipped : Session → Bool
  analysis_skipped s =
      declined s.analysis_consent || not env.analysis_enabled || not (is_some s.started_at)

  -- The row that `updateMany` leaves, from the stored row `row` and the engine's copy `own`.
  pub updated_row : SessionState → Text → Extra → RuntimeState → (own row : Session) → Session
  unfolding analysis_skipped
  updated_row to reason extra r own row =
      let last = is_terminal to in
      record row {
        state = to;
        state_reason = some (take 200 reason);
        runtime_state = r;
        started_at = or_else extra.started_at row.started_at;
        error_code = or_else extra.error_code row.error_code;
        ended_at = if last then some now else row.ended_at;
        duration_ms = if last then some r.active_ms else row.duration_ms;
        ended_by =
            if last
            then some (get_or_else extra.ended_by (requester r))
            else or_else extra.ended_by row.ended_by;
        usage_finalized_at = if last then some now else row.usage_finalized_at;
        analysis_status = if last && analysis_skipped own then skipped else row.analysis_status;
        retention_until =
            if last && not (is_some own.retention_until)
            then some (now + env.retention_days * 86400000)
            else row.retention_until;
      }

  -- `updateMany` matched no row: the engine takes over what another writer stored, and gives up.
  lost_race : SessionState → SessionState → Exec (Unit {0})
  unfolding on_terminal
  lost_race from to m =
      let fresh = on_engine (λ e. record e { session = get_or_else m.db m.session }) m in
      let seen =
        if is_terminal fresh.session.state then on_terminal env.realtime true fresh else fresh in
      (err (concurrent_change from to), seen)

  won_race : SessionState → Text → Session → Exec (Unit {0})
  unfolding on_terminal
  won_race to reason row m =
      let stored = on_world (λ w. record w { db = some row }) m in
      let fresh = on_engine (λ e. record e { session = row }) stored in
      let told = send (state_changed to (some reason)) fresh in
      (ok tt, if is_terminal to then on_terminal env.realtime false told else told)

  -- `updateMany({ where: { id, state: from }, data })`, on the stored row.
  write_row : Option Session → SessionState → SessionState → Text → Extra → Exec (Unit {0})
  unfolding lost_race won_race updated_row
  write_row none from to reason extra m = lost_race from to m
  write_row (some row) from to reason extra m =
      if state_eq row.state from
      then won_race to reason (updated_row to reason extra m.runtime m.session row) m
      else lost_race from to m

  after_assertion : Assertion → SessionState → SessionState → Text → Extra → Exec (Unit {0})
  unfolding write_row stamp
  after_assertion (invalid_transition s t) from to reason extra m =
      (err (Fault.invalid_transition s t), m)
  after_assertion passed from to reason extra m =
      write_row m.db from to reason extra
        (on_engine (λ e. record e { runtime = stamp now from to e.runtime }) m)

  -- `transition`
  unfoldable pub transition : SessionState → Text → Extra → Exec (Unit {0})
  unfolding after_assertion assert_transition
  transition to reason extra m =
      let from = m.session.state in
      after_assertion (assert_transition from to) from to reason extra m
