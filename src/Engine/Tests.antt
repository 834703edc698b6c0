-- ===== src/Engine/Tests.antt =====
-- Runs of the engine on concrete sessions, and the theorems applied to them.
use conversa_forge.Prelude.{
  ℕ, ◌+◌, ◌≡◌, ◌≤◌, refl, true, false, List, [], ◌∷◌, none, some, text, arith,
}
use conversa_forge.Session.{
  SessionState, created, active, paused, ending, failed, completed, abandoned, is_terminal,
  can_transition,
}
use conversa_forge.Engine.State.{
  Generation, opening, participant, no_metadata, TurnRecord, RuntimeState, Session, not_started,
  Env, SessionEngine, turn_saved, World, Machine,
}
use conversa_forge.Engine.Exec.{ok, send}
use conversa_forge.Engine.Guarantee.{RowReach, state_of, IsAnnouncedOnce}
use conversa_forge.Engine.Ledger.{record_usage}
use conversa_forge.Engine.Ledger.Totals.{total, record_usage-total}
use conversa_forge.Engine.Transition.{plain, elapsed_ms}
use conversa_forge.Engine.Transition.History.{Visit, run_history, IsInStep, run-IsInStep}
use conversa_forge.Engine.Turns.{TurnInput, persist_turn}
use conversa_forge.Engine.Turns.Persist.{
  persist_turn_resent, persist_turn_total, IsStored, IsLive, Stands, IsUnchanged,
}
use conversa_forge.Engine.Speech.{turn_offsets}
use conversa_forge.Engine.Speech.Offsets.{IsBefore, turn_offsets-bounds}
use conversa_forge.Engine.Ending.{abandon}
use conversa_forge.Engine.Ending.Outcome.{IsCurrent, Arrives, abandon-Arrives}
use conversa_forge.Engine.Tasks.{consenting, abandoning, System, run_task, Steps, stop, then, run}
use conversa_forge.Engine.Tasks.Laws.{steps-RowReach, steps_keep_end, steps-IsAnnouncedOnce}

abbrev env : Env
env = record {
  record_audio = true;
  record_video = false;
  analysis_enabled = true;
  retention_days = 30;
  allow_participant_end = true;
  realtime = false;
  llm_simulated = true;
  client_first = true;
  closing_text = [];
  first_turn_agent = false;
  first_turn_text = [];
  allow_barge_in = true;
  timed_instructions = [];
  wrap_up_lead_ms = 120000;
  silence_check_in_ms = 15000;
  wrap_up_text = λ minutes. [];
  remaining_text = λ minutes. [];
  check_in_text = λ silent_ms. [];
  estimate_speech_ms = λ n. n + 400;
}

abbrev runtime : RuntimeState
runtime = record {
  phase = opening;
  active_ms = 0;
  active_since = none;
  paused_at = none;
  disconnected_at = none;
  heartbeat_at = none;
  end_requested = none;
  consecutive_llm_failures = 0;
  muted = false;
  realtime_started_at = none;
  pending_instructions = [];
  fired_timed_instruction_ids = [];
  wrap_up_sent = false;
}

abbrev session_in : SessionState → Session
session_in s = record {
  state = s;
  state_reason = none;
  started_at = none;
  ended_at = none;
  duration_ms = none;
  ended_by = none;
  error_code = none;
  usage_finalized_at = none;
  analysis_status = not_started;
  analysis_consent = none;
  retention_until = none;
  last_seq = 0;
  max_duration_sec = 600;
  runtime_state = runtime;
}

abbrev engine_in : SessionState → SessionEngine
engine_in s = record {
  session = session_in s;
  runtime = runtime;
  turns = [];
  transport = some 1;
  terminal = false;
  disposed = false;
  ticking = false;
  gen = none;
  participant_speaking = false;
  last_participant_activity_at = 0;
  last_partial_at = 0;
  agent_busy_until = 0;
  pending_barge_in = false;
  false_barge_in_timer = false;
  silence_fired = false;
  pending_truncations = [];
  deferred_close = none;
  closing_wait_until = 0;
  was_paused_before_disconnect = false;
  last_heartbeat = 0;
  deferred_notices = [];
  last_timer_broadcast = 0;
}

abbrev said_before : TurnRecord
said_before = record {
  id = 70;
  seq = 1;
  speaker = participant;
  text = 104 ∷ 105 ∷ [];
  interrupted = false;
  client_turn_id = some (99 ∷ []);
  started_at_ms = none;
  ended_at_ms = some 5;
  source = none;
  metadata = no_metadata;
}

-- What another writer stores after the first retry has read the largest number.
abbrev meanwhile : TurnRecord
meanwhile = record said_before { id = 72; seq = 2; client_turn_id = none }

abbrev world_in : SessionState → World
world_in s = record {
  db = some (session_in s);
  db_turns = said_before ∷ [];
  arrivals = (meanwhile ∷ []) ∷ [];
  ledger = [];
  events = [];
  sent = [];
}

abbrev machine_in : SessionState → Machine
machine_in s = record { engine = engine_in s; world = world_in s }

-- Two engines on one session that was just created.
abbrev two_engines : System
two_engines = record {
  engines = engine_in created ∷ engine_in created ∷ [];
  world = world_in created;
}

-- One takes the consent, the other abandons the session that it believes to be new.
abbrev interleaved : System
unfolding run_task
interleaved =
    run_task env 2000 1 (abandoning []) (engine_in created)
      (run_task env 1000 0 (consenting true) (engine_in created) two_engines)

interleaved_steps : Steps env two_engines interleaved
unfolding run_task
interleaved_steps =
    then (then stop (run two_engines (engine_in created) 0 1000 (consenting true) refl)) (
      run (run_task env 1000 0 (consenting true) (engine_in created) two_engines)
        (engine_in created) 1 2000 (abandoning []) refl)

steps-RowReach_example : RowReach two_engines.world.db interleaved.world.db
steps-RowReach_example = steps-RowReach interleaved_steps

world_in-IsAnnouncedOnce : IsAnnouncedOnce (world_in created)
world_in-IsAnnouncedOnce = record { at_most_once = omega arith; not_while_open = λ _. refl }

steps-IsAnnouncedOnce_example : IsAnnouncedOnce interleaved.world
steps-IsAnnouncedOnce_example = steps-IsAnnouncedOnce interleaved_steps world_in-IsAnnouncedOnce

-- An engine that has not noticed that the session has failed.
abbrev stale : System
stale = record { engines = engine_in created ∷ []; world = world_in failed }

abbrev stale_steps : Steps env stale (run_task env 3000 0 (abandoning []) (engine_in created) stale)
stale_steps = then stop (run stale (engine_in created) 0 3000 (abandoning []) refl)

steps_keep_end_example :
    state_of (run_task env 3000 0 (abandoning []) (engine_in created) stale).world.db ≡ some failed
unfolding is_terminal
steps_keep_end_example = steps_keep_end (session_in failed) stale_steps refl refl

-- Thirty seconds of conversation, a pause of ten, and five more until the end.
abbrev visits : List Visit
visits =
    record { delay = 30; to = paused; reason = []; extra = plain }
    ∷ record { delay = 10; to = active; reason = []; extra = plain }
    ∷ record { delay = 4; to = ending; reason = []; extra = plain }
    ∷ record { delay = 1; to = completed; reason = []; extra = plain }
    ∷ []

abbrev talking : Machine
talking = record {
  engine = record (engine_in active) { runtime = record runtime { active_since = some 100 } };
  world = record (world_in active) { db = some (session_in active) };
}

talking-IsInStep : IsInStep 100 talking
unfolding is_terminal
talking-IsInStep = record {
  stored = refl;
  clock = record { runs = refl; started = omega arith };
  duration = λ h. cc;
}

run-IsInStep_example :
    let m' = (run_history env 100 visits talking).1 in
    ((run_history env 100 visits talking).0 ≡ ok tt)
    × IsInStep 145 m'
    × (elapsed_ms 145 m'.runtime ≡ 35)
unfolding can_transition elapsed_ms
run-IsInStep_example =
    run-IsInStep env 100 visits talking talking-IsInStep (refl, (refl, (refl, (refl, tt))))

abbrev hello : TurnInput
hello = record {
  id = 71;
  speaker = participant;
  text = 104 ∷ 101 ∷ [];
  client_turn_id = some (100 ∷ []);
  source = none;
  interrupted = false;
  started_at_ms = none;
  ended_at_ms = none;
  metadata = no_metadata;
}

-- The engine's `lastSeq` is 0 although turn 1 is stored, and turn 2 comes after the first retry
-- has read the largest number, so that the third attempt stores the turn.
talking-IsLive : IsLive env hello talking
talking-IsLive = record { live = refl; new = refl; quiet = refl }

persist_turn_total_example :
    (before : List TurnRecord) × (seq : ℕ) × Stands env hello talking before
    × IsStored env hello talking (session_in active) before seq (persist_turn env hello talking)
persist_turn_total_example =
    persist_turn_total env hello talking (session_in active) talking-IsLive refl refl

abbrev row_gone : Machine
row_gone = record talking { world = record talking.world { db = none } }

abbrev again : TurnInput
again = record hello { client_turn_id = some (99 ∷ []) }

persist_turn_resent_example :
    (before : List TurnRecord) × Stands env again talking before
    × ((persist_turn env again talking).0 ≡ ok none)
    × IsUnchanged talking before
        (send (turn_saved said_before) talking).sent
        (persist_turn env again talking).1
persist_turn_resent_example =
    persist_turn_resent env again talking said_before
      (record { live = refl; new = refl; quiet = refl }) refl

talking-IsCurrent : IsCurrent talking
unfolding is_terminal
talking-IsCurrent = record { stored = refl; terminal = refl }

abandon-Arrives_example : Arrives abandoned (abandon env 5000 (text "gone") talking)
abandon-Arrives_example = abandon-Arrives env 5000 (text "gone") talking talking-IsCurrent

turn_offsets-bounds_example :
    let offsets = turn_offsets 9000 (session_in active) (some 9000000) (some 400) in
    IsBefore offsets.0 offsets.1 × (offsets.1 ≤ 10000)
turn_offsets-bounds_example = turn_offsets-bounds 9000 (session_in active) (some 9000000) (some 400)

abbrev reply : Generation
reply = record {
  turn_id = 80;
  text = [];
  trigger = [];
  trigger_event = none;
  aborted_reason = none;
  usages =
      record { simulator = false; input_tokens = 20; output_tokens = 5 }
      ∷ record { simulator = false; input_tokens = 0; output_tokens = 7 }
      ∷ [];
}

record_usage-total_example :
    let l' = record_usage reply (some 2) [] in
    (total l' ≡ 32) × (record_usage reply (some 2) l' ≡ l')
unfolding record_usage
record_usage-total_example = record_usage-total reply (some 2) [] (λ i out. refl)
