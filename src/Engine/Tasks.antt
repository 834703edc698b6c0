-- ===== src/Engine/Tasks.antt =====
-- The tasks of an engine's queue, one for each entry point of runtime/engine/session-engine.ts that is
-- modelled, and the engines of several processes that work on one session: their tasks
-- interleave, each on the database as it finds it.
pub mod Laws
use conversa_forge.Prelude.{
  ℕ, zero, suc, ◌≡◌, Bool, List, [], ◌∷◌, get_elem?, Option, none, some, Text,
}
use conversa_forge.Engine.State.{Env, SessionEngine, World, Machine, Generation}
use conversa_forge.Engine.Exec.{Exec, pure}
use conversa_forge.Engine.Speech.{abort_generation}
use conversa_forge.Engine.Ending.{complete, close_session_now, abandon, fail, begin_agent_ending}
use conversa_forge.Engine.Control.{
  record_consent, on_start, ControlAction, on_control, PlaybackEvent, on_playback,
  on_generation_error,
}
use conversa_forge.Engine.Connection.{attach, on_detach, schedule_generation, recover_after_restart}
use conversa_forge.Engine.Participant.{
  ParticipantFinal, on_speaking, on_participant_final, resume_after_false_barge_in,
}
use conversa_forge.Engine.Timer.{tick}

pub data Task : Type 0 where
  attaching : (transport : ℕ) → Generation → Task
  detaching : (transport : ℕ) → Task
  consenting : (analysis : Bool) → Task
  starting : (within_quota : Bool) → (fresh_id : ℕ) → Task
  controlling : ControlAction → (fresh_id : ℕ) → Task
  playing : (turn_id : ℕ) → PlaybackEvent → Task
  replying failing_to_reply : Generation → Task
  interrupting : (reason : Text) → Task
  closing_session : (fresh_id : ℕ) → (reason ended_by : Text) → Task
  agent_ending : (fresh_id : ℕ) → (reason : Text) → Option ℕ → (spoken : Text) → Task
  speaking : Bool → Task
  saying : ParticipantFinal → (fresh_id closing_id : ℕ) → Generation → Task
  false_barge_in : Generation → Task
  ticking : (timer_running : Bool) → (closing_id : ℕ) → Generation → Task
  completing recovering : Task
  abandoning failing : Text → Task

-- The method that a task calls.
unfoldable pub perform : Env → ℕ → Task → Exec (Unit {0})
perform env now (attaching transport g) = attach env now transport g
perform env now (detaching transport) = on_detach env now transport
perform env now (consenting analysis) = record_consent env now analysis
perform env now (starting within_quota fresh_id) = on_start env now within_quota fresh_id
perform env now (controlling action fresh_id) = on_control env now action fresh_id
perform env now (playing id event) = on_playback env now id event
perform env now (replying g) = schedule_generation env now g
perform env now (failing_to_reply g) = on_generation_error env now g
perform env now (interrupting reason) = abort_generation env now reason
perform env now (closing_session fresh_id reason ended_by) =
    close_session_now env now fresh_id reason ended_by
perform env now (agent_ending fresh_id reason closing_turn_id spoken) =
    begin_agent_ending env now fresh_id reason closing_turn_id spoken
perform env now (speaking value) = on_speaking env now value
perform env now (saying msg fresh_id closing_id g) =
    on_participant_final env now msg fresh_id closing_id g
perform env now (false_barge_in g) = resume_after_false_barge_in env now g
perform env now (ticking timer_running closing_id g) = tick env now timer_running closing_id g
perform env now completing = complete env now
perform env now recovering = recover_after_restart env now
perform env now (abandoning reason) = abandon env now reason
perform env now (failing code) = fail env now code

-- The engines of one session, in all processes, over the database that they share.
pub record System : Type 0 where
  pub engines : List SessionEngine
  pub world : World

unfoldable pub replace : ℕ → SessionEngine → List SessionEngine → List SessionEngine
replace k e [] = []
replace zero e (d ∷ ds) = e ∷ ds
replace (suc k) e (d ∷ ds) = d ∷ replace k e ds

-- The queue drops what a task throws: the next task starts from what was written before.
unfoldable pub run_task : Env → ℕ → ℕ → Task → SessionEngine → System → System
unfolding perform replace
run_task env now k t e s =
    let m = (perform env now t (record { engine = e; world = s.world })).1 in
    record { engines = replace k m.engine s.engines; world = m.world }

-- A step: an engine is built on the stored row, or one of the engines runs a task, at any time.
pub data Step (env : Env) : System → System → Type 0 where
  build :
      (s : System) (e : SessionEngine)
      → s.world.db ≡ some e.session
      → Step env s (record s { engines = e ∷ s.engines })
  run :
      (s : System) (e : SessionEngine) (k now : ℕ) (t : Task)
      → get_elem? s.engines k ≡ some e
      → Step env s (run_task env now k t e s)

pub data Steps (env : Env) : System → System → Type 0 where
  stop : {s : System} → Steps env s s
  then : {s t u : System} → Steps env s t → Step env t u → Steps env s u
