-- ===== src/Engine/State.antt =====
-- The state of one engine (the fields of `SessionEngine` and of `RuntimeState` in
-- modules/runtime/runtime.types.ts), the rows that it shares with other writers, and the monad of
-- its methods. Instants are milliseconds; ids are numbers.
use conversa_forge.Prelude.{ℕ, Bool, false, List, Option, none, Text}
use conversa_forge.Session.{SessionState}

pub data Speaker : Type 0 where
  agent participant system : Speaker

-- The entries of `metadata` that the runtime reads back; `none` for an absent one.
pub record Metadata : Type 0 where
  pub kind : Option Text
  pub tool_id : Option Text
  pub tool_call_id : Option Text
  pub content : Option Text
  pub file_name : Option Text
  pub extracted_text : Option Text
  pub trigger : Option Text
  pub trigger_event : Option Text
  pub tool_note : Option Text
  pub generated_text : Option Text
  pub spoken_chars : Option ℕ
  pub simulated : Bool

abbrev pub no_metadata : Metadata
no_metadata = record {
  kind = none;
  tool_id = none;
  tool_call_id = none;
  content = none;
  file_name = none;
  extracted_text = none;
  trigger = none;
  trigger_event = none;
  tool_note = none;
  generated_text = none;
  spoken_chars = none;
  simulated = false;
}

pub record TurnRecord : Type 0 where
  pub id : ℕ
  pub seq : ℕ
  pub speaker : Speaker
  pub text : Text
  pub interrupted : Bool
  pub client_turn_id : Option Text
  pub started_at_ms : Option ℕ
  pub ended_at_ms : Option ℕ
  pub source : Option Text
  pub metadata : Metadata

pub data Phase : Type 0 where
  opening agenda closing ended : Phase

pub record EndRequest : Type 0 where
  pub reason : Text
  pub by : Text
  pub closing_turn_id : Option ℕ

-- `RuntimeState` without what only the tools, the simulator and the prompt read.
pub record RuntimeState : Type 0 where
  pub phase : Phase
  pub active_ms : ℕ
  pub active_since : Option ℕ
  pub paused_at : Option ℕ
  pub disconnected_at : Option ℕ
  pub heartbeat_at : Option ℕ
  pub end_requested : Option EndRequest
  pub consecutive_llm_failures : ℕ
  pub muted : Bool
  pub realtime_started_at : Option ℕ
  pub pending_instructions : List (Text × Text)
  pub fired_timed_instruction_ids : List Text
  pub wrap_up_sent : Bool

pub data AnalysisStatus : Type 0 where
  not_started skipped under_way : AnalysisStatus

-- The columns of a `Session` row that the engine reads or writes.
pub record Session : Type 0 where
  pub state : SessionState
  pub state_reason : Option Text
  pub started_at : Option ℕ
  pub ended_at : Option ℕ
  pub duration_ms : Option ℕ
  pub ended_by : Option Text
  pub error_code : Option Text
  pub usage_finalized_at : Option ℕ
  pub analysis_status : AnalysisStatus
  pub analysis_consent : Option Bool
  pub retention_until : Option ℕ
  pub last_seq : ℕ
  pub max_duration_sec : ℕ
  pub runtime_state : RuntimeState

pub record LlmUsage : Type 0 where
  pub simulator : Bool
  pub input_tokens : ℕ
  pub output_tokens : ℕ

pub record Generation : Type 0 where
  pub turn_id : ℕ
  pub text : Text
  pub trigger : Text
  pub trigger_event : Option Text
  pub aborted_reason : Option Text
  pub usages : List LlmUsage

pub record DeferredClose : Type 0 where
  pub reason : Text
  pub by : Text
  pub until : ℕ

-- The idempotency keys of the usage ledger: `session:<id>:seconds`,
-- `session:<id>:realtime_seconds`, `turn:<id>:<seq>[:r<i>]:in|out`, `turn:<id>:x:<turn>:r<i>:in|out`.
pub data UsageKey : Type 0 where
  session_seconds realtime_seconds : UsageKey
  turn_tokens aborted_tokens : (turn round : ℕ) (out : Bool) → UsageKey

pub record UsageEntry : Type 0 where
  pub key : UsageKey
  pub quantity : ℕ

pub data DomainEvent : Type 0 where
  session_started : DomainEvent
  session_terminal : SessionState → DomainEvent

-- The server messages that the modelled methods send.
pub data ServerMessage : Type 0 where
  state_changed : SessionState → Option Text → ServerMessage
  end_message : Text → Text → ServerMessage
  error_message : (code : Text) (fatal : Bool) → ServerMessage
  agent_start : ℕ → ServerMessage
  agent_delta : ℕ → Text → ServerMessage
  agent_end : ℕ → Text → (interrupted : Bool) → ServerMessage
  agent_cancel : ℕ → ServerMessage
  turn_saved : TurnRecord → ServerMessage
  realtime_instruction : Text → (respond : Bool) → ServerMessage
  notice : (level message : Text) → ServerMessage
  timer : (elapsed_ms remaining_ms : ℕ) → ServerMessage

pub data TimedAction : Type 0 where
  nudge wrap_up end_session : TimedAction

pub record TimedInstruction : Type 0 where
  pub id : Text
  pub at_second : ℕ
  pub action : TimedAction
  pub instruction : Text

-- What the scenario's configuration and the rest of the program give to these methods:
-- `closing_text` and `first_turn_text` are the values of `closingText(config, variables)` and
-- `firstTurnText(config, variables)`, and `estimate_speech_ms` the
-- rounded floating-point estimate, as a function of the text's length. `wrap_up_text`, `remaining_text` and
-- `check_in_text` are the words of `tick` around a number of minutes or of milliseconds. `client_first` says which
-- unique index the database reports where an insertion breaks two.
pub record Env : Type 0 where
  pub record_audio : Bool
  pub record_video : Bool
  pub analysis_enabled : Bool
  pub retention_days : ℕ
  pub allow_participant_end : Bool
  pub realtime : Bool
  pub llm_simulated : Bool
  pub client_first : Bool
  pub closing_text : Text
  pub first_turn_agent : Bool
  pub first_turn_text : Text
  pub allow_barge_in : Bool
  pub timed_instructions : List TimedInstruction
  pub wrap_up_lead_ms : ℕ
  pub silence_check_in_ms : ℕ
  pub wrap_up_text : ℕ → Text
  pub remaining_text : ℕ → Text
  pub check_in_text : ℕ → Text
  pub estimate_speech_ms : ℕ → ℕ

-- The fields of one engine above the rows and queues that outlive it.
pub record SessionEngine : Type 0 where
  pub session : Session
  pub runtime : RuntimeState
  pub turns : List TurnRecord
  pub transport : Option ℕ
  pub terminal : Bool
  pub disposed : Bool
  pub ticking : Bool
  pub gen : Option Generation
  pub participant_speaking : Bool
  pub last_participant_activity_at : ℕ
  pub last_partial_at : ℕ
  pub agent_busy_until : ℕ
  pub pending_barge_in : Bool
  pub false_barge_in_timer : Bool
  pub silence_fired : Bool
  pub pending_truncations : List (ℕ × ℕ)
  pub deferred_close : Option DeferredClose
  pub closing_wait_until : ℕ
  pub was_paused_before_disconnect : Bool
  pub last_heartbeat : ℕ
  pub deferred_notices : List (Text × Text)
  pub last_timer_broadcast : ℕ

-- The database and what other parts of the program receive; other engines and the sweeper may
-- write here between two tasks of the engine. `arrivals` are the batches of turns that other writers
-- store while `persistTurn` runs: the first after it has read the largest number for the first time,
-- the second after the second time.
pub record World : Type 0 where
  pub db : Option Session
  pub db_turns : List TurnRecord
  pub arrivals : List (List TurnRecord)
  pub ledger : List UsageEntry
  pub events : List DomainEvent
  pub sent : List (ℕ × ServerMessage)

pub record Machine : Type 0 where
  pub engine : SessionEngine
  pub open engine use *
  pub world : World
  pub open world use *
