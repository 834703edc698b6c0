-- ===== src/Lib.antt =====
-- A model of the core of ConversaForge, a platform for spoken and written practice conversations, in
-- which an engine on the server leads a session between a participant and a language model.
--
-- The parts, and the files of the repository that they follow (below backend/src):
--   Session             shared/session-state.ts: the states of a session and the table of transitions.
--                       `SessionState`, `session_transitions`, `is_terminal`, `can_transition`.
--   Engine              modules/runtime/engine/session-engine.ts, the live engine of one session.
--     Engine.State      its fields, `RuntimeState`, the rows and queues that outlive it (`World`).
--     Engine.Exec       its methods as actions on a `Machine` (engine and world) that may throw.
--     Engine.Transition `transition`, `onTerminal`, `elapsedMs`.
--     Engine.Turns      `persistTurn`, with the unique indexes of the transcript's table, the missing
--                       row and the turns that other writers store between its attempts (`arrivals`).
--     Engine.Speech     `turnOffsets`, `truncateTurn`, `speakScripted`, `abortGeneration`.
--     Engine.Ending     `complete`, `closeSessionNow`, `abandon`, `fail`, `beginAgentEnding`.
--     Engine.Control    `recordConsent`, `onStart`, `onControl`, `onPlayback`, `onGenerationError`.
--     Engine.Connection `attach`, `onDetach`, `scheduleGeneration`, `recoverAfterRestart`.
--     Engine.Participant `onSpeaking`, `onParticipantFinal`, `flushDeferred`.
--     Engine.Timer      `tick`, `requestClose`, `addInstruction`, `notice`.
--     Engine.Ledger     the usage rows of modules/usage/usage.service.ts.
--     Engine.Tasks      the engine's queue, and engines of several processes that share a session.
--   Webhooks.Retry      modules/webhooks/webhook-retry.ts, the retry policy of webhook deliveries.
--   Webhooks.Dispatch   `deliverAttempt` of modules/webhooks/webhook-dispatcher.service.ts, of
--                       which one job runs after the other.
--   Courses             modules/courses/course-rules.ts, progress and completion rules of a course.
--   Csv                 modules/channels/csv.ts (the parser) and modules/analysis/csv.ts (the writer).
--   Coach.Memory        modules/coach/memory-rules.ts, the facts that a learner's memory takes up.
--   Developer           modules/developer/v1/idempotency.interceptor.ts: a table of idempotency records,
--     .Idempotency      `claim`; `.Route` is `intercept`, `.Run` is `run` on a server that interleaves
--                       requests and the ends of their handlers (`play`).
--   Access              modules/access: `.Links` is the row of a share link (share-links.service.ts) and
--                       its uses, `.Identity` the identity of a participant (access.util.ts), `.Start`
--                       the start from a link (public-run.service.ts), a function of what the rest
--                       of the program answers (`StartChecks`).
--   Channels.Batches    modules/channels/batches.service.ts, batches of outbound calls: `tick` and its
--                       loop; `.Events` has the other operations.
--   Variables           shared/variables.ts, the runtime variables: `sanitizeVariableValue` and
--                       `resolveVariables`.
--   Knowledge.Chunking  modules/knowledge/chunking.ts: `splitLong`.
--   Prelude             the names, tests, lists and texts that all of them share.
--
-- How they interact: every method of the engine runs as one task of its queue. Tasks of other
-- engines, in other processes, may run between two of them; what they share is the session's row, the
-- transcript, the ledger and the events. `Engine.Guarantee` is the contract that a task owes to the
-- others. The engine moves the row by a conditional
-- update that names the state it believes in; the update and the reading of the row after it are one
-- step of the model. The transitions are checked against the table of `Session`.
-- The other parts stand alone. Where requests meet on one row or table, their steps interleave in
-- any order: `Server` and `play` for idempotency keys, `LinkUse` and `on_link` for the uses of a
-- link, `Guessing` for passcodes; the operations of a batch of calls follow one after the other.
--
-- Conventions: a task reads one instant, `now`, in milliseconds, and the clock does not run
-- backwards. Ids are numbers; a fresh one is an argument. A text is the list of its UTF-16 code
-- units. `Env` holds what the scenario's configuration and other parts of the program give: the
-- words of the closing, the first turn and the timer, and the estimate of the time that speech takes.
-- `client_first` says which unique index the database reports where an insertion breaks two. The
-- percentage of a course and the jitter of a retry are floating-point products and stand as
-- parameters, as do the scores of an evaluation with their order, the regular expressions of the
-- memory, the patterns of variables, what a plain object inherits, the check of an address, the lower case of a text and the
-- results of handlers under an idempotency key.
--
-- Loops: `persistTurn` tries three times, which is its own bound. A webhook delivery takes fuel
-- for the attempts that follow; the fuel up to the eighth attempt is enough. The claim of an
-- idempotency key has two rounds, which are its own bound, and the scheduler of calls loops on
-- its slots. `splitLong` takes fuel, for which the length of its unit is enough. All other loops
-- are recursions on a list.
--
-- Not modelled: the event log, the welcome message and the delayed closing of sockets, which no
-- modelled method reads; the streaming of a reply, the tool handlers and the realtime
-- transcript of the engine; the texts of errors; prompts, the simulator and all calls of models,
-- mail, storage and telephony; the controllers and queries of the other modules; the web client.
pub mod Prelude
pub mod Session
pub mod Engine
pub mod Webhooks
pub mod Courses
pub mod Csv
pub mod Coach
pub mod Developer
pub mod Access
pub mod Channels
pub mod Knowledge
pub mod Variables
