-- ===== src/Developer/Idempotency/Run.antt =====
-- `run` of backend/src/modules/developer/v1/idempotency.interceptor.ts, and a server on which requests
-- and the ends of their handlers interleave. `R` are the results of the handlers, `json` what a result
-- is stored as, `embedded` the `error` field of a stored result, `D` the details of an error.
use conversa_forge.Prelude.{
  ℕ, suc, leb, ◌==◌, not, Bool, List, [], ◌∷◌, filter, any, Option, none, some, get_or_else, Text,
  text, if◌then◌else◌,
}
use conversa_forge.Developer.Idempotency.{
  is_replayable, Details, undefined, null, given, stored_details, Failure, app_error, other_error,
  database_error, StoredBody, json_null, json_body, error_body, IdempotencyRecord, KeyedRequest,
  ClaimResult, claimed, claim, store_response, delete_record,
}

pub record ErrorFields (D : Type 0) : Type 0 where
  pub code : Option Text
  pub message : Option Text
  pub details : Details D

pub data Outcome (R D : Type 0) : Type 0 where
  returns : Option R → Outcome R D
  throws : Failure D → Outcome R D

-- What the client gets: the handler's own result, a stored one, or an error.
pub data Response (R B D : Type 0) : Type 0 where
  returned : Option R → Response R B D
  replayed : StoredBody B D → Response R B D
  failed : Failure D → Response R B D

module _ {R B D : Type 0} (json : R → B) (embedded : B → ErrorFields D) where
  abbrev pub stored_body : Option R → StoredBody B D
  stored_body none = json_null
  stored_body (some r) = json_body (json r)

  -- `body?.error ?? {}`
  abbrev pub error_of : StoredBody B D → ErrorFields D
  error_of json_null = record { code = none; message = none; details = undefined }
  error_of (json_body b) = embedded b
  error_of (error_body code message details) = record {
    code = some code;
    message = some message;
    details = elim details [ none ↦ null | some d ↦ given d ];
  }

  -- The replay of `run`.
  unfoldable pub replay_response : ℕ → StoredBody B D → Response R B D
  replay_response status body =
      if leb 400 status
      then failed (
          app_error (record {
            status = status;
            code = get_or_else (error_of body).code (text "error");
            message = get_or_else (error_of body).message (text "Request failed");
            details = (error_of body).details;
          }))
      else replayed body

  -- The `catch` of `run`.
  unfoldable pub on_failure :
      ℕ → Failure D → List (IdempotencyRecord B D) → List (IdempotencyRecord B D)
  unfolding store_response delete_record
  on_failure id (app_error e) table =
      if is_replayable e.status
      then get_or_else
          (store_response id e.status (error_body e.code e.message (stored_details e.details))
            table)
          table
      else delete_record id table
  on_failure id (other_error e) table = delete_record id table
  on_failure id database_error table = delete_record id table

  -- The rest of `run` once the handler has an outcome.
  unfoldable pub settle :
      (id success_status : ℕ)
      → Outcome R D
      → List (IdempotencyRecord B D)
      → List (IdempotencyRecord B D) × Response R B D
  unfolding store_response on_failure
  settle id success_status (returns result) table =
      elim (store_response id success_status (stored_body result) table) [
        | some table' ↦ (table', returned result)
        | none ↦ (on_failure id database_error table, failed database_error)
      ]
  settle id success_status (throws e) table = (on_failure id e table, failed e)

  -- The server: the table, the handlers that run, the keys that handlers were started for, and a
  -- bound on the ids in use.
  pub record Server : Type 0 where
    pub table : List (IdempotencyRecord B D)
    pub running : List ℕ
    pub started : List (ℕ × Text)
    pub next_id : ℕ

  -- A request arrives at `now`, or a handler that runs has its outcome.
  pub data Event : Type 0 where
    arrives : (now : ℕ) (cleans : Bool) → KeyedRequest → Event
    finishes : (id success_status : ℕ) → Outcome R D → Event

  abbrev pub after_claim :
      KeyedRequest → List (IdempotencyRecord B D) × ClaimResult B D → Server → Server
  after_claim req (t, claimed id) s = record {
    table = t;
    running = id ∷ s.running;
    started = (req.scope, req.key) ∷ s.started;
    next_id = suc s.next_id;
  }
  after_claim req (t, _) s = record s { table = t; next_id = suc s.next_id }

  -- One event of `run`: its claim, or its end.
  unfoldable pub play : Event → Server → Server
  unfolding claim settle
  play (arrives now cleans req) s = after_claim req (claim cleans req s.next_id now s.table) s
  play (finishes id success_status o) s =
      if any (λ i. i == id) s.running
      then record s {
        table = (settle id success_status o s.table).0;
        running = filter (λ i. not (i == id)) s.running;
      }
      else s

  unfoldable pub play_all : List Event → Server → Server
  unfolding play
  play_all [] s = s
  play_all (e ∷ es) s = play_all es (play e s)
