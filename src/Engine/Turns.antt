-- ===== src/Engine/Turns.antt =====
-- The transcript: `persistTurn` of runtime/engine/session-engine.ts, with the unique indexes of the
-- table and its three attempts.
pub mod Laws
pub mod Persist
pub mod Quiet
use mathlib.Core.List.{reverse}
use conversa_forge.Prelude.{
  ℕ, zero, suc, ◌+◌, ◌-◌, max, ◌==◌, ◌&&◌, ◌||◌, not, Bool, true, false, List, [], ◌∷◌, ◌++◌, any,
  find, Option, none, some, get_or_else, String, Text, text, text_eq, trim, take, if◌then◌else◌,
  map, is_empty,
}
use conversa_forge.Engine.State.{
  Speaker, agent, participant, system, Metadata, no_metadata, TurnRecord, Generation, Session,
  turn_saved, agent_start, agent_delta, agent_end, agent_cancel, Env, Machine,
}
use conversa_forge.Engine.Exec.{
  Result, ok, err, not_found, Exec, ◌>>=◌, ◌>>◌, modify, send, on_engine, on_world,
}
use conversa_forge.Engine.Ledger.{record_usage}

-- The argument of `persistTurn`; `id` is the given id, or the one that the database makes.
pub record TurnInput : Type 0 where
  pub id : ℕ
  pub speaker : Speaker
  pub text : Text
  pub client_turn_id : Option Text
  pub source : Option Text
  pub interrupted : Bool
  pub started_at_ms : Option ℕ
  pub ended_at_ms : Option ℕ
  pub metadata : Metadata

abbrev pub client_is : Text → TurnRecord → Bool
client_is c t = elim t.client_turn_id [ none ↦ false | some c' ↦ text_eq c' c ]

abbrev pub find_client : Option Text → List TurnRecord → Option TurnRecord
find_client none turns = none
find_client (some c) turns = find (client_is c) turns

abbrev pub has_seq : ℕ → List TurnRecord → Bool
has_seq seq turns = any (λ t. t.seq == seq) turns

abbrev pub has_id : ℕ → List TurnRecord → Bool
has_id id turns = any (λ t. t.id == id) turns

-- `aggregate({ _max: { seq: true } })`
abbrev pub max_seq : List TurnRecord → Option ℕ
max_seq [] = none
max_seq (t ∷ ts) = elim (max_seq ts) [ none ↦ some t.seq | some s ↦ some (max t.seq s) ]

-- What the database answers to `transcriptTurn.create`.
pub data Created : Type 0 where
  stored collision : Created
  same_client : TurnRecord → Created

unfoldable pub create : (client_first : Bool) → TurnInput → ℕ → List TurnRecord → Created
create client_first input seq turns =
    let other = has_seq seq turns || has_id input.id turns in
    elim (find_client input.client_turn_id turns) [
      | none ↦ if other then collision else stored
      | some t ↦ if other && not client_first then collision else same_client t
    ]

abbrev is_source : String → Option Text → Bool
is_source name none = false
is_source name (some s) = text_eq s (text name)

abbrev is_agent : Speaker → Bool
is_agent agent = true
is_agent _ = false

unfoldable pub to_record : (llm_simulated : Bool) → TurnInput → ℕ → TurnRecord
to_record llm_simulated input seq = record {
  id = input.id;
  seq = seq;
  speaker = input.speaker;
  text = input.text;
  interrupted = input.interrupted;
  client_turn_id = input.client_turn_id;
  started_at_ms = input.started_at_ms;
  ended_at_ms = input.ended_at_ms;
  source = input.source;
  metadata =
      if is_agent input.speaker
        && llm_simulated
        && not (is_source "scripted" input.source)
        && not (is_source "realtime" input.source)
      then record input.metadata { simulated = true }
      else input.metadata;
}

-- The transaction: the turn is inserted and the row's `lastSeq` is written; then the engine follows.
unfoldable pub store : Session → TurnRecord → Machine → Machine
unfolding send
store row t m = send (turn_saved t) (record m {
  engine = record m.engine {
    session = record m.session { last_seq = t.seq };
    turns = m.turns ++ t ∷ [];
  };
  world = record m.world {
    db = some (record row { last_seq = t.seq });
    db_turns = m.db_turns ++ t ∷ [];
  };
})

unfoldable pub resync : Machine → Machine
resync m =
    on_engine
      (λ e. record e {
        session = record e.session {
          last_seq = get_or_else (max_seq m.db_turns) e.session.last_seq;
        };
      })
      m

abbrev pub first_batch : List (List TurnRecord) → List TurnRecord
first_batch [] = []
first_batch (ts ∷ later) = ts

abbrev pub later_batches : List (List TurnRecord) → List (List TurnRecord)
later_batches [] = []
later_batches (ts ∷ later) = later

-- Other writers store the turns of the next batch.
unfoldable pub others_write : Machine → Machine
others_write m =
    on_world
      (λ w. record w {
        db_turns = w.db_turns ++ first_batch w.arrivals;
        arrivals = later_batches w.arrivals;
      })
      m

-- The transaction is undone and throws where the session's row is gone.
unfoldable pub commit : Option Session → TurnRecord → Exec (Option TurnRecord)
unfolding store
commit none t m = (err not_found, m)
commit (some row) t m = (ok (some t), store row t m)

-- One attempt, by the database's answer; `again` is the rest of the loop.
unfoldable pub after_create :
    Created → TurnRecord → Result (Option TurnRecord) × Machine → Exec (Option TurnRecord)
unfolding commit
after_create stored t again m = commit m.db t m
after_create (same_client existing) t again m = (ok none, send (turn_saved existing) m)
after_create collision t again m = again

module _ (env : Env) where
  -- The `for` loop over the attempts that are left.
  unfoldable pub persist_from : ℕ → TurnInput → Exec (Option TurnRecord)
  unfolding after_create
  persist_from zero input m = (ok none, m)
  persist_from (suc attempts) input m =
      let seq = m.session.last_seq + 1 in
      let again = persist_from attempts input (others_write (resync m)) in
      after_create (create env.client_first input seq m.db_turns)
        (to_record env.llm_simulated input seq) again m

  -- `persistTurn`
  unfoldable pub persist_turn : TurnInput → Exec (Option TurnRecord)
  unfolding persist_from
  persist_turn input m = if m.terminal then (ok none, m) else persist_from 3 input m
