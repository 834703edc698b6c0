-- ===== src/Engine/Speech.antt =====
-- What the agent has said: `turnOffsets`, `truncateTurn`, scripted speech and what an aborted
-- generation leaves in the transcript.
pub mod Laws
pub mod Offsets
use mathlib.Core.List.{reverse}
use conversa_forge.Prelude.{
  ℕ, zero, suc, ◌+◌, ◌-◌, ◌*◌, min, ◌==◌, ltb, leb, ◌&&◌, ◌||◌, not, Bool, true, false, List, [],
  ◌∷◌, ◌++◌, any, find, Option, none, some, get_or_else, is_some, String, Text, text, text_eq, trim,
  take, length, if◌then◌else◌, map, is_empty, get_elem?, is_space, filter, get_last?,
}
use conversa_forge.Engine.State.{
  Speaker, agent, participant, system, Metadata, no_metadata, TurnRecord, Generation, Session,
  turn_saved, agent_start, agent_delta, agent_end, agent_cancel, Env, SessionEngine, Machine,
}
use conversa_forge.Engine.Exec.{
  Result, ok, Exec, proceed, ◌>>=◌, ◌>>◌, get, done, pure, modify, send, on_engine, on_ledger,
}
use conversa_forge.Engine.Ledger.{record_usage}
use conversa_forge.Engine.Turns.{TurnInput, persist_turn}

-- `norm` of `turnOffsets`: `none` for what is absent, not finite or negative; an epoch time is made
-- relative to the start of the session.
unfoldable pub norm : ℕ → Option ℕ → Option ℕ
norm base none = none
norm base (some v) =
    if ltb 1000000000000 v then if leb base v then some (v - base) else none else some v

abbrev bounded_end : ℕ → Option ℕ → ℕ
bounded_end now none = now
bounded_end now (some e) = if ltb (now + 10000) e then now else e

abbrev bounded_start : ℕ → Option ℕ → Option ℕ
bounded_start last none = none
bounded_start last (some s) = if ltb last s then none else some s

-- `turnOffsets`: the offsets (start, end) of a turn from the start of the session. The present
-- offset, `now - base`, is not negative, since the clock does not stand before the start that was
-- read from it.
unfoldable pub turn_offsets : ℕ → Session → Option ℕ → Option ℕ → Option ℕ × ℕ
unfolding norm
turn_offsets now session started_at_ms ended_at_ms =
    let base = get_or_else session.started_at now in
    let last = bounded_end (now - base) (norm base ended_at_ms) in
    (bounded_start last (norm base started_at_ms), last)

-- The text before the last run of characters that are no white space, with its white space:
-- `cut.slice(0, cut.search(/\s\S*$/))`, and the whole text where the expression does not match or
-- matches at 0. The text is given reversed.
unfoldable pub drop_word : Text → Text
unfolding is_space
drop_word [] = []
drop_word (c ∷ s) = if is_space c then s else drop_word s

abbrev starts_inside : Text → ℕ → Bool
starts_inside full spoken = elim (get_elem? full spoken) [
  | none ↦ false
  | some c ↦ not (is_space c)
]

abbrev ends_inside : Text → Bool
ends_inside cut = elim (get_last? cut) [ none ↦ false | some c ↦ not (is_space c) ]

-- The text that was heard: the first `spoken` characters, without a word that they cut.
unfoldable pub heard : Text → ℕ → Text
unfolding drop_word is_space trim
heard full spoken =
    let cut = take spoken full in
    let shorter = reverse (drop_word (reverse cut)) in
    trim (
      if ltb spoken (length full)
        && starts_inside full spoken
        && ends_inside cut
        && not (is_empty shorter)
      then shorter
      else cut)

abbrev replace_turn : TurnRecord → List TurnRecord → List TurnRecord
replace_turn t = map (λ (u : TurnRecord). if u.id == t.id then t else u)

-- `truncateTurn`
unfoldable pub truncate_turn : TurnRecord → ℕ → Exec (Unit {0})
unfolding heard send
truncate_turn t spoken m =
    let full = get_or_else t.metadata.generated_text t.text in
    let cut = heard full spoken in
    let t' = record t {
      text = cut;
      interrupted = true;
      metadata = record t.metadata { generated_text = some full; spoken_chars = some spoken };
    } in
    if text_eq cut t.text && t.interrupted then (ok tt, m) else (
      ok tt,
      send (turn_saved t') (record m {
        engine = record m.engine { turns = replace_turn t' m.turns };
        world = record m.world { db_turns = replace_turn t' m.db_turns };
      }),
    )

module _ (env : Env) (now : ℕ) where
  -- The persisted form of an agent's turn.
  abbrev pub agent_turn : ℕ → Text → String → Bool → Metadata → Session → TurnInput
  agent_turn id words source interrupted metadata session =
      let (start, last) = turn_offsets now session none none in
      record {
        id = id;
        speaker = agent;
        text = words;
        client_turn_id = none;
        source = some (text source);
        interrupted = interrupted;
        started_at_ms = start;
        ended_at_ms = some last;
        metadata = metadata;
      }

  -- `speakScripted`, with the fresh `turnId`
  unfoldable pub speak_scripted : ℕ → Text → String → Exec (Option TurnRecord)
  unfolding turn_offsets
  speak_scripted turn_id words trigger = do
    modify (send (agent_start turn_id))
    modify (send (agent_delta turn_id words))
    modify (send (agent_end turn_id words false))
    m ← get
    t ← persist_turn env (
        agent_turn turn_id words "scripted" false
          (record no_metadata { trigger = some (text trigger) }) m.session)
    modify (
        on_engine
          (λ e. record e { agent_busy_until = now + env.estimate_speech_ms (length words) }))
    pure t

  abbrev find_truncation : ℕ → List (ℕ × ℕ) → Option ℕ
  find_truncation id [] = none
  find_truncation id ((k, n) ∷ rest) = if k == id then some n else find_truncation id rest

  abbrev drop_truncation : ℕ → SessionEngine → SessionEngine
  drop_truncation id e = record e {
    pending_truncations = filter (λ (p : ℕ × ℕ). not (p.0 == id)) e.pending_truncations;
  }

  abbrev said : Text → Option ℕ → Text
  said words none = words
  said words (some spoken) = trim (take spoken words)

  abbrev pub source_name : String
  source_name = if env.llm_simulated then "simulated" else "llm"

  abbrev pub agent_metadata : Generation → Metadata
  agent_metadata g = record no_metadata {
    trigger = some g.trigger;
    trigger_event = g.trigger_event;
    simulated = env.llm_simulated;
  }

  abbrev is_disconnect : Option Text → Bool
  is_disconnect none = false
  is_disconnect (some r) = text_eq r (text "disconnect")

  -- The part of `commitAborted` for a reply of which something was heard.
  commit_heard : Generation → Text → Exec (Unit {0})
  unfolding turn_offsets trim
  commit_heard g words = do
    m ← get
    let final = said words (find_truncation g.turn_id m.pending_truncations)
    modify (on_engine (drop_truncation g.turn_id))
    modify (send (agent_end g.turn_id final true))
    turn ← persist_turn env (
        agent_turn g.turn_id final source_name true
          (record (agent_metadata g) { generated_text = some words }) m.session)
    done

  -- `commitAborted`
  unfoldable pub commit_aborted : Generation → Exec (Unit {0})
  unfolding commit_heard record_usage
  commit_aborted g = do
    modify (on_ledger (record_usage g none))
    m ← get
    if is_empty (trim g.text) || is_disconnect g.aborted_reason || m.terminal
        then modify (send (agent_cancel g.turn_id))
        else commit_heard g (trim g.text)

  abort_some : Option Generation → Text → Exec (Unit {0})
  unfolding commit_aborted
  abort_some none reason = done
  abort_some (some g) reason = do
    modify (on_engine (λ e. record e { gen = none }))
    commit_aborted (record g { aborted_reason = some reason })

  -- `abortGeneration`
  unfoldable pub abort_generation : Text → Exec (Unit {0})
  unfolding abort_some
  abort_generation reason = do m ← get; abort_some m.gen reason
