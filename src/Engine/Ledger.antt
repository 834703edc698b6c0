-- ===== src/Engine/Ledger.antt =====
-- The usage ledger of modules/usage/usage.service.ts (`record`, `recordLlm`): one row for each
-- idempotency key, by the table's unique index. `recordUsage` of the engine writes through it.
pub mod Laws
pub mod Totals
use conversa_forge.Prelude.{
  ℕ, suc, ◌==◌, ◌&&◌, Bool, true, false, List, [], ◌∷◌, ◌++◌, any, Option, none, some,
  if◌then◌else◌,
}
use conversa_forge.Engine.State.{
  UsageKey, session_seconds, realtime_seconds, turn_tokens, aborted_tokens, UsageEntry, LlmUsage,
  Generation,
}

abbrev pub bool_eq : Bool → Bool → Bool
bool_eq true true = true
bool_eq false false = true
bool_eq _ _ = false

abbrev pub key_eq : UsageKey → UsageKey → Bool
key_eq session_seconds session_seconds = true
key_eq realtime_seconds realtime_seconds = true
key_eq (turn_tokens t r o) (turn_tokens t' r' o') = t == t' && r == r' && bool_eq o o'
key_eq (aborted_tokens t r o) (aborted_tokens t' r' o') = t == t' && r == r' && bool_eq o o'
key_eq _ _ = false

abbrev pub has_key : UsageKey → List UsageEntry → Bool
has_key key ledger = any (λ e. key_eq e.key key) ledger

-- `record`: nothing for a quantity of 0, nothing for a key that is there.
unfoldable pub record_entry : UsageKey → ℕ → List UsageEntry → List UsageEntry
record_entry key quantity ledger =
    if quantity == 0
    then ledger
    else if has_key key ledger
    then ledger
    else ledger ++ record { key = key; quantity = quantity } ∷ []

unfoldable pub record_llm : LlmUsage → (Bool → UsageKey) → List UsageEntry → List UsageEntry
unfolding record_entry
record_llm usage key ledger =
    if usage.simulator
    then ledger
    else record_entry (key true) usage.output_tokens
        (record_entry (key false) usage.input_tokens ledger)

-- The loop of `recordUsage`, from round `i` on.
unfoldable pub record_rounds :
    (ℕ → Bool → UsageKey) → ℕ → List LlmUsage → List UsageEntry → List UsageEntry
unfolding record_llm
record_rounds key i [] ledger = ledger
record_rounds key i (u ∷ usages) ledger =
    record_rounds key (suc i) usages (record_llm u (key i) ledger)

abbrev pub generation_key : Generation → Option ℕ → ℕ → Bool → UsageKey
generation_key g none i out = aborted_tokens g.turn_id i out
generation_key g (some seq) i out = turn_tokens seq i out

-- `recordUsage`; the caller drops the generation, whose `usages` it empties.
unfoldable pub record_usage : Generation → Option ℕ → List UsageEntry → List UsageEntry
unfolding record_rounds
record_usage g seq ledger = record_rounds (generation_key g seq) 0 g.usages ledger
