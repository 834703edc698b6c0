-- ===== src/Engine/Ledger/Totals.antt =====
-- How much the usage of a generation adds to the ledger.
use conversa_forge.Prelude.{
  ℕ, suc, ◌+◌, ◌≤◌, ◌<◌, ◌≡◌, Bool, true, false, List, [], ◌∷◌, ◌++◌, Option, none, some, arith,
  if◌then◌else◌,
}
use conversa_forge.Engine.State.{UsageKey, UsageEntry, LlmUsage, Generation}
use conversa_forge.Engine.Ledger.{
  key_eq, has_key, record_entry, record_llm, record_rounds, generation_key, record_usage,
}
use conversa_forge.Engine.Ledger.Laws.{record_usage_again}

-- The sum of the quantities of a ledger.
abbrev pub total : List UsageEntry → ℕ
total [] = 0
total (e ∷ l) = e.quantity + total l

-- The tokens of the rounds that no simulator answered.
abbrev pub tokens : List LlmUsage → ℕ
tokens [] = 0
tokens (u ∷ us) = (if u.simulator then 0 else u.input_tokens + u.output_tokens) + tokens us

total-append : (l : List UsageEntry) (e : UsageEntry) → total (l ++ e ∷ []) ≡ total l + e.quantity
total-append [] e = omega arith
total-append (d ∷ l) e = omega (arith, total-append l e)

has_key-append :
    (k : UsageKey) (l : List UsageEntry) (e : UsageEntry)
    → has_key k l ≡ false
    → key_eq e.key k ≡ false
    → has_key k (l ++ e ∷ []) ≡ false
has_key-append k [] e h d = ground (arith, d)
has_key-append k (f ∷ l) e h d = ground (arith, h, has_key-append k l e)

-- A ledger without the key of an entry, after the entry.
record_entry-total :
    (k : UsageKey) (q : ℕ) (l : List UsageEntry)
    → has_key k l ≡ false
    → total (record_entry k q l) ≡ total l + q
unfolding record_entry
record_entry-total k q l h = ground (arith, h, total-append l (record { key = k; quantity = q }))

has_key-record_entry :
    (k k' : UsageKey) (q : ℕ) (l : List UsageEntry)
    → has_key k' l ≡ false
    → key_eq k k' ≡ false
    → has_key k' (record_entry k q l) ≡ false
unfolding record_entry
has_key-record_entry k k' q l h d =
    let longer = has_key-append k' l (record { key = k; quantity = q }) h d in
    ground (arith, h, longer)

record_llm-total :
    (u : LlmUsage) (key : Bool → UsageKey) (l : List UsageEntry)
    → ((out : Bool) → has_key (key out) l ≡ false)
    → key_eq (key false) (key true) ≡ false
    → total (record_llm u key l)
      ≡ total l + (if u.simulator then 0 else u.input_tokens + u.output_tokens)
unfolding record_llm
record_llm-total u key l free d =
    let inner = record_entry-total (key false) u.input_tokens l (free false) in
    let still = has_key-record_entry (key false) (key true) u.input_tokens l (free true) d in
    let outer =
      record_entry-total (key true) u.output_tokens (record_entry (key false) u.input_tokens l)
        still in
    ground (arith, inner, outer)

has_key-record_llm :
    (u : LlmUsage) (key : Bool → UsageKey) (k : UsageKey) (l : List UsageEntry)
    → has_key k l ≡ false
    → ((out : Bool) → key_eq (key out) k ≡ false)
    → has_key k (record_llm u key l) ≡ false
unfolding record_llm
has_key-record_llm u key k l h d =
    let inner = has_key-record_entry (key false) k u.input_tokens l h (d false) in
    let outer =
      has_key-record_entry (key true) k u.output_tokens (record_entry (key false) u.input_tokens l)
        inner (d true) in
    ground (arith, h, outer)

-- Keys that differ from round to round and from input to output.
record AreDistinct (key : ℕ → Bool → UsageKey) : Type 0 where
  rounds : (i j : ℕ) (out out' : Bool) → i < j → key_eq (key i out) (key j out') ≡ false
  directions : (i : ℕ) → key_eq (key i false) (key i true) ≡ false

record_rounds-total :
    (key : ℕ → Bool → UsageKey) (i : ℕ) (us : List LlmUsage) (l : List UsageEntry)
    → AreDistinct key
    → ((j : ℕ) (out : Bool) → i ≤ j → has_key (key j out) l ≡ false)
    → total (record_rounds key i us l) ≡ total l + tokens us
unfolding record_rounds
record_rounds-total key i [] l distinct free = omega arith
record_rounds-total key i (u ∷ us) l distinct free =
    let first =
      record_llm-total u (key i) l (λ out. free i out (omega arith)) (distinct.directions i) in
    let rest = record_rounds-total key (suc i) us (record_llm u (key i) l) distinct (λ j out h.
      has_key-record_llm u (key i) (key j out) l (free j out (omega (arith, h)))
        (λ out'. distinct.rounds i j out' out h)) in
    omega (arith, first, rest)

generation_key-AreDistinct : (g : Generation) (seq : Option ℕ) → AreDistinct (generation_key g seq)
generation_key-AreDistinct g none = record {
  rounds = λ i j out out' h. ground (arith, h);
  directions = λ i. ground arith;
}
generation_key-AreDistinct g (some seq) = record {
  rounds = λ i j out out' h. ground (arith, h);
  directions = λ i. ground arith;
}

-- Where the ledger has no entry under a key of the generation, recording its usage adds the input and
-- output tokens of all rounds that no simulator answered, each once, and recording it again
-- under the same keys adds nothing.
pub record_usage-total :
    (g : Generation) (seq : Option ℕ) (l : List UsageEntry)
    → ((i : ℕ) (out : Bool) → has_key (generation_key g seq i out) l ≡ false)
    → let l' = record_usage g seq l in
      (total l' ≡ total l + tokens g.usages) × (record_usage g seq l' ≡ l')
unfolding record_usage
record_usage-total g seq l free = (
  record_rounds-total (generation_key g seq) 0 g.usages l (generation_key-AreDistinct g seq)
      (λ j out h. free j out),
  record_usage_again g seq l,
)
