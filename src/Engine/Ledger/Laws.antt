-- ===== src/Engine/Ledger/Laws.antt =====
-- Recording the usage of a generation twice leaves the ledger as recording it once does.
use conversa_forge.Prelude.{
  ℕ, suc, ◌==◌, ◌≡◌, refl, sym, ap, ◌∙◌, ◌||◌, Bool, true, false, List, [], ◌∷◌, ◌++◌, Option,
  arith, if◌then◌else◌,
}
use mathlib.Core.Path.{subst}
use conversa_forge.Engine.State.{
  UsageKey, session_seconds, realtime_seconds, turn_tokens, aborted_tokens, UsageEntry, LlmUsage,
  Generation,
}
use conversa_forge.Engine.Ledger.{
  bool_eq, key_eq, has_key, record_entry, record_llm, record_rounds, generation_key, record_usage,
}

bool_eq_refl : (b : Bool) → bool_eq b b ≡ true
bool_eq_refl true = refl
bool_eq_refl false = refl

key_eq_refl : (k : UsageKey) → key_eq k k ≡ true
key_eq_refl session_seconds = refl
key_eq_refl realtime_seconds = refl
key_eq_refl (turn_tokens t r o) = ground (arith, bool_eq_refl o)
key_eq_refl (aborted_tokens t r o) = ground (arith, bool_eq_refl o)

has_key-append :
    (k : UsageKey) (l : List UsageEntry) (e : UsageEntry)
    → has_key k (l ++ e ∷ []) ≡ (has_key k l || key_eq e.key k)
has_key-append k [] e = ground arith
has_key-append k (d ∷ l) e = ground (arith, has_key-append k l e)

-- Nothing that was recorded is lost.
has_key-record_entry :
    (k key : UsageKey) (q : ℕ) (l : List UsageEntry)
    → has_key k l ≡ true
    → has_key k (record_entry key q l) ≡ true
unfolding record_entry
has_key-record_entry k key q l h =
    ground (arith, has_key-append k l (record { key = key; quantity = q }))

-- A key is settled where there is nothing to record, or an entry.
abbrev IsSettled : UsageKey → ℕ → List UsageEntry → Type 0
IsSettled key q l = ((q == 0) || has_key key l) ≡ true

record_entry-IsSettled :
    (key : UsageKey) (q : ℕ) (l : List UsageEntry) → IsSettled key q (record_entry key q l)
unfolding record_entry
record_entry-IsSettled key q l =
    ground (arith, has_key-append key l (record { key = key; quantity = q }), key_eq_refl key)

record_entry_settled :
    (key : UsageKey) (q : ℕ) (l : List UsageEntry) → IsSettled key q l → record_entry key q l ≡ l
unfolding record_entry
record_entry_settled key q l h = ground (arith, h)

IsSettled-record_entry :
    (k key : UsageKey) (p q : ℕ) (l : List UsageEntry)
    → IsSettled k p l
    → IsSettled k p (record_entry key q l)
IsSettled-record_entry k key p q l h = ground (arith, has_key-record_entry k key q l)

-- Both entries of a round are settled.
abbrev IsRoundSettled : LlmUsage → (Bool → UsageKey) → List UsageEntry → Type 0
IsRoundSettled u key l =
    (u.simulator ≡ false)
    → IsSettled (key false) u.input_tokens l × IsSettled (key true) u.output_tokens l

record_llm-IsRoundSettled :
    (u : LlmUsage) (key : Bool → UsageKey) (l : List UsageEntry)
    → IsRoundSettled u key (record_llm u key l)
unfolding record_llm
record_llm-IsRoundSettled u key l live =
    let inner = record_entry (key false) u.input_tokens l in
    let outer = record_entry (key true) u.output_tokens inner in
    subst
      (λ b.
        IsSettled (key false) u.input_tokens (if b then l else outer)
        × IsSettled (key true) u.output_tokens (if b then l else outer))
      (sym live)
      (
        IsSettled-record_entry (key false) (key true) u.input_tokens u.output_tokens inner
            (record_entry-IsSettled (key false) u.input_tokens l),
        record_entry-IsSettled (key true) u.output_tokens inner,
      )

IsSettled-record_llm :
    (k : UsageKey) (q : ℕ) (u : LlmUsage) (key : Bool → UsageKey) (l : List UsageEntry)
    → IsSettled k q l
    → IsSettled k q (record_llm u key l)
unfolding record_llm
IsSettled-record_llm k q u key l h = by_simulator _ u.simulator (
    IsSettled-record_entry k (key true) q u.output_tokens _
      (IsSettled-record_entry k (key false) q u.input_tokens l h))
  where
    by_simulator :
        (l' : List UsageEntry) (b : Bool) → IsSettled k q l' → IsSettled k q (if b then l else l')
    by_simulator l' true h' = h
    by_simulator l' false h' = h'

record_llm_settled :
    (u : LlmUsage) (key : Bool → UsageKey) (l : List UsageEntry)
    → IsRoundSettled u key l
    → record_llm u key l ≡ l
unfolding record_llm
record_llm_settled u key l h = by_simulator u.simulator refl
  where
    by_simulator :
        (b : Bool)
        → u.simulator ≡ b
        → (if b
            then l
            else record_entry
                (key true)
                u.output_tokens
                (record_entry (key false) u.input_tokens l))
          ≡ l
    by_simulator true e = refl
    by_simulator false e =
        ap (record_entry (key true) u.output_tokens)
          (record_entry_settled (key false) u.input_tokens l (h e).0)
        ∙ record_entry_settled (key true) u.output_tokens l (h e).1

-- All rounds from `i` on are settled.
abbrev AreSettled : (ℕ → Bool → UsageKey) → ℕ → List LlmUsage → List UsageEntry → Type 0
AreSettled key i [] l = Unit
AreSettled key i (u ∷ us) l = IsRoundSettled u (key i) l × AreSettled key (suc i) us l

IsRoundSettled-record_rounds :
    (u : LlmUsage) (k : Bool → UsageKey) (key : ℕ → Bool → UsageKey) (i : ℕ) (us : List LlmUsage)
    (l : List UsageEntry)
    → IsRoundSettled u k l
    → IsRoundSettled u k (record_rounds key i us l)
unfolding record_rounds
IsRoundSettled-record_rounds u k key i [] l h = h
IsRoundSettled-record_rounds u k key i (v ∷ us) l h =
    IsRoundSettled-record_rounds u k key (suc i) us (record_llm v (key i) l) (λ live. (
      IsSettled-record_llm (k false) u.input_tokens v (key i) l (h live).0,
      IsSettled-record_llm (k true) u.output_tokens v (key i) l (h live).1,
    ))

record_rounds-AreSettled :
    (key : ℕ → Bool → UsageKey) (i : ℕ) (us : List LlmUsage) (l : List UsageEntry)
    → AreSettled key i us (record_rounds key i us l)
unfolding record_rounds
record_rounds-AreSettled key i [] l = tt
record_rounds-AreSettled key i (u ∷ us) l = (
  IsRoundSettled-record_rounds u (key i) key (suc i) us (record_llm u (key i) l)
      (record_llm-IsRoundSettled u (key i) l),
  record_rounds-AreSettled key (suc i) us (record_llm u (key i) l),
)

record_rounds_settled :
    (key : ℕ → Bool → UsageKey) (i : ℕ) (us : List LlmUsage) (l : List UsageEntry)
    → AreSettled key i us l
    → record_rounds key i us l ≡ l
unfolding record_rounds
record_rounds_settled key i [] l h = refl
record_rounds_settled key i (u ∷ us) l h =
    ap (record_rounds key (suc i) us) (record_llm_settled u (key i) l h.0)
    ∙ record_rounds_settled key (suc i) us l h.1

-- Recording the usage of a generation a second time, for the same turn or for none, adds nothing to
-- the ledger.
pub record_usage_again :
    (g : Generation) (seq : Option ℕ) (l : List UsageEntry)
    → record_usage g seq (record_usage g seq l) ≡ record_usage g seq l
unfolding record_usage
record_usage_again g seq l =
    record_rounds_settled (generation_key g seq) 0 g.usages _
      (record_rounds-AreSettled (generation_key g seq) 0 g.usages l)
