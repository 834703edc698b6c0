-- ===== src/Coach/Memory.antt =====
-- The facts that a learner's memory takes up, of backend/src/modules/coach/memory-rules.ts.
-- The regular expressions are parameters: `is_sensitive` is the test of SENSITIVE_PATTERNS, `squeeze` is
-- `replace(/\s+/g, ' ')`, `normalize` is `normalizeFactText`, and `words` the distinct words of a
-- text without the stop words. A confidence is of a type `F`, brought into its bounds by `clamp`.
pub mod Laws
use conversa_forge.Prelude.{
  ℕ, ◌+◌, ◌-◌, ◌*◌, ltb, leb, ◌==◌, sort, ◌&&◌, ◌||◌, not, any, Bool, true, false, List, [], ◌∷◌,
  ◌++◌, map, filter, Option, none, some, Text, text, text_eq, trim, take, length, is_empty,
  if◌then◌else◌,
}
use mathlib.Core.Option

abbrev max_fact_length : ℕ
max_fact_length = 280

abbrev pub fact_categories : List Text
fact_categories =
    text "goal"
    ∷ text "strength"
    ∷ text "weakness"
    ∷ text "preference"
    ∷ text "context"
    ∷ text "progress"
    ∷ []

-- `String.prototype.includes`
unfoldable pub starts_with : Text → Text → Bool
starts_with s [] = true
starts_with [] (c ∷ p) = false
starts_with (a ∷ s) (c ∷ p) = text_eq (a ∷ []) (c ∷ []) && starts_with s p

unfoldable pub contains : Text → Text → Bool
unfolding starts_with
contains [] p = starts_with [] p
contains (a ∷ s) p = starts_with (a ∷ s) p || contains s p

pub record CandidateFact (F : Type 0) : Type 0 where
  pub category : Text
  pub content : Text
  pub confidence : Option F

pub data RejectionReason : Type 0 where
  sensitive : RejectionReason
  duplicate : (content : Text) → RejectionReason

-- The accepted facts, in order, and why others were rejected.
pub record FilteredFacts (F : Type 0) : Type 0 where
  pub facts : List (CandidateFact F)
  pub rejected : List RejectionReason

pub data Verdict : Type 0 where
  too_short accepts : Verdict
  rejects : RejectionReason → Verdict

abbrev pub is_accepted : Verdict → Bool
is_accepted accepts = true
is_accepted _ = false

abbrev pub kept :
    {F : Type 0} → Verdict → CandidateFact F → List (CandidateFact F) → List (CandidateFact F)
kept accepts f out = out ++ f ∷ []
kept _ f out = out

abbrev pub noted : Verdict → List RejectionReason → List RejectionReason
noted (rejects r) rejected = rejected ++ r ∷ []
noted _ rejected = rejected

module _ {F : Type 0} (is_sensitive : Text → Bool) (squeeze normalize : Text → Text)
    (words : Text → List Text) (clamp : F → F) where
  abbrev shared : Text → Text → ℕ
  shared a b = length (filter (λ w. any (text_eq w) (words b)) (words a))

  -- At least three quarters of the words of both are common: `inter / union >= 0.75`.
  unfoldable pub overlaps : Text → Text → Bool
  overlaps a b =
      not (is_empty (words a))
      && not (is_empty (words b))
      && leb (3 * (length (words a) + length (words b) - shared a b)) (4 * shared a b)

  -- `isNearDuplicate`
  unfoldable pub is_near_duplicate : Text → Text → Bool
  unfolding overlaps contains
  is_near_duplicate a b =
      let na = normalize a in
      let nb = normalize b in
      if is_empty na || is_empty nb
      then false
      else if text_eq na nb
          || (ltb 12 (length na) && contains nb na)
          || (ltb 12 (length nb) && contains na nb)
      then true
      else overlaps a b

  unfoldable pub clean : Text → Text
  unfolding trim
  clean content = take max_fact_length (trim (squeeze content))

  -- The fact as it is stored_fact.
  unfoldable pub stored_fact : CandidateFact F → CandidateFact F
  unfolding clean text
  stored_fact c = record {
    category = if any (text_eq c.category) fact_categories then c.category else text "context";
    content = clean c.content;
    confidence = Option.map clamp c.confidence;
  }

  abbrev pub is_known : Text → List Text → List (CandidateFact F) → Bool
  unfolding is_near_duplicate
  is_known content existing out =
      any (λ e. is_near_duplicate e content)
        (existing ++ map (λ (o : CandidateFact F). o.content) out)

  -- What one pass of the loop makes of a fact, with `out` so far.
  unfoldable pub judge :
      List Text → (check_sensitive : Bool) → List (CandidateFact F) → CandidateFact F → Verdict
  unfolding is_near_duplicate
  judge existing check_sensitive out f =
      if ltb (length f.content) 4
      then too_short
      else if check_sensitive && is_sensitive f.content
      then rejects sensitive
      else if is_known f.content existing out
      then rejects (duplicate f.content)
      else accepts

  -- The loop of `filterNewFacts`, with `out` and `rejected` so far.
  unfoldable pub filter_from :
      List Text
      → (limit : ℕ) → (check_sensitive : Bool) → List (CandidateFact F)
      → List (CandidateFact F)
      → List RejectionReason
      → FilteredFacts F
  unfolding stored_fact judge
  filter_from existing limit check_sensitive [] out rejected = record {
    facts = out;
    rejected = rejected;
  }
  filter_from existing limit check_sensitive (c ∷ cs) out rejected =
      let f = stored_fact c in
      let v = judge existing check_sensitive out f in
      let out' = kept v f out in
      let rejected' = noted v rejected in
      let rest = filter_from existing limit check_sensitive cs out' rejected' in
      if is_accepted v && leb limit (length out')
      then record { facts = out'; rejected = rejected' }
      else rest

  -- `filterNewFacts`
  unfoldable pub filter_new_facts :
      List (CandidateFact F) → List Text → (limit : ℕ) → (check_sensitive : Bool) → FilteredFacts F
  unfolding filter_from
  filter_new_facts candidates existing limit check_sensitive =
      filter_from existing limit check_sensitive candidates [] []

-- `CATEGORY_WEIGHT[category] ?? 0`
unfoldable pub category_weight : Text → ℕ
unfolding text
category_weight c =
    if text_eq c (text "goal")
    then 5
    else if text_eq c (text "weakness")
    then 4
    else if text_eq c (text "strength") || text_eq c (text "preference")
    then 3
    else if text_eq c (text "context")
    then 2
    else if text_eq c (text "progress")
    then 1
    else 0

-- A stored fact, as far as its rank depends on it.
pub record RankedFact : Type 0 where
  pub scenario_id : Option ℕ
  pub category : Text
  pub created_at : ℕ

abbrev pub scenario_rank : Option ℕ → Option ℕ → ℕ
scenario_rank none _ = 0
scenario_rank (some id) none = 0
scenario_rank (some id) (some own) = if own == id then 1 else 0

-- The comparison of `rankFacts` is not positive: `a` may stand before `b`.
unfoldable pub ranks_before : Option ℕ → RankedFact → RankedFact → Bool
unfolding category_weight
ranks_before scenario_id a b =
    let sa = scenario_rank scenario_id a.scenario_id in
    let sb = scenario_rank scenario_id b.scenario_id in
    let ca = category_weight a.category in
    let cb = category_weight b.category in
    if not (sa == sb)
    then ltb sb sa
    else if not (ca == cb)
    then ltb cb ca
    else leb b.created_at a.created_at

-- `rankFacts`
unfoldable pub rank_facts : Option ℕ → List RankedFact → List RankedFact
unfolding ranks_before
rank_facts scenario_id facts = sort (ranks_before scenario_id) facts
