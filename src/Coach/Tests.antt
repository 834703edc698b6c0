-- ===== src/Coach/Tests.antt =====
-- Three candidates for a memory that holds one fact.
use conversa_forge.Prelude.{
  ℕ, ◌≤◌, Bool, true, false, List, [], ◌∷◌, none, some, Text, length, arith,
}
use conversa_forge.Coach.Memory.{CandidateFact, filter_new_facts, RankedFact, rank_facts}
use conversa_forge.Coach.Memory.Laws.{
  AreNew, filter_new_facts-AreNew, AreRanked, rank_facts-AreRanked,
}
use mathlib.Core.List.{Perm}

abbrev sensitive : Text → Bool
sensitive [] = false
sensitive (c ∷ s) = false

abbrev same : Text → Text
same s = s

abbrev one_word : Text → List Text
one_word s = s ∷ []

abbrev candidate : ℕ → CandidateFact ℕ
candidate n = record { category = []; content = n ∷ n ∷ n ∷ n ∷ []; confidence = none }

filter_new_facts-AreNew_example :
    let r =
      filter_new_facts sensitive same same one_word
        (λ x. x)
        (candidate 97 ∷ candidate 98 ∷ candidate 98 ∷ [])
        ((97 ∷ 97 ∷ 97 ∷ 97 ∷ []) ∷ [])
        5
        true in
    AreNew sensitive same same one_word (λ x. x) ((97 ∷ 97 ∷ 97 ∷ 97 ∷ []) ∷ []) true [] r.facts
    × (length r.facts ≤ 5)
filter_new_facts-AreNew_example =
    filter_new_facts-AreNew sensitive same same one_word (λ x. x) ((97 ∷ 97 ∷ 97 ∷ 97 ∷ []) ∷ [])
      true 5 (candidate 97 ∷ candidate 98 ∷ candidate 98 ∷ []) (omega arith)

abbrev ranked : ℕ → RankedFact
ranked n = record { scenario_id = some n; category = []; created_at = n }

abbrev three_ranked : List RankedFact
three_ranked = ranked 1 ∷ ranked 2 ∷ ranked 3 ∷ []

rank_facts-AreRanked_example :
    AreRanked (some 2) (rank_facts (some 2) three_ranked)
    × Perm (rank_facts (some 2) three_ranked) three_ranked
rank_facts-AreRanked_example = rank_facts-AreRanked (some 2) three_ranked
