-- ===== src/Coach/Memory/Laws.antt =====
-- What every fact that the memory takes up satisfies, and the order of the ranked facts.
use conversa_forge.Prelude.{
  ℕ, ◌≤◌, ◌<◌, ◌≡◌, ◌⊎◌, Option, refl, sym, leb, ◌&&◌, Bool, true, false, List, [], ◌∷◌, ◌++◌, Text,
  length, IsSorted, Precedes, sort-IsSorted, sort-Perm, All, some, none, ◌≢◌, ◌↔◌, length-append,
  arith, if◌then◌else◌,
}
use mathlib.Core.Path.{subst}
use mathlib.Core.List.{append_assoc, append-nil}
use conversa_forge.Coach.Memory.{
  CandidateFact, FilteredFacts, RejectionReason, Verdict, too_short, accepts, rejects, is_accepted,
  kept, noted, is_known, judge, stored_fact, filter_from, filter_new_facts, RankedFact,
  ranks_before, rank_facts, scenario_rank, category_weight,
}
use mathlib.Core.List.{Perm}

module _ {F : Type 0} (is_sensitive : Text → Bool) (squeeze normalize : Text → Text)
    (words : Text → List Text) (clamp : F → F) (existing : List Text) (check : Bool) where
  -- A fact that is long enough, not sensitive where that is checked, and not known from the existing
  -- facts or the facts taken up before it.
  pub record IsNew (earlier : List (CandidateFact F)) (f : CandidateFact F) : Type 0 where
    pub long_enough : 4 ≤ length f.content
    pub not_sensitive : (check && is_sensitive f.content) ≡ false
    pub unknown :
        is_known is_sensitive squeeze normalize words clamp f.content existing earlier ≡ false

  -- Each fact is new after the ones before it.
  abbrev pub AreNew : List (CandidateFact F) → List (CandidateFact F) → Type 0
  AreNew earlier [] = Unit
  AreNew earlier (f ∷ fs) = IsNew earlier f × AreNew (earlier ++ f ∷ []) fs

  AreNew-snoc :
      (earlier fs : List (CandidateFact F)) (f : CandidateFact F)
      → AreNew earlier fs
      → IsNew (earlier ++ fs) f
      → AreNew earlier (fs ++ f ∷ [])
  AreNew-snoc earlier [] f h new = (subst (λ l. IsNew l f) (append-nil earlier) new, tt)
  AreNew-snoc earlier (g ∷ fs) f h new = (
    h.0,
    AreNew-snoc (earlier ++ g ∷ []) fs f h.1
        (subst (λ l. IsNew l f) (sym (append_assoc earlier (g ∷ []) fs)) new),
  )

  accepted-IsNew :
      (out : List (CandidateFact F)) (f : CandidateFact F)
      → judge is_sensitive squeeze normalize words clamp existing check out f ≡ accepts
      → IsNew out f
  unfolding judge
  accepted-IsNew out f e = record {
    long_enough = ground (arith, e);
    not_sensitive = ground (arith, e);
    unknown = ground (arith, e);
  }

  kept-AreNew :
      (v : Verdict) (out : List (CandidateFact F)) (f : CandidateFact F)
      → (v ≡ accepts → IsNew out f)
      → AreNew [] out
      → AreNew [] (kept v f out)
  kept-AreNew accepts out f new h = AreNew-snoc [] out f h (new refl)
  kept-AreNew too_short out f new h = h
  kept-AreNew (rejects r) out f new h = h

  abbrev IsWithin : ℕ → FilteredFacts F → Type 0
  IsWithin limit r = AreNew [] r.facts × (length r.facts ≤ limit)

  IsWithin-limit :
      (v : Verdict) (limit : ℕ) (out : List (CandidateFact F)) (f : CandidateFact F)
      (rejected : List RejectionReason) (rest : FilteredFacts F)
      → length out < limit
      → AreNew [] (kept v f out)
      → (length (kept v f out) < limit → IsWithin limit rest)
      → IsWithin limit (
          if is_accepted v && leb limit (length (kept v f out))
          then record { facts = kept v f out; rejected = rejected }
          else rest)
  IsWithin-limit too_short limit out f rejected rest room h later = later room
  IsWithin-limit (rejects r) limit out f rejected rest room h later = later room
  IsWithin-limit accepts limit out f rejected rest room h later =
      by_test (leb limit (length (out ++ f ∷ []))) refl
    where
      by_test :
          (b : Bool)
          → leb limit (length (out ++ f ∷ [])) ≡ b
          → IsWithin limit
              (if b then record { facts = out ++ f ∷ []; rejected = rejected } else rest)
      by_test true e = (h, omega (arith, length-append out (f ∷ []), room))
      by_test false e = later (ground (arith, e))

  filter_from-AreNew :
      (limit : ℕ) (cs out : List (CandidateFact F)) (rejected : List RejectionReason)
      → AreNew [] out
      → length out < limit
      → IsWithin limit (
          filter_from is_sensitive squeeze normalize words clamp existing limit check cs out
            rejected)
  unfolding filter_from
  filter_from-AreNew limit [] out rejected h room = (h, omega (arith, room))
  filter_from-AreNew limit (c ∷ cs) out rejected h room =
      let f = stored_fact is_sensitive squeeze normalize words clamp c in
      let v = judge is_sensitive squeeze normalize words clamp existing check out f in
      let h' = kept-AreNew v out f (accepted-IsNew out f) h in
      IsWithin-limit v limit out f _ _ room h'
        (λ room'. filter_from-AreNew limit cs (kept v f out) (noted v rejected) h' room')

  -- With a limit of at least one, the facts taken up are at most as many as the limit, each of at
  -- least four characters, not sensitive where that is checked, and no near duplicate of an
  -- existing fact or of one taken up before it.
  pub filter_new_facts-AreNew :
      (limit : ℕ) (candidates : List (CandidateFact F))
      → 1 ≤ limit
      → let r =
          filter_new_facts is_sensitive squeeze normalize words clamp candidates existing limit
            check in
        AreNew [] r.facts × (length r.facts ≤ limit)
  unfolding filter_new_facts
  filter_new_facts-AreNew limit candidates h =
      filter_from-AreNew limit candidates [] [] tt (omega (arith, h))

-- The order of `rankFacts` compares any two facts, one way or the other, and is transitive.
ranks_before-order :
    (scenario_id : Option ℕ) (a b c : RankedFact)
    → ((ranks_before scenario_id a b ≡ true) ⊎ (ranks_before scenario_id b a ≡ true))
      × (ranks_before scenario_id a b ≡ true
          → ranks_before scenario_id b c ≡ true
          → ranks_before scenario_id a c ≡ true)
unfolding ranks_before
ranks_before-order scenario_id a b c = ground arith

-- Of the scenario at hand are both facts, or none.
abbrev pub AreAlike : Option ℕ → RankedFact → RankedFact → Type 0
AreAlike scenario_id a b =
    (id : ℕ) → scenario_id ≡ some id → (a.scenario_id ≡ some id) ↔ (b.scenario_id ≡ some id)

-- `a` has a place before `b`: the facts of the scenario at hand come first, among those alike the
-- ones whose category weighs more, among those the newer ones.
pub record ComesFirst (scenario_id : Option ℕ) (a b : RankedFact) : Type 0 where
  pub scenario :
      (id : ℕ) → scenario_id ≡ some id → b.scenario_id ≡ some id → a.scenario_id ≡ some id
  pub weight : AreAlike scenario_id a b → category_weight b.category ≤ category_weight a.category
  pub newer :
      AreAlike scenario_id a b
      → category_weight a.category ≡ category_weight b.category
      → b.created_at ≤ a.created_at

-- Every fact has its place before all that follow it.
abbrev pub AreRanked : Option ℕ → List RankedFact → Type 0
AreRanked scenario_id [] = Unit
AreRanked scenario_id (f ∷ fs) = All (ComesFirst scenario_id f) fs × AreRanked scenario_id fs

scenario_rank_of_own : (id : ℕ) (own : Option ℕ) → own ≡ some id → scenario_rank (some id) own ≡ 1
scenario_rank_of_own id none e = cc
scenario_rank_of_own id (some n) e = ground (arith, e)

own_of_scenario_rank : (id : ℕ) (own : Option ℕ) → scenario_rank (some id) own ≢ 0 → own ≡ some id
own_of_scenario_rank id none h = absurd (h refl)
own_of_scenario_rank id (some n) h = ground (arith, h)

alike_ranks :
    (scenario_id : Option ℕ) (a b : RankedFact)
    → AreAlike scenario_id a b
    → scenario_rank scenario_id a.scenario_id ≡ scenario_rank scenario_id b.scenario_id
alike_ranks none a b h = refl
alike_ranks (some id) a b h = same_ranks a.scenario_id b.scenario_id (h id refl)
  where
    same_ranks :
        (p q : Option ℕ)
        → (p ≡ some id) ↔ (q ≡ some id)
        → scenario_rank (some id) p ≡ scenario_rank (some id) q
    same_ranks none none k = refl
    same_ranks none (some n) k = ground (arith, k.1)
    same_ranks (some n) none k = ground (arith, k.0)
    same_ranks (some n) (some m) k = ground (arith, k.0, k.1)

ranks_before-ComesFirst :
    (scenario_id : Option ℕ) (a b : RankedFact)
    → ranks_before scenario_id a b ≡ true
    → ComesFirst scenario_id a b
unfolding ranks_before
ranks_before-ComesFirst scenario_id a b h = record {
  scenario = λ id e own.
      own_of_scenario_rank id a.scenario_id
        (λ z. let one = scenario_rank_of_own id b.scenario_id own in ground (arith, e, one, z, h));
  weight = λ alike. let same = alike_ranks scenario_id a b alike in ground (arith, same, h);
  newer = λ alike equal. let same = alike_ranks scenario_id a b alike in ground (arith, same, h);
}

Precedes-All :
    (scenario_id : Option ℕ) (f : RankedFact) (fs : List RankedFact)
    → Precedes (ranks_before scenario_id) f fs
    → All (ComesFirst scenario_id f) fs
Precedes-All scenario_id f [] h = tt
Precedes-All scenario_id f (g ∷ fs) h =
    (ranks_before-ComesFirst scenario_id f g h.0, Precedes-All scenario_id f fs h.1)

IsSorted-AreRanked :
    (scenario_id : Option ℕ) (fs : List RankedFact)
    → IsSorted (ranks_before scenario_id) fs
    → AreRanked scenario_id fs
IsSorted-AreRanked scenario_id [] h = tt
IsSorted-AreRanked scenario_id (f ∷ fs) h =
    (Precedes-All scenario_id f fs h.0, IsSorted-AreRanked scenario_id fs h.1)

-- The facts ranked for the prompt are the given ones, in an order in which the ones of the scenario
-- at hand come first, then the ones whose category weighs more, then the newer ones.
pub rank_facts-AreRanked :
    (scenario_id : Option ℕ) (facts : List RankedFact)
    → AreRanked scenario_id (rank_facts scenario_id facts)
      × Perm (rank_facts scenario_id facts) facts
unfolding rank_facts
rank_facts-AreRanked scenario_id facts = (
  IsSorted-AreRanked scenario_id _ (
      sort-IsSorted (ranks_before scenario_id) (λ a b. (ranks_before-order scenario_id a b a).0)
        (λ a b c. (ranks_before-order scenario_id a b c).1) facts),
  sort-Perm (ranks_before scenario_id) facts,
)
