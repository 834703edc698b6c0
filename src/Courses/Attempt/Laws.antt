-- ===== src/Courses/Attempt/Laws.antt =====
-- What decides an attempt.
use conversa_forge.Prelude.{◌≡◌, ◌↔◌, ◌⊎◌, refl, Bool, true, false, Option, none, some, arith}
use conversa_forge.Session.{SessionState, completed, is_terminal}
use conversa_forge.Courses.Attempt.{
  CourseItemKind, CompletionRule, session_completed, viewed, manual, min_score, passed, evaluated,
  partially_evaluated, Evaluation, default_rule_for, rule_allowed_for, parse_rule, by_score,
  by_evaluation, by_rule, decide_attempt,
}

abbrev Reaches : {S : Type 0} → (S → S → Bool) → S → Option S → Type 0
Reaches below least none = ⊥
Reaches below least (some score) = below score least ≡ false

-- What a rule asks of the session and its evaluation.
abbrev pub Satisfies :
    {S : Type 0}
    → (S → S → Bool)
    → CompletionRule S
    → (analysis_skipped : Bool) → Option (Evaluation S)
    → Type 0
Satisfies below session_completed skipped evaluation = Unit
Satisfies below viewed skipped evaluation = Unit
Satisfies below manual skipped evaluation = ⊥
Satisfies below (min_score least) skipped none = ⊥
Satisfies {S} below (min_score least) skipped (some e) =
    (skipped ≡ false)
    × ((e.status ≡ evaluated) ⊎ (e.status ≡ partially_evaluated))
    × (e.insufficient_evidence ≡ false)
    × Reaches below least e.overall_score

module _ {S : Type 0} (below : S → S → Bool) where
  by_score-passed :
      (least : S) (visible : Bool) (e : Evaluation S) (o : Option S)
      → ((by_score below least visible e o).status ≡ passed)
        ↔ ((e.insufficient_evidence ≡ false) × Reaches below least o)
  unfolding by_score
  by_score-passed least visible e none = (λ h. cc, λ h. absurd h.1)
  by_score-passed least visible e (some score) = ground arith

  by_evaluation-passed :
      (least : S) (visible : Bool) (o : Option (Evaluation S))
      → ((by_evaluation below least visible o).status ≡ passed)
        ↔ Satisfies below (min_score least) false o
  unfolding by_evaluation
  by_evaluation-passed least visible none = (λ h. cc, λ h. absurd h)
  by_evaluation-passed least visible (some e) =
      ground (arith, by_score-passed least visible e e.overall_score)

  by_rule-passed :
      (rule : CompletionRule S) (skipped : Bool) (evaluation : Option (Evaluation S))
      (visible : Bool)
      → ((by_rule below rule skipped evaluation visible).status ≡ passed)
        ↔ Satisfies below rule skipped evaluation
  unfolding by_rule
  by_rule-passed session_completed skipped evaluation visible = (λ h. tt, λ h. refl)
  by_rule-passed viewed skipped evaluation visible = (λ h. tt, λ h. refl)
  by_rule-passed manual skipped evaluation visible = (λ h. cc, λ h. absurd h)
  by_rule-passed (min_score least) false evaluation visible =
      by_evaluation-passed least visible evaluation
  by_rule-passed (min_score least) true none visible = (λ h. cc, λ h. absurd h)
  by_rule-passed (min_score least) true (some e) visible = (λ h. cc, λ h. cc)

  -- An attempt is passed exactly where its session is completed and satisfies the item's rule: any
  -- completed session for `session_completed` and `viewed`, none for `manual`, and for `min_score`
  -- one that was scored, with enough evidence, and not below the mark.
  pub decide_attempt-passed :
      (rule : CompletionRule S) (state : SessionState) (skipped : Bool)
      (evaluation : Option (Evaluation S)) (visible : Bool)
      → ((decide_attempt below rule state skipped evaluation visible).status ≡ passed)
        ↔ ((state ≡ completed) × Satisfies below rule skipped evaluation)
  unfolding decide_attempt is_terminal
  decide_attempt-passed rule state skipped evaluation visible =
      ground (arith, by_rule-passed rule skipped evaluation visible)

  -- Whatever is stored as an item's rule, the rule read from it is one that its kind allows, and
  -- storing the rule that was read changes nothing.
  pub parse_rule-allowed :
      (kind : CourseItemKind) (raw : Option (CompletionRule S))
      → (rule_allowed_for below kind (parse_rule below kind raw) ≡ true)
        × (parse_rule below kind (some (parse_rule below kind raw)) ≡ parse_rule below kind raw)
  unfolding parse_rule default_rule_for rule_allowed_for
  parse_rule-allowed kind none = ground arith
  parse_rule-allowed kind (some rule) = ground arith
