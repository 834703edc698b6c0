-- ===== src/Courses/Tests.antt =====
-- A course of three items, and attempts on it.
use conversa_forge.Prelude.{
  ℕ, ◌<◌, ◌≤◌, ◌≡◌, ◌↔◌, refl, ltb, true, false, List, [], ◌∷◌, some, All, length,
}
use conversa_forge.Session.{completed}
use conversa_forge.Courses.Progress.{
  RuleItem, RuleAttempt, AttemptStatus, in_order, compute_progress, is_locked,
}
use conversa_forge.Courses.Progress.Complete.{Counts, HasCompletion, complete_iff}
use conversa_forge.Courses.Progress.Laws.{
  is_complete, percent-complete, is_locked_lem, next_item-none,
}
use conversa_forge.Courses.Attempt.{
  video, min_score, passed, evaluated, Evaluation, parse_rule, rule_allowed_for, decide_attempt,
}
use conversa_forge.Courses.Attempt.Laws.{Satisfies, decide_attempt-passed, parse_rule-allowed}

abbrev items : List RuleItem
items =
    record { id = 3; position = 2; required = false }
    ∷ record { id = 1; position = 0; required = true }
    ∷ record { id = 2; position = 1; required = true }
    ∷ []

abbrev attempt : ℕ → ℕ → RuleAttempt
attempt id generation = record {
  course_item_id = id;
  generation = generation;
  status = AttemptStatus.completed;
  started_at = 10;
}

-- Item 2 is completed in an earlier generation only.
abbrev attempts : List RuleAttempt
attempts = attempt 1 5 ∷ attempt 2 4 ∷ []

abbrev rounded : ℕ → ℕ → ℕ
rounded done total = 50

percent-complete_example :
    let p = compute_progress rounded items attempts 5 true in
    ((p.percent ≡ 100) ↔ (p.complete ≡ true)) × (p.percent ≤ 100)
percent-complete_example = percent-complete rounded items attempts 5 true

complete_iff_example :
    ((compute_progress rounded items attempts 5 true).complete ≡ true)
    ↔ ((0 < length items) × All (λ i. Counts items i → HasCompletion i.id 5 attempts) items)
complete_iff_example = complete_iff rounded items attempts 5 true

-- Item 3 waits for item 2.
is_locked_lem_example : is_locked rounded items attempts 5 true 3 ≡ true
unfolding is_locked
is_locked_lem_example =
    is_locked_lem rounded items attempts 5 true
      (record { id = 1; position = 0; required = true }
        ∷ record { id = 2; position = 1; required = true }
        ∷ [])
      (record { id = 3; position = 2; required = false }) [] refl tt

abbrev all_done : List RuleAttempt
all_done = attempt 1 5 ∷ attempt 2 5 ∷ attempt 3 5 ∷ []

next_item-none_example :
    All (λ i. is_complete rounded items all_done 5 true i ≡ true) (in_order items)
unfolding compute_progress
next_item-none_example =
    next_item-none rounded items all_done 5 true ((refl, (refl, tt)), ((refl, tt), (tt, tt))) refl

abbrev evaluation : Evaluation ℕ
evaluation = record {
  id = 9;
  status = evaluated;
  overall_score = some 80;
  insufficient_evidence = false;
}

decide_attempt-passed_example :
    ((decide_attempt ltb (min_score 70) completed false (some evaluation) true).status ≡ passed)
    ↔ ((completed ≡ completed) × Satisfies ltb (min_score 70) false (some evaluation))
decide_attempt-passed_example =
    decide_attempt-passed ltb (min_score 70) completed false (some evaluation) true

parse_rule-allowed_example :
    let rule = parse_rule ltb video (some (min_score 70)) in
    (rule_allowed_for ltb video rule ≡ true) × (parse_rule ltb video (some rule) ≡ rule)
parse_rule-allowed_example = parse_rule-allowed ltb video (some (min_score 70))
