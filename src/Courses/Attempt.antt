-- ===== src/Courses/Attempt.antt =====
-- The rules that complete an item, and the decision on an attempt, of
-- backend/src/modules/courses/course-rules.ts. Scores are of a type `S` with the test `below`, as
-- `<` on the program's floating-point numbers; a reason is a data type in place of its text.
pub mod Laws
use mathlib.Core.Option
use conversa_forge.Prelude.{
  ℕ, ◌&&◌, ◌||◌, not, Bool, true, false, Option, none, some, is_some, get_or_else, if◌then◌else◌,
}
use conversa_forge.Session.{SessionState, is_terminal, state_eq, completed}

pub data CourseItemKind : Type 0 where
  scenario video document link : CourseItemKind

pub data CompletionRule (S : Type 0) : Type 0 where
  session_completed viewed manual : CompletionRule S
  min_score : S → CompletionRule S

-- `AttemptStatus`
pub data Status : Type 0 where
  started passed failed : Status

pub data EvaluationStatus : Type 0 where
  evaluated partially_evaluated evaluation_failed pending : EvaluationStatus

pub record Evaluation (S : Type 0) : Type 0 where
  pub id : ℕ
  pub status : EvaluationStatus
  pub overall_score : Option S
  pub insufficient_evidence : Bool

pub data Reason (S : Type 0) : Type 0 where
  ended_as : SessionState → Reason S
  waiting_for_reviewer scoring_not_performed scoring_failed waiting_for_scoring
        not_enough_evidence :
      Reason S
  pass_mark_not_reached : Reason S
  score_below : S → S → Reason S

pub record AttemptDecision (S : Type 0) : Type 0 where
  pub status : Status
  pub reason : Option (Reason S)
  pub score : Option S
  pub evaluation_id : Option ℕ

module _ {S : Type 0} (below : S → S → Bool) where
  -- `defaultRuleFor`
  unfoldable pub default_rule_for : CourseItemKind → CompletionRule S
  default_rule_for scenario = session_completed
  default_rule_for _ = viewed

  -- `ruleAllowedFor`
  unfoldable pub rule_allowed_for : CourseItemKind → CompletionRule S → Bool
  rule_allowed_for scenario viewed = false
  rule_allowed_for scenario _ = true
  rule_allowed_for _ viewed = true
  rule_allowed_for _ manual = true
  rule_allowed_for _ _ = false

  -- `parseRule`, on what the schema makes of the stored value
  unfoldable pub parse_rule : CourseItemKind → Option (CompletionRule S) → CompletionRule S
  unfolding default_rule_for rule_allowed_for
  parse_rule kind none = default_rule_for kind
  parse_rule kind (some rule) = if rule_allowed_for kind rule then rule else default_rule_for kind

  abbrev decision : Status → Option (Reason S) → AttemptDecision S
  decision status reason = record {
    status = status;
    reason = reason;
    score = none;
    evaluation_id = none;
  }

  abbrev scored : Status → Option (Reason S) → Evaluation S → AttemptDecision S
  scored status reason e = record {
    status = status;
    reason = reason;
    score = e.overall_score;
    evaluation_id = some e.id;
  }

  -- The decision by the score of a finished evaluation.
  unfoldable pub by_score : S → Bool → Evaluation S → Option S → AttemptDecision S
  by_score least scores_visible e none = scored failed (some not_enough_evidence) e
  by_score least scores_visible e (some score) =
      if e.insufficient_evidence
      then scored failed (some not_enough_evidence) e
      else if below score least
      then scored failed
          (some (if scores_visible then score_below score least else pass_mark_not_reached)) e
      else scored passed none e

  -- The decision of the rule `min_score` on a scored session.
  unfoldable pub by_evaluation : S → Bool → Option (Evaluation S) → AttemptDecision S
  unfolding by_score
  by_evaluation least scores_visible none = decision started (some waiting_for_scoring)
  by_evaluation least scores_visible (some e) = elim e.status [
    | pending ↦ decision started (some waiting_for_scoring)
    | evaluation_failed ↦ record {
      status = failed;
      reason = some scoring_failed;
      score = none;
      evaluation_id = some e.id;
    }
    | _ ↦ by_score least scores_visible e e.overall_score
  ]

  unfoldable pub by_rule :
      CompletionRule S
      → (analysis_skipped : Bool) → Option (Evaluation S)
      → Bool
      → AttemptDecision S
  unfolding by_evaluation
  by_rule session_completed analysis_skipped evaluation scores_visible = record {
    status = passed;
    reason = none;
    score = Option.bind evaluation (λ e. e.overall_score);
    evaluation_id = Option.map (λ (e : Evaluation S). e.id) evaluation;
  }
  by_rule viewed analysis_skipped evaluation scores_visible = decision passed none
  by_rule manual analysis_skipped evaluation scores_visible =
      decision started (some waiting_for_reviewer)
  by_rule (min_score least) analysis_skipped evaluation scores_visible =
      if analysis_skipped
      then decision failed (some scoring_not_performed)
      else by_evaluation least scores_visible evaluation

  -- `decideAttempt`
  unfoldable pub decide_attempt :
      CompletionRule S
      → SessionState
      → (analysis_skipped : Bool) → Option (Evaluation S)
      → (scores_visible : Bool) → AttemptDecision S
  unfolding by_rule is_terminal
  decide_attempt rule state analysis_skipped evaluation scores_visible =
      if not (is_terminal state)
      then decision started none
      else if not (state_eq state completed)
      then decision failed (some (ended_as state))
      else by_rule rule analysis_skipped evaluation scores_visible

-- `participantCanSeeScores`: the fields of the configuration and of the evaluation that it reads,
-- each absent or present.
pub record ScoreVisibility : Type 0 where
  pub analysis_enabled : Option Bool
  pub can_see_scores : Option Bool
  pub rubric_enabled : Option Bool
  pub rubric_for_participants : Bool
  pub human_review_required : Bool
  pub reviewed_at : Option ℕ

unfoldable pub participant_can_see_scores : ScoreVisibility → Bool
participant_can_see_scores c =
    if not (get_or_else c.analysis_enabled true) || not (get_or_else c.can_see_scores false)
    then false
    else if not (get_or_else c.rubric_enabled true) || not c.rubric_for_participants
    then false
    else not (c.human_review_required && not (is_some c.reviewed_at))
