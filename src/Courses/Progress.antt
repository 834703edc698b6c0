-- ===== src/Courses/Progress.antt =====
-- The progress of an enrollment, of backend/src/modules/courses/course-rules.ts. Item ids are
-- numbers, times epoch milliseconds. `rounded_percent` is `Math.round((a / b) * 100)`, computed in
-- floating point.
pub mod Laws
pub mod Complete
use mathlib.Core.Option
use conversa_forge.Prelude.{
  ℕ, ◌+◌, min, leb, ltb, ◌==◌, ◌&&◌, ◌||◌, not, Bool, true, false, List, [], ◌∷◌, ◌++◌, map, filter,
  any, find, length, Option, none, some, get_or_else, is_empty, if◌then◌else◌, sort,
}

pub data AttemptStatus : Type 0 where
  started completed failed : AttemptStatus

pub data ItemStatus : Type 0 where
  not_started in_progress item_completed item_failed : ItemStatus

pub record RuleItem : Type 0 where
  pub id : ℕ
  pub position : ℕ
  pub required : Bool

pub record RuleAttempt : Type 0 where
  pub course_item_id : ℕ
  pub generation : ℕ
  pub status : AttemptStatus
  pub started_at : ℕ

abbrev pub is_completed : AttemptStatus → Bool
is_completed completed = true
is_completed _ = false

abbrev pub is_done : ItemStatus → Bool
is_done item_completed = true
is_done _ = false

abbrev pub of_status : AttemptStatus → ItemStatus
of_status failed = item_failed
of_status _ = in_progress

-- The status of an item by its latest attempt, none of which is completed.
abbrev pub status_of_latest : List RuleAttempt → ItemStatus
status_of_latest [] = not_started
status_of_latest (a ∷ rest) = of_status a.status

abbrev pub is_mine : ℕ → ℕ → RuleAttempt → Bool
is_mine item_id generation a = a.course_item_id == item_id && a.generation == generation

-- `itemStatus`
unfoldable pub item_status : ℕ → List RuleAttempt → ℕ → ItemStatus
item_status item_id attempts generation =
    let mine = filter (is_mine item_id generation) attempts in
    if is_empty mine
    then not_started
    else if any (λ (a : RuleAttempt). is_completed a.status) mine
    then item_completed
    else status_of_latest (sort (λ (a b : RuleAttempt). leb b.started_at a.started_at) mine)

pub record ProgressResult : Type 0 where
  pub completed_required : ℕ
  pub total_required : ℕ
  pub percent : ℕ
  pub complete : Bool
  pub statuses : List (ℕ × ItemStatus)
  pub locked : List (ℕ × Bool)
  pub next_item_id : Option ℕ

-- A field of a `Record`, where the last write of a key counts.
unfoldable pub field {ℓ} : {A : Type ℓ} → ℕ → List (ℕ × A) → Option A
field id [] = none
field id ((k, a) ∷ rest) = elim (field id rest) [
  | some b ↦ some b
  | none ↦ if k == id then some a else none
]

-- The loop that fills `locked`.
unfoldable pub locks : (RuleItem → Bool) → Bool → Bool → List RuleItem → List (ℕ × Bool)
locks is_complete forced_order blocked [] = []
locks is_complete forced_order blocked (it ∷ items) =
    (it.id, forced_order && blocked)
    ∷ locks is_complete forced_order (blocked || (it.required && not (is_complete it))) items

abbrev pub in_order : List RuleItem → List RuleItem
in_order items = sort (λ (a b : RuleItem). leb a.position b.position) items

-- The items that count toward progress, of the items in order.
abbrev pub counted : List RuleItem → List RuleItem
counted ordered =
    if any (λ (i : RuleItem). i.required) ordered
    then filter (λ (i : RuleItem). i.required) ordered
    else ordered

abbrev pub is_locked_in : List (ℕ × Bool) → RuleItem → Bool
unfolding field
is_locked_in locked i = get_or_else (field i.id locked) false

unfoldable pub first_incomplete :
    (RuleItem → Bool) → List (ℕ × Bool) → List RuleItem → Option RuleItem
first_incomplete is_complete locked items =
    find (λ (i : RuleItem). not (is_complete i) && not (is_locked_in locked i)) items

abbrev pub or_else {ℓ} : {A : Type ℓ} → Option A → Option A → Option A
or_else none b = b
or_else (some a) b = some a

module _ (rounded_percent : ℕ → ℕ → ℕ) where
  unfoldable pub percent_of : (completed_required total_required : ℕ) → ℕ
  percent_of done total =
      if total == 0 then 0 else if leb total done then 100 else min 99 (rounded_percent done total)

  -- `computeProgress`; `statuses[i.id]` is the item's status, which its id determines.
  unfoldable pub compute_progress : List RuleItem → List RuleAttempt → ℕ → Bool → ProgressResult
  unfolding percent_of locks first_incomplete item_status
  compute_progress items attempts generation forced_order =
      let ordered = in_order items in
      let is_complete = λ (i : RuleItem). is_done (item_status i.id attempts generation) in
      let count = counted ordered in
      let done = length (filter is_complete count) in
      let locked = locks is_complete forced_order false ordered in
      let next =
        or_else (first_incomplete is_complete locked count)
          (first_incomplete is_complete locked ordered) in
      record {
        completed_required = done;
        total_required = length count;
        percent = percent_of done (length count);
        complete = ltb 0 (length count) && done == length count;
        statuses = map (λ (i : RuleItem). (i.id, item_status i.id attempts generation)) ordered;
        locked = locked;
        next_item_id = Option.map (λ (i : RuleItem). i.id) next;
      }

  -- `isLocked`
  unfoldable pub is_locked : List RuleItem → List RuleAttempt → ℕ → Bool → ℕ → Bool
  unfolding compute_progress field
  is_locked items attempts generation forced_order item_id =
      get_or_else (field item_id (compute_progress items attempts generation forced_order).locked)
        false
