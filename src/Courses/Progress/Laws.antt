-- ===== src/Courses/Progress/Laws.antt =====
-- What the progress of an enrollment means.
use conversa_forge.Prelude.{
  ℕ, ◌≤◌, ◌≡◌, ◌↔◌, refl, sym, ap, ◌==◌, ltb, ◌&&◌, ◌||◌, not, Bool, true, false, List, [], ◌∷◌,
  ◌++◌, filter, any, find, length, length-filter-le, Option, none, some, get_or_else, arith, All,
}
use mathlib.Core.Path.{subst}
use mathlib.Core.Option
use conversa_forge.Courses.Progress.{
  RuleItem, RuleAttempt, is_done, item_status, ProgressResult, field, locks, in_order, counted,
  is_locked_in, first_incomplete, or_else, percent_of, compute_progress, is_locked,
}

percent_of_full :
    (rounded : ℕ → ℕ → ℕ) (done total : ℕ)
    → done ≤ total
    → ((percent_of rounded done total ≡ 100) ↔ ((ltb 0 total && done == total) ≡ true))
      × (percent_of rounded done total ≤ 100)
unfolding percent_of
percent_of_full rounded done total h = ground arith

module _ (rounded : ℕ → ℕ → ℕ) (items : List RuleItem) (attempts : List RuleAttempt)
    (generation : ℕ) (forced : Bool) where
  abbrev pub progress : ProgressResult
  progress = compute_progress rounded items attempts generation forced

  abbrev pub is_complete : RuleItem → Bool
  unfolding item_status
  is_complete i = is_done (item_status i.id attempts generation)

  -- The percentage is 100 exactly where the course is complete, and never more, whatever the rounding
  -- of the quotient gives.
  pub percent-complete :
      ((progress.percent ≡ 100) ↔ (progress.complete ≡ true)) × (progress.percent ≤ 100)
  unfolding compute_progress
  percent-complete =
      percent_of_full rounded (length (filter is_complete (counted (in_order items))))
        (length (counted (in_order items)))
        (length-filter-le is_complete (counted (in_order items)))

-- Items none of which has the id.
abbrev pub HasNoId : ℕ → List RuleItem → Type 0
HasNoId id items = All (λ (i : RuleItem). (i.id == id) ≡ false) items

-- Items with pairwise different ids.
abbrev pub HasUniqueIds : List RuleItem → Type 0
HasUniqueIds [] = Unit
HasUniqueIds (i ∷ items) = HasNoId i.id items × HasUniqueIds items

abbrev pub blocks : (RuleItem → Bool) → RuleItem → Bool
blocks is_complete i = i.required && not (is_complete i)

field-locks-none :
    (is_complete : RuleItem → Bool) (forced blocked : Bool) (id : ℕ) (items : List RuleItem)
    → HasNoId id items
    → field id (locks is_complete forced blocked items) ≡ none
unfolding field locks
field-locks-none is_complete forced blocked id [] h = refl
field-locks-none is_complete forced blocked id (i ∷ items) h =
    let later =
      field-locks-none is_complete forced (blocked || blocks is_complete i) id items h.1 in
    ground (arith, later, h.0)

field-locks :
    (is_complete : RuleItem → Bool) (forced blocked : Bool) (xs : List RuleItem) (it : RuleItem)
    (ys : List RuleItem)
    → HasNoId it.id ys
    → field it.id (locks is_complete forced blocked (xs ++ it ∷ ys))
      ≡ some (forced && (blocked || any (blocks is_complete) xs))
unfolding field locks
field-locks is_complete forced blocked [] it ys h =
    let later = field-locks-none is_complete forced (blocked || blocks is_complete it) it.id ys h in
    ground (arith, later)
field-locks is_complete forced blocked (x ∷ xs) it ys h =
    let later = field-locks is_complete forced (blocked || blocks is_complete x) xs it ys h in
    ground (arith, later)

find-none : {A : Type 0} (p : A → Bool) (xs : List A) → find p xs ≡ none → All (λ x. p x ≡ false) xs
find-none p [] e = tt
find-none p (x ∷ xs) e = ground (arith, find-none p xs)

abbrev is_open_in : (RuleItem → Bool) → List (ℕ × Bool) → RuleItem → Bool
is_open_in is_complete locked i = not (is_complete i) && not (is_locked_in locked i)

-- An entry for another id does not matter.
open_in_tail :
    (is_complete : RuleItem → Bool) (id : ℕ) (b : Bool) (locked : List (ℕ × Bool))
    (items : List RuleItem)
    → HasNoId id items
    → All (λ i. is_open_in is_complete ((id, b) ∷ locked) i ≡ false) items
    → All (λ i. is_open_in is_complete locked i ≡ false) items
unfolding field
open_in_tail is_complete id b locked [] h a = tt
open_in_tail is_complete id b locked (i ∷ items) h a =
    (ground (arith, a.0, h.0), open_in_tail is_complete id b locked items h.1 a.1)

complete_of_unlocked :
    (done : RuleItem → Bool) (locked : List (ℕ × Bool)) (i : RuleItem)
    → field i.id locked ≡ some false
    → is_open_in done locked i ≡ false
    → done i ≡ true
unfolding field
complete_of_unlocked done locked i e h = ground (arith, ap (λ o. get_or_else o false) e)

All-complete_of_none_open :
    (done : RuleItem → Bool) (forced : Bool) (items : List RuleItem)
    → HasUniqueIds items
    → All (λ i. is_open_in done (locks done forced false items) i ≡ false) items
    → All (λ i. done i ≡ true) items
unfolding locks
All-complete_of_none_open done forced [] u a = tt
All-complete_of_none_open done forced (i ∷ items) u a = (
  first,
  All-complete_of_none_open done forced items u.1 (
      subst (λ b. All (λ j. is_open_in done (locks done forced b items) j ≡ false) items) unblocked
        (open_in_tail done i.id (forced && false) (locks done forced (blocks done i) items) items
          u.0 a.1)),
)
  where
    unlocked : field i.id (locks done forced false (i ∷ items)) ≡ some false
    unlocked = ground (arith, field-locks done forced false [] i items u.0)

    first : done i ≡ true
    first = complete_of_unlocked done (locks done forced false (i ∷ items)) i unlocked a.0

    unblocked : blocks done i ≡ false
    unblocked = ground (arith, first)

or_else-none :
    (a b : Option RuleItem) → Option.map (λ (i : RuleItem). i.id) (or_else a b) ≡ none → b ≡ none
or_else-none none none e = refl
or_else-none none (some b) e = cc
or_else-none (some a) b e = cc

module _ (rounded : ℕ → ℕ → ℕ) (items : List RuleItem) (attempts : List RuleAttempt)
    (generation : ℕ) (forced : Bool) where
  -- In a forced order an item is locked exactly where a required item before it is not completed, and
  -- without one no item is; `xs` are the items before it and `ys`, none of which has its id, those
  -- after.
  pub is_locked_lem :
      (xs : List RuleItem) (it : RuleItem) (ys : List RuleItem)
      → in_order items ≡ xs ++ it ∷ ys
      → HasNoId it.id ys
      → is_locked rounded items attempts generation forced it.id
        ≡ (forced && any (blocks (is_complete rounded items attempts generation forced)) xs)
  unfolding is_locked compute_progress
  is_locked_lem xs it ys split h =
      let done = is_complete rounded items attempts generation forced in
      subst
        (λ l.
          get_or_else (field it.id (locks done forced false l)) false
          ≡ (forced && any (blocks done) xs))
        (sym split) (ap (λ o. get_or_else o false) (field-locks done forced false xs it ys h))

  -- Where the ids differ and the course offers no next item, every item is completed: a forced order never locks all
  -- that is left.
  pub next_item-none :
      HasUniqueIds (in_order items)
      → (compute_progress rounded items attempts generation forced).next_item_id ≡ none
      → All (λ i. is_complete rounded items attempts generation forced i ≡ true) (in_order items)
  unfolding compute_progress first_incomplete
  next_item-none u e =
      let done = is_complete rounded items attempts generation forced in
      All-complete_of_none_open done forced (in_order items) u (
        find-none (is_open_in done (locks done forced false (in_order items))) (in_order items) (
          or_else-none
            (first_incomplete done (locks done forced false (in_order items))
              (counted (in_order items)))
            (first_incomplete done (locks done forced false (in_order items)) (in_order items)) e))
