-- ===== src/Courses/Progress/Complete.antt =====
-- When a course is complete, by the attempts of the enrollment.
use conversa_forge.Prelude.{
  ℕ, ◌<◌, ◌≡◌, ◌↔◌, ◌⊎◌, inl, inr, refl, sym, ap, ◌∙◌, ◌==◌, ltb, leb, ◌&&◌, Bool, true, false,
  List, [], ◌∷◌, filter, any, length, length-filter-le, is_empty, arith, All, All-imp, sort,
  sort-All, length-sort, Bool-cases, if◌then◌else◌,
}
use mathlib.Core.Path.{subst}
use conversa_forge.Courses.Progress.{
  RuleItem, RuleAttempt, AttemptStatus, item_completed, not_started, of_status, is_completed,
  is_done, is_mine, status_of_latest, item_status, in_order, counted, compute_progress,
}

-- The tests hold of every element exactly where `filter` drops none.
length-filter-All :
    {A : Type 0} (p : A → Bool) (xs : List A)
    → length (filter p xs) ≡ length xs
    → All (λ x. p x ≡ true) xs
length-filter-All p [] e = tt
length-filter-All p (x ∷ xs) e = ground (arith, length-filter-le p xs, length-filter-All p xs)

length-filter_of_All :
    {A : Type 0} (p : A → Bool) (xs : List A)
    → All (λ x. p x ≡ true) xs
    → length (filter p xs) ≡ length xs
length-filter_of_All p [] h = refl
length-filter_of_All p (x ∷ xs) h = ground (arith, h.0, length-filter_of_All p xs h.1)

-- An attempt on the item, of the generation, that was completed.
pub record IsCompletion (id generation : ℕ) (a : RuleAttempt) : Type 0 where
  pub item : a.course_item_id ≡ id
  pub current : a.generation ≡ generation
  pub completion : a.status ≡ AttemptStatus.completed

-- One of the attempts completes the item.
abbrev pub HasCompletion : (id generation : ℕ) → List RuleAttempt → Type 0
HasCompletion id generation [] = ⊥
HasCompletion id generation (a ∷ rest) =
    IsCompletion id generation a ⊎ HasCompletion id generation rest

completed_of_is_completed :
    (s : AttemptStatus) → is_completed s ≡ true → s ≡ AttemptStatus.completed
completed_of_is_completed AttemptStatus.completed e = refl
completed_of_is_completed AttemptStatus.started e = cc
completed_of_is_completed AttemptStatus.failed e = cc

any-HasCompletion :
    (id generation : ℕ) (rest : List RuleAttempt)
    → (any (λ a. is_mine id generation a && is_completed a.status) rest ≡ true)
      ↔ HasCompletion id generation rest
any-HasCompletion id generation [] = (λ e. cc, λ h. absurd h)
any-HasCompletion id generation (a ∷ rest) = (
  λ e. elim (Bool-cases (is_mine id generation a && is_completed a.status)) [
    | inl mine ↦ inl (record {
      item = ground (arith, mine);
      current = ground (arith, mine);
      completion = completed_of_is_completed a.status (ground (arith, mine));
    })
    | inr other ↦ inr ((any-HasCompletion id generation rest).0 (ground (arith, e, other)))
  ],
  λ h. elim h [
    | inl c ↦ ground (arith, c.item, c.current, ap is_completed c.completion)
    | inr later ↦
        let found = (any-HasCompletion id generation rest).1 later in ground (arith, found)
  ],
)

any-filter :
    {A : Type 0} (p q : A → Bool) (xs : List A) → any q (filter p xs) ≡ any (λ x. p x && q x) xs
any-filter p q [] = refl
any-filter p q (x ∷ xs) = ground (arith, any-filter p q xs)

latest_not_done : (rest : List RuleAttempt) → is_done (status_of_latest rest) ≡ false
latest_not_done [] = refl
latest_not_done (a ∷ rest) = by_status a.status
  where
    by_status : (s : AttemptStatus) → is_done (of_status s) ≡ false
    by_status AttemptStatus.started = refl
    by_status AttemptStatus.completed = refl
    by_status AttemptStatus.failed = refl

is_done-if :
    (b : Bool) (rest : List RuleAttempt)
    → is_done (if b then item_completed else status_of_latest rest) ≡ b
is_done-if true rest = refl
is_done-if false rest = latest_not_done rest

is_done-any :
    (mine : List RuleAttempt) (latest_first : List RuleAttempt → List RuleAttempt)
    → is_done (
        if is_empty mine
        then not_started
        else if any (λ (a : RuleAttempt). is_completed a.status) mine
        then item_completed
        else status_of_latest (latest_first mine))
      ≡ any (λ (a : RuleAttempt). is_completed a.status) mine
is_done-any [] latest_first = refl
is_done-any (a ∷ rest) latest_first = is_done-if _ (latest_first (a ∷ rest))

item_status-HasCompletion :
    (id : ℕ) (attempts : List RuleAttempt) (generation : ℕ)
    → (is_done (item_status id attempts generation) ≡ true) ↔ HasCompletion id generation attempts
unfolding item_status
item_status-HasCompletion id attempts generation =
    let latest_first = λ (mine : List RuleAttempt).
      sort (λ (a b : RuleAttempt). leb b.started_at a.started_at) mine in
    subst (λ b. (b ≡ true) ↔ HasCompletion id generation attempts)
      (sym (
        is_done-any (filter (is_mine id generation) attempts) latest_first
        ∙ any-filter (is_mine id generation) (λ a. is_completed a.status) attempts))
      (any-HasCompletion id generation attempts)

-- The item counts toward the progress: it is required, or no item is.
abbrev pub Counts : List RuleItem → RuleItem → Type 0
Counts items i = (i.required ≡ true) ⊎ All (λ j. j.required ≡ false) items

abbrev is_required : RuleItem → Bool
is_required i = i.required

any-none :
    (items : List RuleItem) → (any is_required items ≡ false) ↔ All (λ i. i.required ≡ false) items
any-none [] = (λ e. tt, λ h. refl)
any-none (i ∷ items) = (
  λ e. (ground (arith, e), (any-none items).0 (ground (arith, e))),
  λ h. let later = (any-none items).1 h.1 in ground (arith, h.0, later),
)

any-in_order :
    (items : List RuleItem)
    → (any is_required (in_order items) ≡ false) ↔ All (λ i. i.required ≡ false) items
any-in_order items = (
  λ e. (sort-All _ _ items).0 ((any-none (in_order items)).0 e),
  λ h. (any-none (in_order items)).1 ((sort-All _ _ items).1 h),
)

length-filter-any :
    (items : List RuleItem) → any is_required items ≡ true → 0 < length (filter is_required items)
length-filter-any [] e = absurd cc
length-filter-any (i ∷ items) e = ground (arith, length-filter-any items)

module _ (P : RuleItem → Type 0) where
  All-filter_required :
      (items : List RuleItem)
      → All P (filter is_required items) ↔ All (λ i. i.required ≡ true → P i) items
  All-filter_required [] = (λ h. h, λ h. h)
  All-filter_required (i ∷ items) = by_test i.required refl (All-filter_required items)
    where
      by_test :
          (b : Bool)
          → i.required ≡ b
          → All P (filter is_required items) ↔ All (λ i. i.required ≡ true → P i) items
          → All P (if b then i ∷ filter is_required items else filter is_required items)
            ↔ All (λ i. i.required ≡ true → P i) (i ∷ items)
      by_test true e (to, from) = (λ h. (λ _. h.0, to h.1), λ h. (h.0 e, from h.1))
      by_test false e (to, from) = (λ h. (λ r. absurd cc, to h), λ h. from h.1)

  -- What holds of the items that the code counts holds of those that count.
  All-counted :
      (items : List RuleItem)
      → All P (counted (in_order items)) ↔ All (λ i. Counts items i → P i) items
  All-counted items = by_test (any is_required (in_order items)) refl
    where
      by_test :
          (b : Bool)
          → any is_required (in_order items) ≡ b
          → All P (if b then filter is_required (in_order items) else in_order items)
            ↔ All (λ i. Counts items i → P i) items
      by_test true e = (
        λ h.
            All-imp _ _ items
              (λ i f c. elim c [
                | inl r ↦ f r
                | inr none ↦ absurd (let n = (any-in_order items).1 none in cc)
              ])
              ((sort-All _ _ items).0 ((All-filter_required (in_order items)).0 h)),
        λ h.
            (All-filter_required (in_order items)).1
              ((sort-All _ _ items).1 (All-imp _ _ items (λ i f r. f (inl r)) h)),
      )
      by_test false e = (
        λ h. All-imp _ _ items (λ i p c. p) ((sort-All _ _ items).0 h),
        λ h.
            (sort-All _ _ items).1
              (All-imp _ _ items (λ i f. f (inr ((any-in_order items).0 e))) h),
      )

some_counted :
    (items : List RuleItem) → (0 < length (counted (in_order items))) ↔ (0 < length items)
some_counted items =
    let size = length-sort (λ (a b : RuleItem). leb a.position b.position) items in
    let full = length-filter-any (in_order items) in
    let small = length-filter-le is_required (in_order items) in ground (arith, size, full, small)

-- The two tests of the code on the items that it counts.
all_counted :
    (done : RuleItem → Bool) (count : List RuleItem)
    → ((ltb 0 (length count) && length (filter done count) == length count) ≡ true)
      ↔ ((0 < length count) × All (λ i. done i ≡ true) count)
all_counted done count =
    ground (arith, length-filter-All done count, length-filter_of_All done count)

module _ (rounded : ℕ → ℕ → ℕ) (items : List RuleItem) (attempts : List RuleAttempt)
    (generation : ℕ) (forced : Bool) where
  -- The course is complete exactly where it has an item and each item that counts toward the
  -- progress, which are the required ones or, where none is required, all, has an attempt of this
  -- generation that was completed.
  pub complete_iff :
      ((compute_progress rounded items attempts generation forced).complete ≡ true) ↔ (
        (0 < length items)
        × All (λ i. Counts items i → HasCompletion i.id generation attempts) items)
  unfolding compute_progress
  complete_iff =
      let done = λ (i : RuleItem). is_done (item_status i.id attempts generation) in
      let tests = all_counted done (counted (in_order items)) in
      let each = λ (i : RuleItem). item_status-HasCompletion i.id attempts generation in
      (
        λ e.
            let (size, all) = tests.0 e in
            (
              (some_counted items).0 size,
              (All-counted _ items).0 (All-imp _ _ _ (λ i d. (each i).0 d) all),
            ),
        λ h. tests.1 (
          (some_counted items).1 h.0,
          All-imp _ _ _ (λ i d. (each i).1 d) ((All-counted _ items).1 h.1),
        ),
      )
