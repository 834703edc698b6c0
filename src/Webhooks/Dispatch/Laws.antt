-- ===== src/Webhooks/Dispatch/Laws.antt =====
-- What holds of a delivery over any sequence of jobs, also of jobs that are lost, repeated or late.
use conversa_forge.Prelude.{
  ℕ, ◌+◌, ◌<◌, ◌≡◌, refl, sym, ◌==◌, ==_iff, not, ◌&&◌, Bool, true, false, List, [], ◌∷◌, Option,
  none, some, All, arith, if◌then◌else◌,
}
use mathlib.Core.Path.{subst}
use conversa_forge.Webhooks.Dispatch.{
  Delivery, DeliverJob, SendResult, Dispatch, is_succeeded, give_up, attempt_claimed, attempt_found,
  deliver_attempt, run_jobs,
}

-- Numbers below a bound.
abbrev IsBelow : ℕ → List ℕ → Type 0
IsBelow n ps = All (λ p. p < n) ps

-- Each number is below the one before it, so none is there twice.
abbrev pub IsDescending : List ℕ → Type 0
IsDescending [] = Unit
IsDescending (p ∷ ps) = IsBelow p ps × IsDescending ps

abbrev IsBelowNext : Option Delivery → List ℕ → Type 0
IsBelowNext none ps = Unit
IsBelowNext (some del) ps = IsBelow (del.attempts + 1) ps

-- The attempts that were sent have falling numbers, and the delivery counts them.
pub record IsCounted (s : Dispatch) : Type 0 where
  pub below : IsBelowNext s.delivery s.posted
  pub descending : IsDescending s.posted

IsBelow-weaken : (n : ℕ) (ps : List ℕ) → IsBelow n ps → IsBelow (n + 1) ps
IsBelow-weaken n [] h = tt
IsBelow-weaken n (p ∷ ps) h = (omega (arith, h.0), IsBelow-weaken n ps h.1)

attempts-give_up : (del : Delivery) → (give_up del).attempts ≡ del.attempts
unfolding give_up
attempts-give_up del = ground arith

module _ {J : Type 0} (spread : ℕ → J → ℕ) (disable_after : ℕ) where
  attempt_claimed-IsCounted :
      (now : ℕ) (job : DeliverJob) (r : SendResult) (j : J) (del : Delivery) (s : Dispatch)
      → del.attempts + 1 ≡ job.attempt
      → IsBelow (del.attempts + 1) s.posted
      → IsDescending s.posted
      → IsCounted (attempt_claimed spread disable_after now job r j del s)
  unfolding attempt_claimed
  attempt_claimed-IsCounted now job r j del s next below desc =
      let below' : IsBelow job.attempt s.posted = subst (λ n. IsBelow n s.posted) next below in
      record {
        below = (omega arith, IsBelow-weaken job.attempt s.posted below');
        descending = (below', desc);
      }

  if-IsCounted :
      (b : Bool) (x y : Dispatch)
      → (b ≡ true → IsCounted x)
      → (b ≡ false → IsCounted y)
      → IsCounted (if b then x else y)
  if-IsCounted true x y f g = f refl
  if-IsCounted false x y f g = g refl

  attempt_found-IsCounted :
      (now : ℕ) (job : DeliverJob) (r : SendResult) (j : J) (del : Delivery) (s : Dispatch)
      → IsCounted s
      → IsBelow (del.attempts + 1) s.posted
      → IsCounted (attempt_found spread disable_after now job r j del s)
  unfolding attempt_found
  attempt_found-IsCounted now job r j del s h below =
      if-IsCounted (not job.manual && is_succeeded del.status) _ _ (λ _. h)
        (λ _.
          if-IsCounted (not job.manual && not s.subscription.active) _ _
            (λ _. record {
              below = subst (λ n. IsBelow (n + 1) s.posted) (sym (attempts-give_up del)) below;
              descending = h.descending;
            })
            (λ _.
              if-IsCounted (del.attempts + 1 == job.attempt) _ _
                (λ e.
                  attempt_claimed-IsCounted now job r j del s
                    ((==_iff (del.attempts + 1) job.attempt).0 e) below h.descending)
                (λ _. h)))

  deliver_attempt-IsCounted :
      (now : ℕ) (job : DeliverJob) (r : SendResult) (j : J) (s : Dispatch)
      → IsCounted s
      → IsCounted (deliver_attempt spread disable_after now job r j s)
  unfolding deliver_attempt
  deliver_attempt-IsCounted now job r j s h = by_delivery s.delivery refl
    where
      by_delivery :
          (o : Option Delivery)
          → s.delivery ≡ o
          → IsCounted (elim o [
            | none ↦ s
            | some del ↦ attempt_found spread disable_after now job r j del s
          ])
      by_delivery none e = h
      by_delivery (some del) e =
          attempt_found-IsCounted now job r j del s h
            (subst (λ o. IsBelowNext o s.posted) e h.below)

  -- Whatever jobs run, repeated and late ones included, no attempt of a delivery is sent twice: the
  -- numbers of the attempts that were sent fall, from the last to the first, if they did before.
  pub run_jobs-IsCounted :
      (jobs : List (ℕ × DeliverJob × SendResult × J)) (s : Dispatch)
      → IsCounted s
      → IsCounted (run_jobs spread disable_after jobs s)
  unfolding run_jobs
  run_jobs-IsCounted [] s h = h
  run_jobs-IsCounted ((now, job, r, j) ∷ jobs) s h =
      run_jobs-IsCounted jobs (deliver_attempt spread disable_after now job r j s)
        (deliver_attempt-IsCounted now job r j s h)
