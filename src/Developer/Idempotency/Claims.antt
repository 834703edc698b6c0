-- ===== src/Developer/Idempotency/Claims.antt =====
-- What a claim that succeeds leaves in the table, and what a claim finds there later.
use conversa_forge.Prelude.{
  ℕ, zero, suc, ◌-◌, ◌<◌, ◌≡◌, refl, leb, ltb, ◌==◌, not, ◌&&◌, Bool, true, false, List, [], ◌∷◌,
  ◌++◌, filter, All, Option, none, some, is_some, text_eq_refl, arith, find-append-none, none-All,
  All-filter, All-append, All-imp, All-both, ◌∙◌, if◌then◌else◌,
}
use conversa_forge.Developer.Idempotency.{
  IdempotencyRecord, KeyedRequest, ClaimResult, claimed, matches, find_unique, new_record, create,
  clean_up, delete_expired, delete_unanswered, on_existing, claim_in, claim, stale_lock_ms,
  StoredBody, replay, reused, in_flight,
}
use conversa_forge.Developer.Idempotency.Keeps.{IsKept, filter-IsKept}

module _ {B D : Type 0} where
  -- A property of the result of `claim` holds where it does for every result of the loop's body.
  pub on_existing-cases :
      (Q : List (IdempotencyRecord B D) × ClaimResult B D → Type 0) (hash now : ℕ)
      (existing : IdempotencyRecord B D) (table : List (IdempotencyRecord B D))
      (retry : List (IdempotencyRecord B D) → List (IdempotencyRecord B D) × ClaimResult B D)
      → ((p : IdempotencyRecord B D → Bool) → Q (retry (filter p table)))
      → Q (table, reused)
      → Q (table, in_flight)
      → ((status : ℕ) (body : StoredBody B D) → Q (table, replay status body))
      → Q (on_existing hash now existing table retry)
  unfolding on_existing delete_expired delete_unanswered
  on_existing-cases Q hash now existing table retry again h h' h'' =
      if-either (leb existing.expires_at now) (retry (delete_expired existing.id now table)) _
        (again (λ x. not (x.id == existing.id && leb x.expires_at now)))
        (if-either (not (existing.request_hash == hash)) (table, reused) _ h
          (by_status existing.response_status))
    where
      if-either :
          (b : Bool) (c d : List (IdempotencyRecord B D) × ClaimResult B D)
          → Q c
          → Q d
          → Q (if b then c else d)
      if-either true c d k k' = k
      if-either false c d k k' = k'

      by_status :
          (o : Option ℕ)
          → Q (elim o [
            | none ↦
                if ltb stale_lock_ms (now - existing.created_at)
                then retry (delete_unanswered existing.id table)
                else (table, in_flight)
            | some status ↦ (table, replay status existing.response_body)
          ])
      by_status (some status) = h'' status existing.response_body
      by_status none =
          if-either (ltb stale_lock_ms (now - existing.created_at))
            (retry (delete_unanswered existing.id table)) (table, in_flight)
            (again (λ x. not (x.id == existing.id && not (is_some x.response_status)))) h'

  -- A claim that succeeds leaves its new record, and no other of its key.
  abbrev Claims :
      KeyedRequest → (id now : ℕ) → List (IdempotencyRecord B D) × ClaimResult B D → Type 0
  Claims req id now c = c.1 ≡ claimed id → IsKept (new_record req id now) c.0

  claim_in-Claims :
      (rounds : ℕ) (req : KeyedRequest) (id now : ℕ) (table : List (IdempotencyRecord B D))
      → All (λ x. x.id < id) table
      → Claims req id now (claim_in rounds req id now table)
  unfolding claim_in create
  claim_in-Claims zero req id now table below = λ c. cc
  claim_in-Claims (suc rounds) req id now table below =
      by_search (find_unique req.scope req.key table) refl
        (λ t below'. claim_in-Claims rounds req id now t below')
    where
      by_search :
          (o : Option (IdempotencyRecord B D))
          → find_unique req.scope req.key table ≡ o
          → ((t : List (IdempotencyRecord B D))
              → All (λ x. x.id < id) t
              → Claims req id now (claim_in rounds req id now t))
          → Claims req id now
              (elim (elim o as (λ x. Option (List (IdempotencyRecord B D))) [
                | none ↦ some (table ++ new_record req id now ∷ [])
                | some existing ↦ none
              ]) [
                | some table' ↦ (table', claimed id)
                | none ↦ elim o [
                  | none ↦ claim_in rounds req id now table
                  | some existing ↦
                      on_existing req.hash now existing table (λ t. claim_in rounds req id now t)
                ]
              ])
      by_search none e again = λ c. record {
        found =
            find-append-none (matches req.scope req.key) table _ e
            ∙ ground (arith, text_eq_refl req.key);
        alone =
            All-append _ table _
              (All-imp _ _ table
                (λ x h.
                  (λ m. absurd (ground (arith, h.0, m)), λ e'. absurd (ground (arith, h.1, e'))))
                (All-both _ _ table (none-All _ table e) below))
              (((λ m. refl), λ e'. ground (arith, text_eq_refl req.key)), tt);
      }
      by_search (some existing) e again =
          on_existing-cases (Claims req id now) req.hash now existing table
            (λ t. claim_in rounds req id now t)
            (λ p. again (filter p table) (All-filter _ p table below)) (λ c. cc) (λ c. cc)
            (λ status body c. cc)

  pub claim-Claims :
      (cleans : Bool) (req : KeyedRequest) (id now : ℕ) (table : List (IdempotencyRecord B D))
      → All (λ x. x.id < id) table
      → Claims req id now (claim cleans req id now table)
  unfolding claim clean_up
  claim-Claims false req id now table below = claim_in-Claims 2 req id now table below
  claim-Claims true req id now table below =
      claim_in-Claims 2 req id now _
        (All-filter _ (λ x. not (x.scope == req.scope && ltb x.expires_at now)) table below)

  found_by :
      (table : List (IdempotencyRecord B D)) (r : IdempotencyRecord B D) (req : KeyedRequest)
      → req.scope ≡ r.scope
      → req.key ≡ r.key
      → find_unique r.scope r.key table ≡ some r
      → find_unique req.scope req.key table ≡ some r
  found_by table r req s t e = rw s (rw t e)

  claim_in-answered :
      (r : IdempotencyRecord B D) (status : ℕ) (req : KeyedRequest) (id now : ℕ)
      (table : List (IdempotencyRecord B D))
      → find_unique req.scope req.key table ≡ some r
      → now < r.expires_at
      → r.response_status ≡ some status
      → (claim_in 2 req id now table).1
        ≡ (if r.request_hash == req.hash then replay status r.response_body else reused)
  unfolding claim_in create on_existing
  claim_in-answered r status req id now table e live answered = ground (arith, e, live, answered)

  -- A key that has its answer gives it to the same request, and an error to another.
  pub claim-answered :
      (r : IdempotencyRecord B D) (status : ℕ) (cleans : Bool) (req : KeyedRequest) (id now : ℕ)
      (table : List (IdempotencyRecord B D))
      → IsKept r table
      → req.scope ≡ r.scope
      → req.key ≡ r.key
      → now < r.expires_at
      → r.response_status ≡ some status
      → (claim cleans req id now table).1
        ≡ (if r.request_hash == req.hash then replay status r.response_body else reused)
  unfolding claim clean_up
  claim-answered r status false req id now table k s t live answered =
      claim_in-answered r status req id now table (found_by _ r req s t k.found) live answered
  claim-answered r status true req id now table k s t live answered =
      claim_in-answered r status req id now _ (found_by _ r req s t kept.found) live answered
    where
      kept : IsKept r (filter (λ x. not (x.scope == req.scope && ltb x.expires_at now)) table)
      kept =
          filter-IsKept r (λ x. not (x.scope == req.scope && ltb x.expires_at now)) table
            (ground (arith, live)) k
