-- ===== src/Developer/Idempotency/Keeps.antt =====
-- What the events of a server leave of one record of the table.
use conversa_forge.Prelude.{
  ℕ, zero, suc, ◌-◌, ◌≤◌, ◌<◌, ◌≡◌, ◌≢◌, ◌↔◌, ◌⊎◌, refl, ◌∙◌, ap, leb, ltb, ◌==◌, ==_iff, not, ◌&&◌,
  Bool, true, false, List, [], ◌∷◌, ◌++◌, filter, any, All, map, Option, none, some, is_some,
  get_or_else, Text, text_eq_iff, arith, find-filter, find-append-some, find-map, find_sound,
  All-filter, All-find, All-append, All-map, if◌then◌else◌,
}
use mathlib.Core.Bool.{and-eq-true_iff}
use conversa_forge.Developer.Idempotency.{
  IdempotencyRecord, KeyedRequest, ClaimResult, claimed, matches, find_unique, new_record, create,
  clean_up, delete_expired, delete_unanswered, on_existing, claim_in, claim, stale_lock_ms,
  StoredBody, replay, reused, in_flight, delete_record, answered_record, store_response,
}

module _ {B D : Type 0} (r : IdempotencyRecord B D) where
  -- The table has `r`, and no other record of its scope and key or of its id.
  pub record IsKept (table : List (IdempotencyRecord B D)) : Type 0 where
    pub found : find_unique r.scope r.key table ≡ some r
    pub alone : All (λ x. (matches r.scope r.key x ≡ true) ↔ (x.id ≡ r.id)) table

  pub filter-IsKept :
      (p : IdempotencyRecord B D → Bool) (table : List (IdempotencyRecord B D))
      → p r ≡ true
      → IsKept table
      → IsKept (filter p table)
  filter-IsKept p table h k = record {
    found = find-filter (matches r.scope r.key) p r table k.found h;
    alone = All-filter _ p table k.alone;
  }

  pub matches_eq :
      (scope : ℕ) (key : Text) (x : IdempotencyRecord B D)
      → matches scope key x ≡ true
      → (x.scope ≡ scope) × (x.key ≡ key)
  matches_eq scope key x e = (
    (==_iff _ _).0 ((and-eq-true_iff _ _).0 e).0,
    (text_eq_iff _ _).0 ((and-eq-true_iff _ _).0 e).1,
  )

  -- A request claims a key only where no record has it.
  append-IsKept :
      (x : IdempotencyRecord B D) (table : List (IdempotencyRecord B D))
      → find_unique x.scope x.key table ≡ none
      → r.id < x.id
      → IsKept table
      → IsKept (table ++ x ∷ [])
  append-IsKept x table free new k = record {
    found = find-append-some (matches r.scope r.key) r table _ k.found;
    alone = All-append _ table _ k.alone (
      (λ m. absurd (clash (matches_eq r.scope r.key x m)), λ e. absurd (omega (arith, e, new))),
      tt,
    );
  }
    where
      clash : (x.scope ≡ r.scope) × (x.key ≡ r.key) → ⊥
      clash (s, t) = ground (arith, s, t, free, k.found)

  -- A record that neither expires nor goes stale by `now`.
  pub record LivesAt (now : ℕ) : Type 0 where
    pub unexpired : now < r.expires_at
    pub fresh : (is_some r.response_status ≡ true) ⊎ (now - r.created_at ≤ stale_lock_ms)

  -- Only a request for another key gets a claim, under its own new id.
  abbrev pub IsApart : KeyedRequest → ℕ → ClaimResult B D → Type 0
  IsApart req id (claimed id') = (id' ≡ id) × (matches req.scope req.key r ≡ false)
  IsApart req id _ = Unit

  -- What a claim leaves of a table that has `r`.
  pub record Passes (req : KeyedRequest) (id : ℕ)
      (c : List (IdempotencyRecord B D) × ClaimResult B D) : Type 0 where
    pub kept : IsKept c.0
    pub apart : IsApart req id c.1

  if-Passes :
      (req : KeyedRequest) (id : ℕ) (b : Bool)
      (c d : List (IdempotencyRecord B D) × ClaimResult B D)
      → (b ≡ true → Passes req id c)
      → (b ≡ false → Passes req id d)
      → Passes req id (if b then c else d)
  if-Passes req id true c d f g = f refl
  if-Passes req id false c d f g = g refl

  -- The record that a request finds is `r` where it has the id of `r`.
  found_id :
      (req : KeyedRequest) (existing : IdempotencyRecord B D) (table : List (IdempotencyRecord B D))
      → find_unique req.scope req.key table ≡ some existing
      → IsKept table
      → existing.id ≡ r.id
      → existing ≡ r
  found_id req existing table e k same =
      by_keys (matches_eq r.scope r.key existing ((All-find _ _ existing table k.alone e).1 same))
        (matches_eq req.scope req.key existing (find_sound _ existing table e))
    where
      by_keys :
          (existing.scope ≡ r.scope) × (existing.key ≡ r.key)
          → (existing.scope ≡ req.scope) × (existing.key ≡ req.key)
          → existing ≡ r
      by_keys (s, t) (s', t') = ground (arith, s, t, s', t', e, k.found)

  on_existing-Passes :
      (req : KeyedRequest) (id now : ℕ) (existing : IdempotencyRecord B D)
      (table : List (IdempotencyRecord B D))
      (retry : List (IdempotencyRecord B D) → List (IdempotencyRecord B D) × ClaimResult B D)
      → LivesAt now
      → find_unique req.scope req.key table ≡ some existing
      → IsKept table
      → ((t : List (IdempotencyRecord B D)) → IsKept t → Passes req id (retry t))
      → Passes req id (on_existing req.hash now existing table retry)
  unfolding on_existing delete_expired delete_unanswered
  on_existing-Passes req id now existing table retry lives e k again =
      if-Passes req id (leb existing.expires_at now) (retry (delete_expired existing.id now table))
        _
        (λ t. again _ (
          filter-IsKept (λ x. not (x.id == existing.id && leb x.expires_at now)) table
            (ground (arith, lives.unexpired)) k))
        (λ t.
          if-Passes req id (not (existing.request_hash == req.hash)) (table, reused) _
            (λ t'. record { kept = k; apart = tt }) (λ t'. by_status existing.response_status refl))
    where
      by_status :
          (o : Option ℕ)
          → existing.response_status ≡ o
          → Passes req id (elim o [
            | none ↦
                if ltb stale_lock_ms (now - existing.created_at)
                then retry (delete_unanswered existing.id table)
                else (table, in_flight)
            | some status ↦ (table, replay status existing.response_body)
          ])
      by_status (some status) eq = record { kept = k; apart = tt }
      by_status none eq =
          if-Passes req id (ltb stale_lock_ms (now - existing.created_at))
            (retry (delete_unanswered existing.id table)) (table, in_flight)
            (λ t. again _ (
              filter-IsKept (λ x. not (x.id == existing.id && not (is_some x.response_status)))
                table (ground (arith, lives.fresh, t, eq, found_id req existing table e k)) k))
            (λ t. record { kept = k; apart = tt })

  claim_in-Passes :
      (rounds : ℕ) (req : KeyedRequest) (id now : ℕ) (table : List (IdempotencyRecord B D))
      → LivesAt now
      → r.id < id
      → IsKept table
      → Passes req id (claim_in rounds req id now table)
  unfolding claim_in create
  claim_in-Passes zero req id now table lives new k = record { kept = k; apart = tt }
  claim_in-Passes (suc rounds) req id now table lives new k =
      by_search (find_unique req.scope req.key table) refl
        (λ t k'. claim_in-Passes rounds req id now t lives new k')
    where
      by_search :
          (o : Option (IdempotencyRecord B D))
          → find_unique req.scope req.key table ≡ o
          → ((t : List (IdempotencyRecord B D))
              → IsKept t
              → Passes req id (claim_in rounds req id now t))
          → Passes req id
              (elim (elim o as (λ x. Option (List (IdempotencyRecord B D))) [
                | none ↦ some (table ++ new_record req id now ∷ [])
                | some existing ↦ none
              ]) [
                | some table' ↦ (table', claimed id)
                | none ↦ elim o [
                  | none ↦ claim_in rounds req id now table
                  | some existing ↦
                      on_existing req.hash now existing table (λ t. claim_in rounds req id now t)
                ]
              ])
      by_search none e again = record {
        kept = append-IsKept (new_record req id now) table e new k;
        apart = (refl, ground (arith, k.found, e, clash));
      }
        where
          clash : matches req.scope req.key r ≡ true → ⊥
          clash m = by_keys (matches_eq req.scope req.key r m)
            where
              by_keys : (r.scope ≡ req.scope) × (r.key ≡ req.key) → ⊥
              by_keys (s, t) = ground (arith, s, t, e, k.found)
      by_search (some existing) e again =
          on_existing-Passes req id now existing table _ lives e k again

  -- The clean-up before a claim removes only what has expired.
  pub claim-Passes :
      (cleans : Bool) (req : KeyedRequest) (id now : ℕ) (table : List (IdempotencyRecord B D))
      → LivesAt now
      → r.id < id
      → IsKept table
      → Passes req id (claim cleans req id now table)
  unfolding claim clean_up
  claim-Passes false req id now table lives new k = claim_in-Passes 2 req id now table lives new k
  claim-Passes true req id now table lives new k = claim_in-Passes 2 req id now _ lives new (
      filter-IsKept (λ x. not (x.scope == req.scope && ltb x.expires_at now)) table
        (ground (arith, lives.unexpired)) k)

  pub delete-IsKept :
      (id : ℕ) (table : List (IdempotencyRecord B D))
      → id ≢ r.id
      → IsKept table
      → IsKept (delete_record id table)
  unfolding delete_record
  delete-IsKept id table other k =
      filter-IsKept (λ x. not (x.id == id)) table (ground (arith, other)) k

  -- The response of another record leaves `r` alone.
  pub store-IsKept :
      (id status : ℕ) (body : StoredBody B D) (table : List (IdempotencyRecord B D))
      → id ≢ r.id
      → IsKept table
      → IsKept (get_or_else (store_response id status body table) table)
  unfolding store_response
  store-IsKept id status body table other k =
      elim (any (λ x. x.id == id) table)
        as (λ b. IsKept (
          get_or_else (if b then some (map (answered_record id status body) table) else none)
            table)) [
              | true ↦ record {
                found =
                    find-map (matches r.scope r.key) (answered_record id status body) r table
                      (λ x. ground arith) k.found
                    ∙ ap some (ground (arith, other));
                alone =
                    All-map _ _ (answered_record id status body) table
                      (λ x h. ground (arith, h.0, h.1)) k.alone;
              }
              | false ↦ k
            ]
