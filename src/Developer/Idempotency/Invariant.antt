-- ===== src/Developer/Idempotency/Invariant.antt =====
-- What every run of events keeps of the table: one record for a key and one for an id.
use conversa_forge.Prelude.{
  ℕ, zero, suc, ◌<◌, ◌≡◌, refl, ◌==◌, not, Bool, true, false, List, [], ◌∷◌, ◌++◌, filter, map, any,
  All, Option, none, some, get_or_else, arith, none-All, All-filter, All-append, All-both, All-map,
  All-imp, if◌then◌else◌,
}
use conversa_forge.Developer.Idempotency.{
  IdempotencyRecord, stored_details, KeyedRequest, ClaimResult, claimed, find_unique, new_record,
  create, clean_up, on_existing, claim_in, claim, StoredBody, replay, reused, in_flight,
  delete_record, answered_record, store_response, Failure, app_error, other_error, database_error,
  is_replayable, error_body,
}
use conversa_forge.Developer.Idempotency.Claims.{on_existing-cases}
use conversa_forge.Developer.Idempotency.Unique.{
  HasUniqueKeys, filter-HasUniqueKeys, append-HasUniqueKeys, map-HasUniqueKeys,
}
use conversa_forge.Developer.Idempotency.Run.{
  ErrorFields, Outcome, returns, throws, Response, returned, failed, Server, Event, arrives,
  finishes, after_claim, settle, on_failure, stored_body, play, play_all,
}

module _ {B D : Type 0} where
  -- The keys and ids are unique, and the ids below a bound.
  pub record IsSound (bound : ℕ) (table : List (IdempotencyRecord B D)) : Type 0 where
    pub unique : HasUniqueKeys table
    pub below : All (λ x. x.id < bound) table

  filter-IsSound :
      (bound : ℕ) (p : IdempotencyRecord B D → Bool) (table : List (IdempotencyRecord B D))
      → IsSound bound table
      → IsSound bound (filter p table)
  filter-IsSound bound p table h = record {
    unique = filter-HasUniqueKeys p table h.unique;
    below = All-filter _ p table h.below;
  }

  weaken :
      (bound : ℕ) (table : List (IdempotencyRecord B D))
      → IsSound bound table
      → IsSound (suc bound) table
  weaken bound table h = record {
    unique = h.unique;
    below = All-imp _ _ table (λ x k. omega (arith, k)) h.below;
  }

  claim_in-IsSound :
      (rounds : ℕ) (req : KeyedRequest) (id now : ℕ) (table : List (IdempotencyRecord B D))
      → IsSound id table
      → IsSound (suc id) (claim_in rounds req id now table).0
  unfolding claim_in create
  claim_in-IsSound zero req id now table h = weaken id table h
  claim_in-IsSound (suc rounds) req id now table h =
      by_search (find_unique req.scope req.key table) refl
        (λ t h'. claim_in-IsSound rounds req id now t h')
    where
      by_search :
          (o : Option (IdempotencyRecord B D))
          → find_unique req.scope req.key table ≡ o
          → ((t : List (IdempotencyRecord B D))
              → IsSound id t
              → IsSound (suc id) (claim_in rounds req id now t).0)
          → IsSound
              (suc id)
              (elim (elim o as (λ x. Option (List (IdempotencyRecord B D))) [
                | none ↦ some (table ++ new_record req id now ∷ [])
                | some existing ↦ none
              ])
                as (λ x. List (IdempotencyRecord B D) × ClaimResult B D) [
                  | some table' ↦ (table', claimed id)
                  | none ↦ elim o [
                    | none ↦ claim_in rounds req id now table
                    | some existing ↦
                        on_existing req.hash now existing table (λ t. claim_in rounds req id now t)
                  ]
                ]).0
      by_search none e again = record {
        unique =
            append-HasUniqueKeys (new_record req id now) table
              (All-both _ _ table h.below (none-All _ table e)) h.unique;
        below = All-append _ table _ (weaken id table h).below (omega arith, tt);
      }
      by_search (some existing) e again =
          on_existing-cases (λ c. IsSound (suc id) c.0) req.hash now existing table
            (λ t. claim_in rounds req id now t)
            (λ p. again (filter p table) (filter-IsSound id p table h)) (weaken id table h)
            (weaken id table h) (λ status body. weaken id table h)

  claim-IsSound :
      (cleans : Bool) (req : KeyedRequest) (id now : ℕ) (table : List (IdempotencyRecord B D))
      → IsSound id table
      → IsSound (suc id) (claim cleans req id now table).0
  unfolding claim clean_up
  claim-IsSound false req id now table h = claim_in-IsSound 2 req id now table h
  claim-IsSound true req id now table h =
      claim_in-IsSound 2 req id now _ (filter-IsSound id _ table h)

  store-IsSound :
      (bound id status : ℕ) (body : StoredBody B D) (table : List (IdempotencyRecord B D))
      → IsSound bound table
      → IsSound bound (get_or_else (store_response id status body table) table)
  unfolding store_response
  store-IsSound bound id status body table h =
      elim (any (λ x. x.id == id) table)
        as (λ b. IsSound bound (
          get_or_else (if b then some (map (answered_record id status body) table) else none)
            table)) [
              | false ↦ h
              | true ↦ record {
                unique = map-HasUniqueKeys id status body table h.unique;
                below =
                    All-map _ _ (answered_record id status body) table (λ x k. ground (arith, k))
                      h.below;
              }
            ]

module _ {R B D : Type 0} (json : R → B) (embedded : B → ErrorFields D) where
  failure-IsSound :
      (bound id : ℕ) (e : Failure D) (table : List (IdempotencyRecord B D))
      → IsSound bound table
      → IsSound bound (on_failure json embedded id e table)
  unfolding on_failure delete_record
  failure-IsSound bound id database_error table h =
      filter-IsSound bound (λ x. not (x.id == id)) table h
  failure-IsSound bound id (other_error e) table h =
      filter-IsSound bound (λ x. not (x.id == id)) table h
  failure-IsSound bound id (app_error e) table h =
      elim (is_replayable e.status)
        as (λ b. IsSound bound (
          if b
          then get_or_else
              (store_response id e.status (error_body e.code e.message (stored_details e.details))
                table)
              table
          else delete_record id table)) [
            | true ↦
                store-IsSound bound id e.status
                  (error_body e.code e.message (stored_details e.details)) table h
            | false ↦ filter-IsSound bound (λ x. not (x.id == id)) table h
          ]

  settle-IsSound :
      (bound id success_status : ℕ) (o : Outcome R D) (table : List (IdempotencyRecord B D))
      → IsSound bound table
      → IsSound bound (settle json embedded id success_status o table).0
  unfolding settle
  settle-IsSound bound id success_status (throws e) table h = failure-IsSound bound id e table h
  settle-IsSound bound id success_status (returns result) table h =
      by_stored (store_response id success_status (stored_body json embedded result) table)
        (store-IsSound bound id success_status (stored_body json embedded result) table h)
    where
      by_stored :
          (o : Option (List (IdempotencyRecord B D)))
          → IsSound bound (get_or_else o table)
          → IsSound bound
              (elim o as (λ x. List (IdempotencyRecord B D) × Response R B D) [
                | some table' ↦ (table', returned result)
                | none ↦ (on_failure json embedded id database_error table, failed database_error)
              ]).0
      by_stored (some table') k = k
      by_stored none k = failure-IsSound bound id database_error table h

  play-IsSound :
      (e : Event json embedded) (s : Server json embedded)
      → IsSound s.next_id s.table
      → IsSound (play json embedded e s).next_id (play json embedded e s).table
  unfolding play
  play-IsSound (finishes id success_status o) s h =
      elim (any (λ i. i == id) s.running)
        as (λ b.
          let s' =
            if b
            then record s {
              table = (settle json embedded id success_status o s.table).0;
              running = filter (λ i. not (i == id)) s.running;
            }
            else s in
          IsSound s'.next_id s'.table) [
            | true ↦ settle-IsSound s.next_id id success_status o s.table h
            | false ↦ h
          ]
  play-IsSound (arrives now cleans req) s h =
      by_claim (claim cleans req s.next_id now s.table)
        (claim-IsSound cleans req s.next_id now s.table h)
    where
      by_claim :
          (c : List (IdempotencyRecord B D) × ClaimResult B D)
          → IsSound (suc s.next_id) c.0
          → IsSound
              (after_claim json embedded req c s).next_id
              (after_claim json embedded req c s).table
      by_claim (t, claimed id) k = k
      by_claim (t, replay status body) k = k
      by_claim (t, reused) k = k
      by_claim (t, in_flight) k = k

  -- Whatever requests and ends of handlers follow each other, a table with one record for a key
  -- and one for an id, whose ids are below the next, stays such a table.
  pub play_all-IsSound :
      (es : List (Event json embedded)) (s : Server json embedded)
      → IsSound s.next_id s.table
      → IsSound (play_all json embedded es s).next_id (play_all json embedded es s).table
  unfolding play_all
  play_all-IsSound [] s h = h
  play_all-IsSound (e ∷ es) s h = play_all-IsSound es (play json embedded e s) (play-IsSound e s h)
