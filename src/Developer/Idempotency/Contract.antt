-- ===== src/Developer/Idempotency/Contract.antt =====
-- The contract of a claim, on what a key looks like at one instant.
use conversa_forge.Prelude.{
  ℕ, suc, ◌-◌, ◌≡◌, refl, ap, ◌∙◌, leb, ltb, ◌==◌, not, ◌&&◌, Bool, true, false, List, [], ◌∷◌,
  filter, Option, none, some, is_some, arith, find-filter, find-none, none-All, All-filter, All-imp,
  if◌then◌else◌,
}
use conversa_forge.Developer.Idempotency.{
  IdempotencyRecord, KeyedRequest, ClaimResult, claimed, matches, find_unique, create, clean_up,
  delete_expired, delete_unanswered, on_existing, claim_in, claim, stale_lock_ms, StoredBody,
  replay, reused, in_flight,
}
use conversa_forge.Developer.Idempotency.Keeps.{matches_eq}
use conversa_forge.Developer.Idempotency.Unique.{HasUniqueKeys, filter-HasUniqueKeys}

-- What a key is at one instant: free, of a handler that runs or was abandoned, or answered.
pub data Slot (B D : Type 0) : Type 0 where
  free : Slot B D
  working : (hash : ℕ) → Slot B D
  abandoned : (hash : ℕ) → Slot B D
  answered : (hash status : ℕ) (body : StoredBody B D) → Slot B D

module _ {B D : Type 0} where
  abbrev pub unanswered_slot : (stale : Bool) → (hash : ℕ) → Slot B D
  unanswered_slot true hash = abandoned hash
  unanswered_slot false hash = working hash

  abbrev pub live_slot : (now : ℕ) → IdempotencyRecord B D → Slot B D
  live_slot now r = elim r.response_status [
    | none ↦ unanswered_slot (ltb stale_lock_ms (now - r.created_at)) r.request_hash
    | some status ↦ answered r.request_hash status r.response_body
  ]

  abbrev pub slot_of : (now : ℕ) → Option (IdempotencyRecord B D) → Slot B D
  slot_of now none = free
  slot_of now (some r) = if leb r.expires_at now then free else live_slot now r

  -- A request takes over a key that is free or abandoned by the same request.
  abbrev pub expected : (hash id : ℕ) → Slot B D → ClaimResult B D
  expected hash id free = claimed id
  expected hash id (working h) = if h == hash then in_flight else reused
  expected hash id (abandoned h) = if h == hash then claimed id else reused
  expected hash id (answered h status body) = if h == hash then replay status body else reused

  pub claim_in-free :
      (rounds : ℕ) (req : KeyedRequest) (id now : ℕ) (table : List (IdempotencyRecord B D))
      → find_unique req.scope req.key table ≡ none
      → (claim_in (suc rounds) req id now table).1 ≡ claimed id
  unfolding claim_in create
  claim_in-free rounds req id now table e = ground (arith, e)

  -- The record that is deleted was the only one of its key.
  gone_after :
      (r : IdempotencyRecord B D) (p : IdempotencyRecord B D → Bool) (req : KeyedRequest)
      (table : List (IdempotencyRecord B D))
      → HasUniqueKeys table
      → find_unique req.scope req.key table ≡ some r
      → p r ≡ false
      → find_unique req.scope req.key (filter p table) ≡ none
  gone_after r p req [] unique e k = refl
  gone_after r p req (x ∷ table) unique e k =
      by_test (matches req.scope req.key x) refl (gone_after r p req table unique.1)
    where
      others :
          (x.scope ≡ req.scope) × (x.key ≡ req.key)
          → find_unique req.scope req.key (filter p table) ≡ none
      others (s, t) =
          find-none (matches req.scope req.key) (filter p table)
            (All-filter _ p table (All-imp _ _ table (λ y h. ground (arith, h.1, s, t)) unique.0))

      by_test :
          (b : Bool)
          → matches req.scope req.key x ≡ b
          → (find_unique req.scope req.key table ≡ some r
              → p r ≡ false
              → find_unique req.scope req.key (filter p table) ≡ none)
          → find_unique req.scope req.key (filter p (x ∷ table)) ≡ none
      by_test true t later = ground (arith, others (matches_eq r req.scope req.key x t), t, e, k)
      by_test false t later = ground (arith, later, t, e, k)

  claim_in-found :
      (rounds : ℕ) (r : IdempotencyRecord B D) (req : KeyedRequest) (id now : ℕ)
      (table : List (IdempotencyRecord B D))
      → find_unique req.scope req.key table ≡ some r
      → claim_in (suc rounds) req id now table
        ≡ on_existing req.hash now r table (λ t. claim_in rounds req id now t)
  unfolding claim_in create
  claim_in-found rounds r req id now table e = ground (arith, e)

  on_existing_lem :
      (r : IdempotencyRecord B D) (hash id now : ℕ) (table : List (IdempotencyRecord B D))
      (retry : List (IdempotencyRecord B D) → List (IdempotencyRecord B D) × ClaimResult B D)
      → ((p : IdempotencyRecord B D → Bool) → p r ≡ false → (retry (filter p table)).1 ≡ claimed id)
      → (on_existing hash now r table retry).1 ≡ expected hash id (slot_of now (some r))
  unfolding on_existing delete_expired delete_unanswered
  on_existing_lem r hash id now table retry again = ground (
    arith,
    again (λ x. not (x.id == r.id && leb x.expires_at now)),
    again (λ x. not (x.id == r.id && not (is_some x.response_status))),
  )

  claim_in_lem :
      (req : KeyedRequest) (id now : ℕ) (table : List (IdempotencyRecord B D))
      → HasUniqueKeys table
      → (claim_in 2 req id now table).1
        ≡ expected req.hash id (slot_of now (find_unique req.scope req.key table))
  claim_in_lem req id now table unique = by_search (find_unique req.scope req.key table) refl
    where
      by_search :
          (o : Option (IdempotencyRecord B D))
          → find_unique req.scope req.key table ≡ o
          → (claim_in 2 req id now table).1 ≡ expected req.hash id (slot_of now o)
      by_search none e = claim_in-free 1 req id now table e
      by_search (some r) e =
          ap (λ c. c.1) (claim_in-found 1 r req id now table e)
          ∙ on_existing_lem r req.hash id now table _ (λ p k.
            claim_in-free 0 req id now (filter p table) (gone_after r p req table unique e k))

  -- A clean-up changes no slot: what it removes had expired.
  clean_up-slot :
      (req : KeyedRequest) (now : ℕ) (table : List (IdempotencyRecord B D))
      → HasUniqueKeys table
      → slot_of now (find_unique req.scope req.key (clean_up req.scope now table))
        ≡ slot_of now (find_unique req.scope req.key table)
  unfolding clean_up
  clean_up-slot req now table unique = by_search (find_unique req.scope req.key table) refl
    where
      stays : IdempotencyRecord B D → Bool
      stays x = not (x.scope == req.scope && ltb x.expires_at now)

      by_search :
          (o : Option (IdempotencyRecord B D))
          → find_unique req.scope req.key table ≡ o
          → slot_of now (find_unique req.scope req.key (filter stays table)) ≡ slot_of now o
      by_search none e =
          ap (slot_of now)
            (find-none _ (filter stays table) (All-filter _ stays table (none-All _ table e)))
      by_search (some r) e = by_test (stays r) refl
        where
          by_test :
              (b : Bool)
              → stays r ≡ b
              → slot_of now (find_unique req.scope req.key (filter stays table))
                ≡ slot_of now (some r)
          by_test true k =
              ap (slot_of now) (find-filter (matches req.scope req.key) stays r table e k)
          by_test false k =
              ap (slot_of now) (gone_after r stays req table unique e k) ∙ ground (arith, k)

  -- On a table without two records of one key or id, a claim answers what the slot of the key
  -- calls for: it takes a key that is free, or abandoned by the same request, replays an answer to
  -- the same request, and refuses it while another one works on it; another request is refused.
  pub claim_lem :
      (cleans : Bool) (req : KeyedRequest) (id now : ℕ) (table : List (IdempotencyRecord B D))
      → HasUniqueKeys table
      → (claim cleans req id now table).1
        ≡ expected req.hash id (slot_of now (find_unique req.scope req.key table))
  unfolding claim clean_up
  claim_lem false req id now table unique = claim_in_lem req id now table unique
  claim_lem true req id now table unique =
      claim_in_lem req id now (clean_up req.scope now table) (filter-HasUniqueKeys _ table unique)
      ∙ ap (expected req.hash id) (clean_up-slot req now table unique)
