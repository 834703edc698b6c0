-- ===== src/Developer/Idempotency.antt =====
-- The idempotency keys of backend/src/modules/developer/v1/idempotency.interceptor.ts.
-- A table of records stands for the database, with its unique index on scope and key. `B` are the
-- stored results of handlers and `D` the details of errors. The hash of a request is a number.
pub mod Keeps
pub mod Claims
pub mod Once
pub mod Answer
pub mod Unique
pub mod Contract
pub mod Invariant
pub mod Release
pub mod Replay
pub mod Route
pub mod Repeated
pub mod Run
use conversa_forge.Prelude.{
  ℕ, zero, suc, ◌+◌, ◌-◌, ◌*◌, ltb, leb, ◌==◌, ◌&&◌, ◌||◌, not, Bool, true, false, List, [], ◌∷◌,
  ◌++◌, map, filter, find, any, all, Option, none, some, is_some, is_empty, get_or_else, Text, text,
  text_eq, take, length, if◌then◌else◌,
}

abbrev pub ttl_ms : ℕ
ttl_ms = 24 * 3600000

abbrev pub stale_lock_ms : ℕ
stale_lock_ms = 5 * 60000

-- `REPLAYABLE_ERROR_STATUSES.has`
abbrev pub is_replayable : ℕ → Bool
is_replayable status = any (λ s. s == status) (400 ∷ 403 ∷ 404 ∷ 410 ∷ 422 ∷ [])

-- The `details` of an error, which a caller may leave out.
pub data Details (D : Type 0) : Type 0 where
  undefined null : Details D
  given : D → Details D

-- `details ?? null`, as it is stored: nothing for `null`.
abbrev pub stored_details : {D : Type 0} → Details D → Option D
stored_details undefined = none
stored_details null = none
stored_details (given d) = some d

pub record AppError (D : Type 0) : Type 0 where
  pub status : ℕ
  pub code : Text
  pub message : Text
  pub details : Details D

pub data Failure (D : Type 0) : Type 0 where
  app_error : AppError D → Failure D
  other_error : ℕ → Failure D
  database_error : Failure D

pub data StoredBody (B D : Type 0) : Type 0 where
  json_null : StoredBody B D
  json_body : B → StoredBody B D
  error_body : (code message : Text) (details : Option D) → StoredBody B D

pub record IdempotencyRecord (B D : Type 0) : Type 0 where
  pub id : ℕ
  pub scope : ℕ
  pub key : Text
  pub method : Text
  pub path : Text
  pub request_hash : ℕ
  pub created_at : ℕ
  pub expires_at : ℕ
  pub response_status : Option ℕ
  pub response_body : StoredBody B D

-- A request that carries a key.
pub record KeyedRequest : Type 0 where
  pub scope : ℕ
  pub key : Text
  pub method : Text
  pub url : Text
  pub hash : ℕ

pub data ClaimResult (B D : Type 0) : Type 0 where
  claimed : (id : ℕ) → ClaimResult B D
  replay : (status : ℕ) (body : StoredBody B D) → ClaimResult B D
  reused in_flight : ClaimResult B D

module _ {B D : Type 0} where
  abbrev pub matches : ℕ → Text → IdempotencyRecord B D → Bool
  matches scope key r = r.scope == scope && text_eq r.key key

  -- `findUnique` by scope and key
  abbrev pub find_unique : ℕ → Text → List (IdempotencyRecord B D) → Option (IdempotencyRecord B D)
  find_unique scope key table = find (matches scope key) table

  abbrev pub new_record : KeyedRequest → (id now : ℕ) → IdempotencyRecord B D
  new_record req id now = record {
    id = id;
    scope = req.scope;
    key = req.key;
    method = req.method;
    path = take 1000 req.url;
    request_hash = req.hash;
    created_at = now;
    expires_at = now + ttl_ms;
    response_status = none;
    response_body = json_null;
  }

  -- `create`: nothing where the unique index has the scope and key already.
  unfoldable pub create :
      IdempotencyRecord B D → List (IdempotencyRecord B D) → Option (List (IdempotencyRecord B D))
  create r table = elim (find_unique r.scope r.key table) [
    | none ↦ some (table ++ r ∷ [])
    | some existing ↦ none
  ]

  -- The opportunistic clean-up of expired records of the workspace.
  unfoldable pub clean_up :
      (scope now : ℕ) → List (IdempotencyRecord B D) → List (IdempotencyRecord B D)
  clean_up scope now table = filter (λ r. not (r.scope == scope && ltb r.expires_at now)) table

  unfoldable pub delete_expired :
      (id now : ℕ) → List (IdempotencyRecord B D) → List (IdempotencyRecord B D)
  delete_expired id now table = filter (λ r. not (r.id == id && leb r.expires_at now)) table

  unfoldable pub delete_unanswered :
      (id : ℕ) → List (IdempotencyRecord B D) → List (IdempotencyRecord B D)
  delete_unanswered id table =
      filter (λ r. not (r.id == id && not (is_some r.response_status))) table

  unfoldable pub delete_record :
      (id : ℕ) → List (IdempotencyRecord B D) → List (IdempotencyRecord B D)
  delete_record id table = filter (λ r. not (r.id == id)) table

  -- The body of the loop of `claim` for a record that is there; `retry` is the next round.
  unfoldable pub on_existing :
      (hash now : ℕ)
      → IdempotencyRecord B D
      → List (IdempotencyRecord B D)
      → (List (IdempotencyRecord B D) → List (IdempotencyRecord B D) × ClaimResult B D)
      → List (IdempotencyRecord B D) × ClaimResult B D
  unfolding delete_expired delete_unanswered
  on_existing hash now existing table retry =
      if leb existing.expires_at now
      then retry (delete_expired existing.id now table)
      else if not (existing.request_hash == hash)
      then (table, reused)
      else elim existing.response_status [
        | none ↦
            if ltb stale_lock_ms (now - existing.created_at)
            then retry (delete_unanswered existing.id table)
            else (table, in_flight)
        | some status ↦ (table, replay status existing.response_body)
      ]

  -- The loop of `claim` with `rounds` rounds left.
  unfoldable pub claim_in :
      (rounds : ℕ)
      → KeyedRequest
      → (id now : ℕ) → List (IdempotencyRecord B D)
      → List (IdempotencyRecord B D) × ClaimResult B D
  unfolding create on_existing
  claim_in zero req id now table = (table, in_flight)
  claim_in (suc rounds) req id now table = elim (create (new_record req id now) table) [
    | some table' ↦ (table', claimed id)
    | none ↦ elim (find_unique req.scope req.key table) [
      | none ↦ claim_in rounds req id now table
      | some existing ↦ on_existing req.hash now existing table (λ t. claim_in rounds req id now t)
    ]
  ]

  -- `claim`; `cleans` says whether the random number calls for a clean-up.
  unfoldable pub claim :
      (cleans : Bool)
      → KeyedRequest
      → (id now : ℕ) → List (IdempotencyRecord B D)
      → List (IdempotencyRecord B D) × ClaimResult B D
  unfolding claim_in clean_up
  claim cleans req id now table =
      claim_in 2 req id now (if cleans then clean_up req.scope now table else table)

  abbrev pub answered_record :
      ℕ → ℕ → StoredBody B D → IdempotencyRecord B D → IdempotencyRecord B D
  answered_record id status body r =
      if r.id == id then record r { response_status = some status; response_body = body } else r

  -- `update` of the response: nothing where no record has the id.
  unfoldable pub store_response :
      ℕ → ℕ → StoredBody B D → List (IdempotencyRecord B D) → Option (List (IdempotencyRecord B D))
  store_response id status body table =
      if any (λ r. r.id == id) table
      then some (map (answered_record id status body) table)
      else none
