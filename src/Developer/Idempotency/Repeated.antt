-- ===== src/Developer/Idempotency/Repeated.antt =====
-- What a request gets that repeats one whose handler has ended.
use conversa_forge.Prelude.{
  ℕ, ◌<◌, ◌≡◌, refl, sym, leb, ap, ◌∙◌, Bool, true, List, Option, none, some, arith,
}
use conversa_forge.Developer.Idempotency.{
  IdempotencyRecord, KeyedRequest, claim, replay, is_replayable, Details, undefined, null, given,
  stored_details, StoredBody, json_null, json_body, error_body, AppError, app_error, other_error,
  database_error,
}
use conversa_forge.Developer.Idempotency.Keeps.{IsKept}
use conversa_forge.Developer.Idempotency.Claims.{claim-answered}
use conversa_forge.Developer.Idempotency.Answer.{
  answer_of, answered, store_response-found, settle-IsAnswered,
}
use conversa_forge.Developer.Idempotency.Run.{
  ErrorFields, Outcome, returns, throws, Response, returned, replayed, failed, replay_response,
  settle, stored_body, on_failure,
}

-- Details that were left out come back as null.
abbrev null_for_undefined : {D : Type 0} → Details D → Details D
null_for_undefined undefined = null
null_for_undefined null = null
null_for_undefined (given d) = given d

module _ {R B D : Type 0} (json : R → B) (embedded : B → ErrorFields D) where
  -- A success with a status below 400, or an error of a status that is replayed.
  abbrev pub IsRepeatable : ℕ → Outcome R D → Type 0
  IsRepeatable success_status (returns result) = success_status < 400
  IsRepeatable success_status (throws (app_error e)) = is_replayable e.status ≡ true
  IsRepeatable success_status (throws other) = ⊥

  -- The response that repeats one: what its result is stored as, or the same error, with null for
  -- details that were left out.
  abbrev pub repeated : Response R B D → Response R B D
  repeated (returned result) = replayed (stored_body json embedded result)
  repeated (failed (app_error e)) =
      failed (app_error (record e { details = null_for_undefined e.details }))
  repeated response = response

  module _ (r : IdempotencyRecord B D) (table : List (IdempotencyRecord B D)) where
    abbrev response_of : Outcome R D → Response R B D
    response_of (returns result) = returned result
    response_of (throws e) = failed e

    settle_response :
        (success_status : ℕ) (o : Outcome R D)
        → IsKept r table
        → (settle json embedded r.id success_status o table).1 ≡ response_of o
    unfolding settle
    settle_response success_status (returns result) k =
        let body = stored_body json embedded result in
        ap
          (λ (t : Option (List (IdempotencyRecord B D))).
            (elim t as (λ x. List (IdempotencyRecord B D) × Response R B D) [
              | some table' ↦ (table', returned result)
              | none ↦ (on_failure json embedded r.id database_error table, failed database_error)
            ]).1)
          (store_response-found json embedded r success_status body table k)
    settle_response success_status (throws e) k = refl

    details_back :
        (d : Details D)
        → (elim (stored_details d) as (λ x. Details D) [ none ↦ null | some x ↦ given x ])
          ≡ null_for_undefined d
    details_back undefined = refl
    details_back null = refl
    details_back (given d) = refl

    replay_response-error :
        (e : AppError D)
        → is_replayable e.status ≡ true
        → replay_response json embedded e.status
            (error_body e.code e.message (stored_details e.details))
          ≡ failed (app_error (record e { details = null_for_undefined e.details }))
    unfolding replay_response
    replay_response-error e h =
        let is_error : leb 400 e.status ≡ true = ground (arith, h) in
        rw is_error
          (ap (λ d. failed (app_error (record e { details = d }))) (details_back e.details))

    -- What an outcome that can be repeated leaves, and its replay.
    stored_answer :
        (success_status : ℕ) (o : Outcome R D)
        → IsRepeatable success_status o
        → (status : ℕ) × (body : StoredBody B D) × (answer_of json embedded success_status o
            ≡ some (status, body))
          × (replay_response json embedded status body ≡ repeated (response_of o))
    unfolding replay_response
    stored_answer success_status (returns none) h =
        (success_status, json_null, refl, ground (arith, h))
    stored_answer success_status (returns (some result)) h =
        (success_status, json_body (json result), refl, ground (arith, h))
    stored_answer success_status (throws (app_error e)) h = (
      e.status,
      error_body e.code e.message (stored_details e.details),
      ground (arith, h),
      replay_response-error e h,
    )
    stored_answer success_status (throws (other_error e)) h = absurd h
    stored_answer success_status (throws database_error) h = absurd h

    -- Where the table has a record whose handler ends with a success of a status below 400 or
    -- an error of a replayed status, a request with the key and the hash of the record that comes before
    -- it expires is answered with a replay, and the replay is the response that the end of the
    -- handler gave: the stored form of its result, or the same error, with null for details that
    -- were left out.
    pub replay_settled :
        (success_status : ℕ) (o : Outcome R D) (cleans : Bool) (req : KeyedRequest) (id now : ℕ)
        → IsKept r table
        → IsRepeatable success_status o
        → req.scope ≡ r.scope
        → req.key ≡ r.key
        → req.hash ≡ r.request_hash
        → now < r.expires_at
        → let (table', response) = settle json embedded r.id success_status o table in
          (status : ℕ) × (body : StoredBody B D) × ((claim cleans req id now table').1
            ≡ replay status body)
          × (replay_response json embedded status body ≡ repeated response)
    replay_settled success_status o cleans req id now k h s t same live =
        let (status, body, e, back) = stored_answer success_status o h in
        let kept = settle-IsAnswered json embedded r success_status o status body table e k in
        let gives =
          claim-answered (answered json embedded r status body) status cleans req id now _ kept s t
            live refl in
        (
          status,
          body,
          gives ∙ ground (arith, same),
          back ∙ ap repeated (sym (settle_response success_status o k)),
        )
