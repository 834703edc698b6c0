-- ===== src/Developer/Tests.antt =====
-- Two workspaces' requests under idempotency keys; a handler's results are numbers.
use conversa_forge.Prelude.{
  ℕ, ◌+◌, ◌<◌, ◌≡◌, refl, ◌==◌, Bool, true, false, List, [], ◌∷◌, none, some, arith, if◌then◌else◌,
}
use conversa_forge.Developer.Idempotency.{
  KeyedRequest, claim, claimed, replay, reused, json_body, AppError, app_error, undefined,
  StoredBody, IdempotencyRecord, new_record, other_error, ttl_ms, find_unique,
}
use conversa_forge.Developer.Idempotency.Keeps.{IsKept}
use conversa_forge.Developer.Idempotency.Repeated.{repeated, replay_settled}
use conversa_forge.Developer.Idempotency.Contract.{expected, slot_of, claim_lem}
use conversa_forge.Developer.Idempotency.Invariant.{IsSound, play_all-IsSound}
use conversa_forge.Developer.Idempotency.Once.{worked_on, exactly_once}
use conversa_forge.Developer.Idempotency.Release.{released}
use conversa_forge.Developer.Idempotency.Replay.{starts_of}
use conversa_forge.Developer.Idempotency.Run.{
  ErrorFields, returns, throws, Server, Event, arrives, finishes, play, play_all, replay_response,
  settle,
}

abbrev same : ℕ → ℕ
same n = n

abbrev no_fields : ℕ → ErrorFields ℕ
no_fields n = record { code = none; message = none; details = undefined }

abbrev req : ℕ → ℕ → KeyedRequest
req key hash = record { scope = 1; key = key ∷ []; method = 80 ∷ []; url = 47 ∷ []; hash = hash }

abbrev empty : Server same no_fields
empty = record { table = []; running = []; started = []; next_id = 0 }

abbrev meanwhile : List (Event same no_fields)
meanwhile = arrives 2000 false (req 97 7) ∷ arrives 3000 true (req 98 7) ∷ []

abbrev later : List (Event same no_fields)
later =
    arrives 9000 true (req 97 7)
    ∷ finishes 1 201 (returns (some 4))
    ∷ arrives 9500 false (req 97 8)
    ∷ []

abbrev not_found : AppError ℕ
not_found = record { status = 404; code = 110 ∷ []; message = 109 ∷ []; details = undefined }

exactly_once_example :
    let s' =
      worked_on same no_fields (req 97 7) 1000 false meanwhile 201 (returns (some 5)) later empty in
    (starts_of same no_fields 1 (97 ∷ []) s' ≡ (1, 97 ∷ []) ∷ [])
    × ((req' : KeyedRequest) (now' : ℕ) (cleans' : Bool)
        → req'.scope ≡ 1
        → req'.key ≡ 97 ∷ []
        → now' < 1000 + ttl_ms
        → (claim cleans' req' s'.next_id now' s'.table).1
          ≡ (if 7 == req'.hash then replay 201 (json_body 5) else reused))
unfolding claim
exactly_once_example =
    exactly_once same no_fields (req 97 7) 1000 false meanwhile 201 (returns (some 5)) 201
      (json_body 5) later empty tt refl (omega arith, (omega arith, tt)) refl
      (omega arith, (tt, (omega arith, tt)))

released_example :
    let s' = play same no_fields (finishes 0 201 (throws (other_error 3))) (
      play_all same no_fields meanwhile
        (play same no_fields (arrives 1000 false (req 97 7)) empty)) in
    (claim true (req 97 8) s'.next_id 5000 s'.table).1 ≡ claimed s'.next_id
unfolding claim
released_example =
    released same no_fields (req 97 7) 1000 false meanwhile 201 (throws (other_error 3)) empty
      (req 97 8) 5000 true tt refl (omega arith, (omega arith, tt)) refl refl refl

abbrev after_two : Server same no_fields
after_two = play_all same no_fields meanwhile empty

after_two-IsSound : IsSound after_two.next_id after_two.table
after_two-IsSound =
    play_all-IsSound same no_fields meanwhile empty (record { unique = tt; below = tt })

claim_lem_example :
    (claim true (req 97 7) 5 400000 after_two.table).1
    ≡ expected 7 5 (slot_of 400000 (find_unique 1 (97 ∷ []) after_two.table))
claim_lem_example = claim_lem true (req 97 7) 5 400000 after_two.table after_two-IsSound.unique

abbrev claimed_record : IdempotencyRecord ℕ ℕ
claimed_record = new_record (req 97 7) 3 1000

claimed_record-IsKept : IsKept claimed_record (claimed_record ∷ [])
claimed_record-IsKept = record { found = refl; alone = ((λ _. refl, λ _. refl), tt) }

-- The handler ends with an error without details, and the request comes again at 5000.
replay_settled_example :
    let (table', response) =
      settle same no_fields 3 201 (throws (app_error not_found)) (claimed_record ∷ []) in
    (status : ℕ) × (body : StoredBody ℕ ℕ) × ((claim true (req 97 7) 4 5000 table').1
      ≡ replay status body)
    × (replay_response same no_fields status body ≡ repeated same no_fields response)
unfolding claim settle
replay_settled_example =
    replay_settled same no_fields claimed_record (claimed_record ∷ []) 201
      (throws (app_error not_found)) true (req 97 7) 4 5000 claimed_record-IsKept refl refl refl
      refl (omega arith)
