-- ===== src/Developer/Idempotency/Replay.antt =====
-- A request whose response is stored is not run again under its key before the key expires.
use conversa_forge.Prelude.{
  ℕ, ◌<◌, ◌≡◌, ◌≢◌, refl, ◌==◌, not, ◌&&◌, Bool, true, false, List, [], ◌∷◌, filter, any, Option,
  none, some, get_or_else, Text, text_eq, text_eq_sym, arith, if◌then◌else◌,
}
use conversa_forge.Developer.Idempotency.{
  IdempotencyRecord, stored_details, KeyedRequest, ClaimResult, claimed, replay, reused, in_flight,
  error_body, app_error, other_error, database_error, delete_record, store_response, is_replayable,
}
use conversa_forge.Developer.Idempotency.Keeps.{
  IsKept, LivesAt, Passes, claim-Passes, delete-IsKept, store-IsKept,
}
use conversa_forge.Developer.Idempotency.Run.{
  ErrorFields, Outcome, returns, throws, Response, returned, failed, Server, Event, arrives,
  finishes, after_claim, settle, on_failure, stored_body, play,
}

module _ {R B D : Type 0} (json : R → B) (embedded : B → ErrorFields D) where
  -- The handlers that were started under a key.
  abbrev pub starts_of : ℕ → Text → Server json embedded → List (ℕ × Text)
  starts_of scope key s = filter (λ p. p.0 == scope && text_eq p.1 key) s.started

  abbrev pub is_running : ℕ → Server json embedded → Bool
  is_running id s = any (λ i. i == id) s.running

  module _ (r : IdempotencyRecord B D) where
    -- The event comes while `r` lives, or is the end of another handler than that of `r`.
    abbrev pub Spares : Event json embedded → Type 0
    Spares (arrives now cleans req) = LivesAt r now
    Spares (finishes id success_status o) = id ≢ r.id

    -- What holds after an event that leaves `r` alone.
    pub record Stays (s s' : Server json embedded) : Type 0 where
      pub kept : IsKept r s'.table
      pub old : r.id < s'.next_id
      pub same_starts : starts_of r.scope r.key s' ≡ starts_of r.scope r.key s
      pub same_running : is_running r.id s' ≡ is_running r.id s

    after_claim-Stays :
        (req : KeyedRequest) (s : Server json embedded)
        (c : List (IdempotencyRecord B D) × ClaimResult B D)
        → r.id < s.next_id
        → Passes r req s.next_id c
        → Stays s (after_claim json embedded req c s)
    after_claim-Stays req s (t, claimed id) old p = record {
      kept = p.kept;
      old = omega (arith, old);
      same_starts = ground (arith, p.apart.1, text_eq_sym req.key r.key);
      same_running = ground (arith, p.apart.0, old);
    }
    after_claim-Stays req s (t, replay status body) old p = record {
      kept = p.kept;
      old = omega (arith, old);
      same_starts = refl;
      same_running = refl;
    }
    after_claim-Stays req s (t, reused) old p = record {
      kept = p.kept;
      old = omega (arith, old);
      same_starts = refl;
      same_running = refl;
    }
    after_claim-Stays req s (t, in_flight) old p = record {
      kept = p.kept;
      old = omega (arith, old);
      same_starts = refl;
      same_running = refl;
    }

    settle-IsKept :
        (id success_status : ℕ) (o : Outcome R D) (table : List (IdempotencyRecord B D))
        → id ≢ r.id
        → IsKept r table
        → IsKept r (settle json embedded id success_status o table).0
    unfolding settle on_failure
    settle-IsKept id success_status (returns result) table other k =
        by_stored (store_response id success_status (stored_body json embedded result) table)
          (store-IsKept r id success_status (stored_body json embedded result) table other k)
      where
        by_stored :
            (o : Option (List (IdempotencyRecord B D)))
            → IsKept r (get_or_else o table)
            → IsKept r
                (elim o as (λ x. List (IdempotencyRecord B D) × Response R B D) [
                  | some table' ↦ (table', returned result)
                  | none ↦ (delete_record id table, failed database_error)
                ]).0
        by_stored none h = delete-IsKept r id table other k
        by_stored (some table') h = h
    settle-IsKept id success_status (throws database_error) table other k =
        delete-IsKept r id table other k
    settle-IsKept id success_status (throws (other_error e)) table other k =
        delete-IsKept r id table other k
    settle-IsKept id success_status (throws (app_error e)) table other k =
        elim (is_replayable e.status)
          as (λ b. IsKept r (
            if b
            then get_or_else
                (store_response id e.status (error_body e.code e.message (stored_details e.details))
                  table)
                table
            else delete_record id table)) [
              | true ↦ store-IsKept r id e.status _ table other k
              | false ↦ delete-IsKept r id table other k
            ]

    runs_on :
        (id : ℕ) (running : List ℕ)
        → id ≢ r.id
        → any (λ i. i == r.id) (filter (λ i. not (i == id)) running) ≡ any (λ i. i == r.id) running
    runs_on id [] other = refl
    runs_on id (i ∷ running) other = ground (arith, runs_on id running other)

    pub play-Stays :
        (e : Event json embedded) (s : Server json embedded)
        → Spares e
        → r.id < s.next_id
        → IsKept r s.table
        → Stays s (play json embedded e s)
    unfolding play
    play-Stays (arrives now cleans req) s lives old k =
        after_claim-Stays req s _ old (claim-Passes r cleans req s.next_id now s.table lives old k)
    play-Stays (finishes id success_status o) s other old k =
        elim (is_running id s)
          as (λ b. Stays s (
            if b
            then record s {
              table = (settle json embedded id success_status o s.table).0;
              running = filter (λ i. not (i == id)) s.running;
            }
            else s)) [
              | true ↦ record {
                kept = settle-IsKept id success_status o s.table other k;
                old = old;
                same_starts = refl;
                same_running = runs_on id s.running other;
              }
              | false ↦ record { kept = k; old = old; same_starts = refl; same_running = refl }
            ]
