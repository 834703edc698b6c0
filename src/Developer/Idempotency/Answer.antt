-- ===== src/Developer/Idempotency/Answer.antt =====
-- What runs of events leave of a record, and the answer that the end of its handler stores in it.
use conversa_forge.Prelude.{
  ℕ, ◌<◌, ◌≡◌, inl, refl, sym, ◌∙◌, ◌==◌, Bool, true, false, List, [], ◌∷◌, map, All, Option, none,
  some, is_some, arith, if◌then◌else◌, find-any, find-map, All-map,
}
use mathlib.Core.Path.{subst}
use conversa_forge.Developer.Idempotency.{
  IdempotencyRecord, stored_details, matches, StoredBody, error_body, json_body, json_null,
  app_error, other_error, database_error, answered_record, store_response, is_replayable,
}
use conversa_forge.Developer.Idempotency.Keeps.{IsKept}
use conversa_forge.Developer.Idempotency.Replay.{is_running, Spares, Stays, play-Stays}
use conversa_forge.Developer.Idempotency.Run.{
  ErrorFields, Outcome, returns, throws, Server, Event, arrives, finishes, settle, on_failure, play,
  play_all,
}

module _ {R B D : Type 0} (json : R → B) (embedded : B → ErrorFields D) where
  -- What an outcome leaves for later requests: nothing where the key is released.
  abbrev pub answer_of : ℕ → Outcome R D → Option (ℕ × StoredBody B D)
  answer_of success_status (returns none) = some (success_status, json_null)
  answer_of success_status (returns (some result)) = some (success_status, json_body (json result))
  answer_of success_status (throws (app_error e)) =
      if is_replayable e.status
      then some (e.status, error_body e.code e.message (stored_details e.details))
      else none
  answer_of success_status (throws _) = none

  abbrev pub IsBefore : ℕ → Event json embedded → Type 0
  IsBefore limit (arrives now cleans req) = now < limit
  IsBefore limit (finishes id success_status o) = Unit

  module _ (r : IdempotencyRecord B D) where
    Stays-trans :
        (s s' s'' : Server json embedded)
        → Stays json embedded r s s'
        → Stays json embedded r s' s''
        → Stays json embedded r s s''
    Stays-trans s s' s'' h k = record {
      kept = k.kept;
      old = k.old;
      same_starts = k.same_starts ∙ h.same_starts;
      same_running = k.same_running ∙ h.same_running;
    }

    pub play_all-Stays :
        (es : List (Event json embedded)) (s : Server json embedded)
        → All (Spares json embedded r) es
        → r.id < s.next_id
        → IsKept r s.table
        → Stays json embedded r s (play_all json embedded es s)
    unfolding play_all
    play_all-Stays [] s h old k = record {
      kept = k;
      old = old;
      same_starts = refl;
      same_running = refl;
    }
    play_all-Stays (e ∷ es) s h old k =
        let first = play-Stays json embedded r e s h.0 old k in
        Stays-trans s _ _ first
          (play_all-Stays es (play json embedded e s) h.1 first.old first.kept)

    -- An answered record stays until it expires: its own handler has ended.
    play_answered :
        (e : Event json embedded) (s : Server json embedded)
        → is_some r.response_status ≡ true
        → is_running json embedded r.id s ≡ false
        → IsBefore r.expires_at e
        → r.id < s.next_id
        → IsKept r s.table
        → Stays json embedded r s (play json embedded e s)
    unfolding play
    play_answered (arrives now cleans req) s answered idle before old k =
        play-Stays json embedded r (arrives now cleans req) s
          (record { unexpired = before; fresh = inl answered }) old k
    play_answered (finishes id success_status o) s answered idle before old k =
        by_id (id == r.id) refl
      where
        after : Server json embedded
        after = play json embedded (finishes id success_status o) s

        by_id : (b : Bool) → (id == r.id) ≡ b → Stays json embedded r s after
        by_id true same =
            subst (λ s'. Stays json embedded r s s') (ground (arith, idle, same))
              (record { kept = k; old = old; same_starts = refl; same_running = refl })
        by_id false other =
            play-Stays json embedded r (finishes id success_status o) s (ground (arith, other)) old
              k

    pub play_all_answered :
        (es : List (Event json embedded)) (s : Server json embedded)
        → is_some r.response_status ≡ true
        → is_running json embedded r.id s ≡ false
        → All (IsBefore r.expires_at) es
        → r.id < s.next_id
        → IsKept r s.table
        → Stays json embedded r s (play_all json embedded es s)
    unfolding play_all
    play_all_answered [] s answered idle h old k = record {
      kept = k;
      old = old;
      same_starts = refl;
      same_running = refl;
    }
    play_all_answered (e ∷ es) s answered idle h old k =
        let first = play_answered e s answered idle h.0 old k in
        Stays-trans s _ _ first (
          play_all_answered es (play json embedded e s) answered (first.same_running ∙ idle) h.1
            first.old first.kept)

    -- The response of a handler is stored in its record.
    abbrev pub answered : ℕ → StoredBody B D → IdempotencyRecord B D
    answered status body = record r { response_status = some status; response_body = body }

    map-IsKept :
        (status : ℕ) (body : StoredBody B D) (table : List (IdempotencyRecord B D))
        → IsKept r table
        → IsKept (answered status body) (map (answered_record r.id status body) table)
    map-IsKept status body table k = record {
      found =
          find-map (matches r.scope r.key) (answered_record r.id status body) r table
            (λ x. ground arith) k.found
          ∙ ground arith;
      alone =
          All-map _ _ (answered_record r.id status body) table (λ x h. ground (arith, h.0, h.1))
            k.alone;
    }

    pub store_response-found :
        (status : ℕ) (body : StoredBody B D) (table : List (IdempotencyRecord B D))
        → IsKept r table
        → store_response r.id status body table
          ≡ some (map (answered_record r.id status body) table)
    unfolding store_response
    store_response-found status body table k =
        rw (find-any _ (λ x. x.id == r.id) r table k.found (ground arith)) refl

    settle_table :
        (success_status : ℕ) (o : Outcome R D) (status : ℕ) (body : StoredBody B D)
        (table : List (IdempotencyRecord B D))
        → answer_of success_status o ≡ some (status, body)
        → IsKept r table
        → (settle json embedded r.id success_status o table).0
          ≡ map (answered_record r.id status body) table
    unfolding settle on_failure
    settle_table success_status (returns none) status body table e k =
        ground (arith, store_response-found success_status json_null table k, e)
    settle_table success_status (returns (some result)) status body table e k =
        ground (arith, store_response-found success_status (json_body (json result)) table k, e)
    settle_table success_status (throws database_error) status body table e k =
        absurd (ground (arith, e))
    settle_table success_status (throws (other_error x)) status body table e k =
        absurd (ground (arith, e))
    settle_table success_status (throws (app_error x)) status body table e k = ground (
      arith,
      store_response-found x.status (error_body x.code x.message (stored_details x.details)) table
          k,
      e,
    )

    pub settle-IsAnswered :
        (success_status : ℕ) (o : Outcome R D) (status : ℕ) (body : StoredBody B D)
        (table : List (IdempotencyRecord B D))
        → answer_of success_status o ≡ some (status, body)
        → IsKept r table
        → IsKept (answered status body) (settle json embedded r.id success_status o table).0
    settle-IsAnswered success_status o status body table e k =
        subst (λ t. IsKept (answered status body) t)
          (sym (settle_table success_status o status body table e k))
          (map-IsKept status body table k)
