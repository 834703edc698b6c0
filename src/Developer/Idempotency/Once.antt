-- ===== src/Developer/Idempotency/Once.antt =====
-- A key is worked on once, from the request that claims it to the time it expires, where the other
-- requests come within five minutes until its handler ends and the outcome is kept.
use conversa_forge.Prelude.{
  ℕ, ◌+◌, ◌-◌, ◌≤◌, ◌<◌, ◌≡◌, ◌≢◌, inr, refl, ◌∙◌, ◌==◌, not, Bool, true, false, List, [], ◌∷◌,
  filter, any, All, All-imp, some, Text, text_eq_refl, arith, if◌then◌else◌,
}
use conversa_forge.Developer.Idempotency.{
  IdempotencyRecord, KeyedRequest, ClaimResult, claimed, new_record, claim, stale_lock_ms, ttl_ms,
  StoredBody, replay, reused, in_flight,
}
use conversa_forge.Developer.Idempotency.Keeps.{IsKept}
use conversa_forge.Developer.Idempotency.Claims.{claim-Claims, claim-answered}
use conversa_forge.Developer.Idempotency.Answer.{
  answer_of, IsBefore, play_all-Stays, play_all_answered, settle-IsAnswered, answered,
}
use conversa_forge.Developer.Idempotency.Replay.{starts_of, is_running, Spares}
use conversa_forge.Developer.Idempotency.Run.{
  ErrorFields, Outcome, Server, Event, arrives, finishes, after_claim, play, play_all,
}

module _ {R B D : Type 0} (json : R → B) (embedded : B → ErrorFields D) where
  idle_after :
      (id : ℕ) (running : List ℕ) → any (λ i. i == id) (filter (λ i. not (i == id)) running) ≡ false
  idle_after id [] = refl
  idle_after id (i ∷ running) = ground (arith, idle_after id running)

  -- An event within five minutes of `now`, which is no end of the handler `id`.
  abbrev pub IsMeanwhile : (id now : ℕ) → Event json embedded → Type 0
  IsMeanwhile id now (arrives at cleans req) = at - now ≤ stale_lock_ms
  IsMeanwhile id now (finishes id' success_status o) = id' ≢ id

  -- A server that has claimed a key for a request, run its handler to an outcome and stored that.
  abbrev pub worked_on :
      KeyedRequest
      → (now : ℕ) (cleans : Bool) → (meanwhile : List (Event json embedded)) → (success_status : ℕ)
      → Outcome R D
      → (later : List (Event json embedded)) → Server json embedded
      → Server json embedded
  worked_on req now cleans meanwhile success_status o later s = play_all json embedded later (
      play json embedded (finishes s.next_id success_status o)
        (play_all json embedded meanwhile (play json embedded (arrives now cleans req) s)))

  -- A record that was just claimed or answered.
  pub record Enters (r : IdempotencyRecord B D) (now_runs : Bool) (keys : List (ℕ × Text))
      (s : Server json embedded) : Type 0 where
    pub kept : IsKept r s.table
    pub new : r.id < s.next_id
    pub starts : starts_of json embedded r.scope r.key s ≡ keys
    pub runs : is_running json embedded r.id s ≡ now_runs

  pub arrival :
      (req : KeyedRequest) (now : ℕ) (cleans : Bool) (s : Server json embedded)
      → All (λ x. x.id < s.next_id) s.table
      → (claim cleans req s.next_id now s.table).1 ≡ claimed s.next_id
      → Enters
          (new_record req s.next_id now)
          true
          ((req.scope, req.key) ∷ starts_of json embedded req.scope req.key s)
          (play json embedded (arrives now cleans req) s)
  unfolding play
  arrival req now cleans s below first =
      by_claim (claim cleans req s.next_id now s.table) first
        (claim-Claims cleans req s.next_id now s.table below first)
    where
      by_claim :
          (c : List (IdempotencyRecord B D) × ClaimResult B D)
          → c.1 ≡ claimed s.next_id
          → IsKept (new_record req s.next_id now) c.0
          → Enters
              (new_record req s.next_id now)
              true
              ((req.scope, req.key) ∷ starts_of json embedded req.scope req.key s)
              (after_claim json embedded req c s)
      by_claim (t, claimed id) e k = record {
        kept = k;
        new = omega arith;
        starts = ground (arith, text_eq_refl req.key);
        runs = ground (arith, e);
      }
      by_claim (t, replay status body) e k = absurd (ground (arith, e))
      by_claim (t, reused) e k = absurd (ground (arith, e))
      by_claim (t, in_flight) e k = absurd (ground (arith, e))

  pub meanwhile-Spares :
      (req : KeyedRequest) (id now : ℕ) (e : Event json embedded)
      → IsMeanwhile id now e
      → Spares json embedded (new_record {B = B} {D = D} req id now) e
  meanwhile-Spares req id now (arrives at cleans req') h = record {
    unexpired = omega (arith, h);
    fresh = inr h;
  }
  meanwhile-Spares req id now (finishes id' success_status o) h = h

  end_of :
      (r : IdempotencyRecord B D) (success_status : ℕ) (o : Outcome R D) (status : ℕ)
      (body : StoredBody B D) (s : Server json embedded)
      → answer_of json embedded success_status o ≡ some (status, body)
      → IsKept r s.table
      → r.id < s.next_id
      → is_running json embedded r.id s ≡ true
      → Enters
          (answered json embedded r status body)
          false
          (starts_of json embedded r.scope r.key s)
          (play json embedded (finishes r.id success_status o) s)
  unfolding play
  end_of r success_status o status body s e k new runs = rw runs (record {
    kept = settle-IsAnswered json embedded r success_status o status body s.table e k;
    new = new;
    starts = refl;
    runs = idle_after r.id s.running;
  })

  -- Where the ids of the table are below the next one, a request claims its key, the requests that
  -- come before its handler ends come within five minutes, and the handler ends with an outcome
  -- that is kept: no other handler starts under the key for requests that come within 24 hours,
  -- whatever requests and ends of other handlers come in between and after. In that time the same
  -- request gets the stored response, and a different one under the key the error that the key was
  -- used.
  pub exactly_once :
      (req : KeyedRequest) (now : ℕ) (cleans : Bool) (meanwhile : List (Event json embedded))
      (success_status : ℕ) (o : Outcome R D) (status : ℕ) (body : StoredBody B D)
      (later : List (Event json embedded)) (s : Server json embedded)
      → All (λ x. x.id < s.next_id) s.table
      → (claim cleans req s.next_id now s.table).1 ≡ claimed s.next_id
      → All (IsMeanwhile s.next_id now) meanwhile
      → answer_of json embedded success_status o ≡ some (status, body)
      → All (IsBefore json embedded (now + ttl_ms)) later
      → let s' = worked_on req now cleans meanwhile success_status o later s in
        (starts_of json embedded req.scope req.key s'
          ≡ (req.scope, req.key) ∷ starts_of json embedded req.scope req.key s)
        × ((req' : KeyedRequest) (now' : ℕ) (cleans' : Bool)
            → req'.scope ≡ req.scope
            → req'.key ≡ req.key
            → now' < now + ttl_ms
            → (claim cleans' req' s'.next_id now' s'.table).1
              ≡ (if req.hash == req'.hash then replay status body else reused))
  exactly_once req now cleans meanwhile success_status o status body later s below first within kept
        before =
      let r = new_record {B = B} {D = D} req s.next_id now in
      let one = arrival req now cleans s below first in
      let two =
        play_all-Stays json embedded r meanwhile _
          (All-imp _ _ meanwhile (meanwhile-Spares req s.next_id now) within) one.new one.kept in
      let three =
        end_of r success_status o status body _ kept two.kept two.old
          (two.same_running ∙ one.runs) in
      let four =
        play_all_answered json embedded (answered json embedded r status body) later _ refl
          three.runs before three.new three.kept in
      (
        four.same_starts ∙ three.starts ∙ two.same_starts ∙ one.starts,
        λ req' now' cleans' e e' live.
            claim-answered (answered json embedded r status body) status cleans' req' _ now' _
              four.kept e e' live refl,
      )
