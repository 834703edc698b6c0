-- ===== src/Developer/Idempotency/Release.antt =====
-- A failure that is not kept releases its key.
use conversa_forge.Prelude.{
  ℕ, ◌<◌, ◌≡◌, refl, ap, ◌∙◌, ltb, ◌==◌, not, ◌&&◌, Bool, true, false, List, filter, All, none,
  some, arith, find-none, none-All, All-filter, All-filter_test, All-imp,
}
use conversa_forge.Developer.Idempotency.{
  IdempotencyRecord, KeyedRequest, claimed, matches, find_unique, new_record, clean_up, claim,
  delete_record, app_error, other_error, database_error,
}
use conversa_forge.Developer.Idempotency.Keeps.{IsKept}
use conversa_forge.Developer.Idempotency.Contract.{claim_in-free}
use conversa_forge.Developer.Idempotency.Answer.{answer_of, play_all-Stays}
use conversa_forge.Developer.Idempotency.Replay.{is_running}
use conversa_forge.Developer.Idempotency.Once.{arrival, meanwhile-Spares, IsMeanwhile}
use conversa_forge.Developer.Idempotency.Run.{
  ErrorFields, Outcome, returns, throws, Server, Event, arrives, finishes, settle, on_failure, play,
  play_all,
}

module _ {B D : Type 0} where
  delete-none :
      (r : IdempotencyRecord B D) (table : List (IdempotencyRecord B D))
      → IsKept r table
      → find_unique r.scope r.key (delete_record r.id table) ≡ none
  unfolding delete_record
  delete-none r table k =
      find-none (matches r.scope r.key) (filter (λ x. not (x.id == r.id)) table) (
        All-filter_test _ _ (λ x. not (x.id == r.id)) table (λ x h e. ground (arith, h.0, h.1, e))
          k.alone)

  claim-free :
      (cleans : Bool) (req : KeyedRequest) (id now : ℕ) (table : List (IdempotencyRecord B D))
      → find_unique req.scope req.key table ≡ none
      → (claim cleans req id now table).1 ≡ claimed id
  unfolding claim clean_up
  claim-free false req id now table e = claim_in-free 1 req id now table e
  claim-free true req id now table e =
      claim_in-free 1 req id now
        (filter (λ x. not (x.scope == req.scope && ltb x.expires_at now)) table)
        (find-none _ _ (All-filter _ _ table (none-All _ table e)))

module _ {R B D : Type 0} (json : R → B) (embedded : B → ErrorFields D) where
  settle-deletes :
      (id success_status : ℕ) (o : Outcome R D) (table : List (IdempotencyRecord B D))
      → answer_of json embedded success_status o ≡ none
      → (settle json embedded id success_status o table).0 ≡ delete_record id table
  unfolding settle on_failure
  settle-deletes id success_status (returns none) table e = absurd (ground (arith, e))
  settle-deletes id success_status (returns (some result)) table e = absurd (ground (arith, e))
  settle-deletes id success_status (throws database_error) table e = refl
  settle-deletes id success_status (throws (other_error x)) table e = refl
  settle-deletes id success_status (throws (app_error x)) table e = ground (arith, e)

  end-deletes :
      (r : IdempotencyRecord B D) (success_status : ℕ) (o : Outcome R D) (s : Server json embedded)
      → answer_of json embedded success_status o ≡ none
      → IsKept r s.table
      → is_running json embedded r.id s ≡ true
      → find_unique r.scope r.key (play json embedded (finishes r.id success_status o) s).table
        ≡ none
  unfolding play
  end-deletes r success_status o s e k runs = rw runs (
      ap (find_unique r.scope r.key) (settle-deletes r.id success_status o s.table e)
      ∙ delete-none r s.table k)

  -- Where the ids of the table are below the next one, a request claims its key, the requests that
  -- come before its handler ends come within five minutes, and the handler ends with a failure
  -- that is not kept, such as a server error, the next request under the key claims it again, the
  -- same request or another, at whatever time.
  pub released :
      (req : KeyedRequest) (now : ℕ) (cleans : Bool) (meanwhile : List (Event json embedded))
      (success_status : ℕ) (o : Outcome R D) (s : Server json embedded) (req' : KeyedRequest)
      (now' : ℕ) (cleans' : Bool)
      → All (λ x. x.id < s.next_id) s.table
      → (claim cleans req s.next_id now s.table).1 ≡ claimed s.next_id
      → All (IsMeanwhile json embedded s.next_id now) meanwhile
      → answer_of json embedded success_status o ≡ none
      → req'.scope ≡ req.scope
      → req'.key ≡ req.key
      → let s' =
          play json embedded
            (finishes s.next_id success_status o)
            (play_all json embedded meanwhile (play json embedded (arrives now cleans req) s)) in
        (claim cleans' req' s'.next_id now' s'.table).1 ≡ claimed s'.next_id
  released req now cleans meanwhile success_status o s req' now' cleans' below first within lost e
        e' =
      let r = new_record {B = B} {D = D} req s.next_id now in
      let one = arrival json embedded req now cleans s below first in
      let two =
        play_all-Stays json embedded r meanwhile _
          (All-imp _ _ meanwhile (meanwhile-Spares json embedded req s.next_id now) within) one.new
          one.kept in
      claim-free cleans' req' _ now' _ (
        rw e (rw e' (end-deletes r success_status o _ lost two.kept (two.same_running ∙ one.runs))))
