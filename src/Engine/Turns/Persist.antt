-- ===== src/Engine/Turns/Persist.antt =====
-- The contract of `persistTurn`: with a new id it settles within its three attempts, however stale the
-- engine's `lastSeq` is.
use conversa_forge.Prelude.{
  ℕ, ◌+◌, ◌≡◌, refl, sym, ap, ◌∙◌, inl, inr, ◌⊎◌, Bool, false, List, [], ◌∷◌, ◌++◌, Option, none,
  some, arith, find-append-some, if◌then◌else◌, Text,
}
use mathlib.Core.Path.{subst}
use conversa_forge.Engine.State.{TurnRecord, Session, ServerMessage, turn_saved, Env, Machine}
use conversa_forge.Engine.Exec.{ok, send, Result}
use conversa_forge.Engine.Turns.{
  TurnInput, client_is, find_client, has_seq, has_id, Created, stored, same_client, create,
  to_record, commit, after_create, store, first_batch, later_batches, persist_from, persist_turn,
  others_write, resync,
}
use conversa_forge.Engine.Turns.Laws.{is_collision, Settles, persist_from-Settles}

-- A turn with a new client id that meets no collision breaks no unique index, and one whose client
-- id is stored is answered with the stored turn.
answer_of_decided :
    (first : Bool) (input : TurnInput) (seq : ℕ) (turns : List TurnRecord)
    → is_collision (create first input seq turns) ≡ false
    → find_client input.client_turn_id turns ≡ none
    → (create first input seq turns ≡ stored) × (has_seq seq turns ≡ false)
unfolding create
answer_of_decided first input seq turns d c = (ground (arith, d, c), ground (arith, d, c))

resent_of_decided :
    (first : Bool) (input : TurnInput) (seq : ℕ) (turns : List TurnRecord) (t : TurnRecord)
    → is_collision (create first input seq turns) ≡ false
    → find_client input.client_turn_id turns ≡ some t
    → create first input seq turns ≡ same_client t
unfolding create
resent_of_decided first input seq turns t d c = ground (arith, d, c)

find_client-prefix :
    (c : Option Text) (ts us : List TurnRecord)
    → find_client c (ts ++ us) ≡ none
    → find_client c ts ≡ none
find_client-prefix none ts us h = refl
find_client-prefix (some c) [] us h = refl
find_client-prefix (some c) (t ∷ ts) us h = ground (arith, h, find_client-prefix (some c) ts us)

find_client-append :
    (c : Option Text) (ts us : List TurnRecord) (t : TurnRecord)
    → find_client c ts ≡ some t
    → find_client c (ts ++ us) ≡ some t
find_client-append none ts us t h = cc
find_client-append (some c) ts us t h = find-append-some (client_is c) t ts us h

sent-send :
    (msg : ServerMessage) (m m' : Machine)
    → m'.transport ≡ m.transport
    → m'.sent ≡ m.sent
    → (send msg m').sent ≡ (send msg m).sent
unfolding send
sent-send msg m m' p q = ap (λ o. out o m'.sent) p ∙ ap (out m.transport) q
  where
    out : Option ℕ → List (ℕ × ServerMessage) → List (ℕ × ServerMessage)
    out o l = elim o [ none ↦ l | some t ↦ l ++ (t, msg) ∷ [] ]

-- The turn stored under `seq` beside the turns `before`, in the database and in the engine, and sent.
pub record IsStored (env : Env) (input : TurnInput) (m : Machine) (row : Session)
    (before : List TurnRecord) (seq : ℕ) (p : Result (Option TurnRecord) × Machine) : Type 0 where
  pub result : p.0 ≡ ok (some (to_record env.llm_simulated input seq))
  pub free : has_seq seq before ≡ false
  pub db_turns : p.1.db_turns ≡ before ++ to_record env.llm_simulated input seq ∷ []
  pub db : p.1.db ≡ some (record row { last_seq = seq })
  pub turns : p.1.turns ≡ m.turns ++ to_record env.llm_simulated input seq ∷ []
  pub last_seq : p.1.session.last_seq ≡ seq
  pub sent : p.1.sent ≡ (send (turn_saved (to_record env.llm_simulated input seq)) m).sent

-- Nothing is stored by the engine, and the transports got `messages`.
pub record IsUnchanged (m : Machine) (before : List TurnRecord)
    (messages : List (ℕ × ServerMessage)) (m' : Machine) : Type 0 where
  pub db_turns : m'.db_turns ≡ before
  pub db : m'.db ≡ m.db
  pub turns : m'.turns ≡ m.turns
  pub sent : m'.sent ≡ messages

module _ (env : Env) (input : TurnInput) (m : Machine) where
  -- The turns that are stored when the attempt that settles comes: those of before, or with the ones
  -- that came in between.
  abbrev pub Stands : List TurnRecord → Type 0
  Stands before = (before ≡ m.db_turns) ⊎ (before ≡ m.db_turns ++ first_batch m.arrivals)

  -- The engine has not ended, the id is new, and no other writer comes between the second reading of
  -- the largest number and the third attempt.
  pub record IsLive : Type 0 where
    pub live : m.terminal ≡ false
    pub new : has_id input.id (m.db_turns ++ first_batch m.arrivals) ≡ false
    pub quiet : first_batch (later_batches m.arrivals) ≡ []

  find_client-before :
      (before : List TurnRecord)
      → Stands before
      → find_client input.client_turn_id (m.db_turns ++ first_batch m.arrivals) ≡ none
      → find_client input.client_turn_id before ≡ none
  find_client-before before (inl e) c =
      rw e (find_client-prefix input.client_turn_id m.db_turns (first_batch m.arrivals) c)
  find_client-before before (inr e) c = rw e c

  find_client_later :
      (before : List TurnRecord) (t : TurnRecord)
      → Stands before
      → find_client input.client_turn_id m.db_turns ≡ some t
      → find_client input.client_turn_id before ≡ some t
  find_client_later before t (inl e) c = rw e c
  find_client_later before t (inr e) c =
      rw e (find_client-append input.client_turn_id m.db_turns (first_batch m.arrivals) t c)

  persist_turn_live : m.terminal ≡ false → persist_turn env input m ≡ persist_from env 3 input m
  unfolding persist_turn
  persist_turn_live live = ap (λ b. if b then (ok none, m) else persist_from env 3 input m) live

  persist_turn_by :
      (attempts : ℕ) (m' : Machine) (c : Created)
      → m.terminal ≡ false
      → Settles env input attempts m m'
      → create env.client_first input (m'.session.last_seq + 1) m'.db_turns ≡ c
      → persist_turn env input m
        ≡ after_create c
            (to_record env.llm_simulated input (m'.session.last_seq + 1))
            (persist_from env attempts input (others_write (resync m')))
            m'
  unfolding persist_from
  persist_turn_by attempts m' c live s e =
      persist_turn_live live
      ∙ s.run
      ∙ ap
          (λ a.
            after_create a (to_record env.llm_simulated input (m'.session.last_seq + 1))
              (persist_from env attempts input (others_write (resync m'))) m')
          e

  store-IsStored :
      (attempts : ℕ) (m' : Machine) (row : Session)
      → let seq = m'.session.last_seq + 1 in
        let t = to_record env.llm_simulated input seq in
        Settles env input attempts m m'
        → has_seq seq m'.db_turns ≡ false
        → IsStored env input m row m'.db_turns seq (ok (some t), store row t m')
  unfolding store send to_record
  store-IsStored attempts m' row s free = record {
    result = refl;
    free = free;
    db_turns = refl;
    db = refl;
    turns =
        ap (λ ts. ts ++ to_record env.llm_simulated input (m'.session.last_seq + 1) ∷ []) s.turns;
    last_seq = refl;
    sent =
        sent-send (turn_saved (to_record env.llm_simulated input (m'.session.last_seq + 1))) m m'
          s.transport s.sent;
  }

  -- Where the session has not ended and its row is there, a turn with a new id and a new client id is stored in the
  -- session's row and transcript and in the engine and sent, under a number that was free, however stale the
  -- engine's `lastSeq` is, and also if other writers store turns after the first reading of
  -- the largest number, but none after the second.
  pub persist_turn_total :
      (row : Session)
      → IsLive
      → m.db ≡ some row
      → find_client input.client_turn_id (m.db_turns ++ first_batch m.arrivals) ≡ none
      → (before : List TurnRecord) × (seq : ℕ) × Stands before
        × IsStored env input m row before seq (persist_turn env input m)
  unfolding after_create commit
  persist_turn_total row h there unknown =
      let (attempts, m', s) = persist_from-Settles env input m h.new h.quiet in
      let seq = m'.session.last_seq + 1 in
      let t = to_record env.llm_simulated input seq in
      let (is_stored, free) =
        answer_of_decided env.client_first input seq m'.db_turns s.decided
          (find_client-before m'.db_turns s.stored_turns unknown) in
      let run =
        persist_turn_by attempts m' stored h.live s is_stored
        ∙ ap (λ o. commit o t m') (s.db ∙ there) in
      (
        m'.db_turns,
        seq,
        s.stored_turns,
        subst (IsStored env input m row m'.db_turns seq) (sym run)
            (store-IsStored attempts m' row s free),
      )

  -- Where the session has not ended, an utterance with a new id whose client id is stored already is
  -- not stored again: the stored turn is sent instead, also if the engine's `lastSeq` is
  -- stale and if other writers store turns after the first reading of the largest number, but none
  -- after the second.
  pub persist_turn_resent :
      (t : TurnRecord)
      → IsLive
      → find_client input.client_turn_id m.db_turns ≡ some t
      → (before : List TurnRecord) × Stands before
        × ((persist_turn env input m).0 ≡ ok none)
        × IsUnchanged m before (send (turn_saved t) m).sent (persist_turn env input m).1
  unfolding after_create send
  persist_turn_resent t h known =
      let (attempts, m', s) = persist_from-Settles env input m h.new h.quiet in
      let seq = m'.session.last_seq + 1 in
      let again =
        resent_of_decided env.client_first input seq m'.db_turns t s.decided
          (find_client_later m'.db_turns t s.stored_turns known) in
      let run = persist_turn_by attempts m' (same_client t) h.live s again in
      (
        m'.db_turns,
        s.stored_turns,
        ap (λ p. p.0) run,
        subst (λ p. IsUnchanged m m'.db_turns (send (turn_saved t) m).sent p.1) (sym run)
            (record {
              db_turns = refl;
              db = s.db;
              turns = s.turns;
              sent = sent-send (turn_saved t) m m' s.transport s.sent;
            }),
      )
