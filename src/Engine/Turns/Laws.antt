-- ===== src/Engine/Turns/Laws.antt =====
-- The attempts of `persistTurn`: which of them meets no collision.
use conversa_forge.Prelude.{
  ℕ, suc, ◌+◌, ◌<◌, ◌≡◌, refl, sym, ap, ◌∙◌, ◌⊎◌, inl, inr, false, Bool, true, List, [], ◌∷◌, ◌++◌,
  none, some, arith, Bool-cases, Option-cases,
}
use mathlib.Core.Path.{subst}
use mathlib.Core.List.{append-nil}
use conversa_forge.Engine.State.{TurnRecord, Env, Machine}
use conversa_forge.Engine.Turns.{
  TurnInput, has_seq, has_id, max_seq, Created, stored, collision, same_client, create, to_record,
  after_create, resync, persist_from, first_batch, later_batches, others_write,
}

max_seq-none : (n : ℕ) (turns : List TurnRecord) → max_seq turns ≡ none → has_seq n turns ≡ false
max_seq-none n [] e = refl
max_seq-none n (t ∷ ts) e = ground arith

-- No stored turn has a number above the maximum.
has_seq_above_max :
    (n s : ℕ) (turns : List TurnRecord) → max_seq turns ≡ some s → s < n → has_seq n turns ≡ false
has_seq_above_max n s [] e h = refl
has_seq_above_max n s (t ∷ ts) e h = elim (Option-cases (max_seq ts)) [
  | inl empty ↦ ground (arith, max_seq-none n ts empty)
  | inr (s', e') ↦ ground (arith, has_seq_above_max n s' ts e')
]

-- After a resync the next number is free.
pub resync_free : (m : Machine) → has_seq ((resync m).session.last_seq + 1) m.db_turns ≡ false
unfolding resync
resync_free m = elim (Option-cases (max_seq m.db_turns)) [
  | inl empty ↦ max_seq-none _ m.db_turns empty
  | inr (s, e) ↦ has_seq_above_max _ s m.db_turns e (ground (arith, e))
]

abbrev pub is_collision : Created → Bool
is_collision collision = true
is_collision _ = false

-- An attempt of `persistTurn` that meets no collision, with what the database and the engine hold then.
pub record Settles (env : Env) (input : TurnInput) (attempts : ℕ) (m m' : Machine) : Type 0 where
  pub run : persist_from env 3 input m ≡ persist_from env (suc attempts) input m'
  pub decided :
      is_collision (create env.client_first input (m'.session.last_seq + 1) m'.db_turns) ≡ false
  pub stored_turns :
      (m'.db_turns ≡ m.db_turns) ⊎ (m'.db_turns ≡ m.db_turns ++ first_batch m.arrivals)
  pub db : m'.db ≡ m.db
  pub turns : m'.turns ≡ m.turns
  pub sent : m'.sent ≡ m.sent
  pub transport : m'.transport ≡ m.transport

-- The attempt after one that met a collision.
abbrev retry : Machine → Machine
unfolding resync others_write
retry m = others_write (resync m)

no_collision :
    (first : Bool) (input : TurnInput) (seq : ℕ) (turns : List TurnRecord)
    → has_seq seq turns ≡ false
    → has_id input.id turns ≡ false
    → is_collision (create first input seq turns) ≡ false
unfolding create
no_collision first input seq turns s i = ground (arith, s, i)

module _ (env : Env) (input : TurnInput) where
  abbrev collides : Machine → Bool
  collides m = is_collision (create env.client_first input (m.session.last_seq + 1) m.db_turns)

  persist_from-collision :
      (attempts : ℕ) (m : Machine)
      → collides m ≡ true
      → persist_from env (suc attempts) input m ≡ persist_from env attempts input (retry m)
  unfolding persist_from after_create others_write retry
  persist_from-collision attempts m e = by_answer _ e
    where
      by_answer :
          (c : Created)
          → is_collision c ≡ true
          → after_create c
              (to_record env.llm_simulated input (m.session.last_seq + 1))
              (persist_from env attempts input (retry m))
              m
            ≡ persist_from env attempts input (retry m)
      by_answer collision e = refl
      by_answer stored e = cc
      by_answer (same_client t) e = cc

  -- Where the id is new and no writer comes between the second reading of the largest number and
  -- the third attempt, some attempt meets no collision.
  pub persist_from-Settles :
      (m : Machine)
      → has_id input.id (m.db_turns ++ first_batch m.arrivals) ≡ false
      → first_batch (later_batches m.arrivals) ≡ []
      → (attempts : ℕ) × (m' : Machine) × Settles env input attempts m m'
  unfolding resync others_write
  persist_from-Settles m new quiet = elim (Bool-cases (collides m)) [
    | inr free ↦ (
      2,
      m,
      record {
        run = refl;
        decided = free;
        stored_turns = inl refl;
        db = refl;
        turns = refl;
        sent = refl;
        transport = refl;
      },
    )
    | inl taken ↦ elim (Bool-cases (collides (retry m))) [
      | inr free ↦ (
        1,
        retry m,
        record {
          run = persist_from-collision 2 m taken;
          decided = free;
          stored_turns = inr refl;
          db = refl;
          turns = refl;
          sent = refl;
          transport = refl;
        },
      )
      | inl taken' ↦ (
        0,
        retry (retry m),
        record {
          run = persist_from-collision 2 m taken ∙ persist_from-collision 1 (retry m) taken';
          decided =
              let same : (retry (retry m)).db_turns ≡ (retry m).db_turns =
                ap (λ ts. (m.db_turns ++ first_batch m.arrivals) ++ ts) quiet ∙ append-nil _ in
              subst
                (λ ts.
                  is_collision
                    (create env.client_first input ((resync (retry m)).session.last_seq + 1) ts)
                  ≡ false)
                (sym same) (no_collision env.client_first input _ _ (resync_free (retry m)) new);
          stored_turns =
              inr (ap (λ ts. (m.db_turns ++ first_batch m.arrivals) ++ ts) quiet ∙ append-nil _);
          db = refl;
          turns = refl;
          sent = refl;
          transport = refl;
        },
      )
    ]
  ]
