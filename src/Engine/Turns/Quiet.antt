-- ===== src/Engine/Turns/Quiet.antt =====
-- Storing a turn leaves the state of the session's row alone.
use conversa_forge.Prelude.{ℕ, zero, suc, refl, ◌≡◌, sym, ap, some, Option, none}
use conversa_forge.Engine.State.{Env, Machine, TurnRecord, Session}
use conversa_forge.Engine.Exec.{Result, ok, send}
use conversa_forge.Engine.Guarantee.{
  Guarantee, Guarantees, Guarantee-refl, Guarantee-trans, Guarantee-of_state, if-Guarantee,
  state_of,
}
use conversa_forge.Engine.Turns.{
  TurnInput, Created, stored, same_client, collision, store, commit, others_write, resync,
  after_create, persist_from, persist_turn,
}

module _ (env : Env) where
  after_create-Guarantee :
      (c : Created) (t : TurnRecord) (again : Result (Option TurnRecord) × Machine) (m : Machine)
      → Guarantee m.world again.1.world
      → Guarantee m.world (after_create c t again m).1.world
  unfolding after_create commit store send
  after_create-Guarantee stored t again m h = by_row m.db refl
    where
      by_row : (row : Option Session) → m.db ≡ row → Guarantee m.world (commit row t m).1.world
      by_row none e = Guarantee-refl m.world
      by_row (some row) e = Guarantee-of_state m.world _ (sym (ap state_of e)) refl
  after_create-Guarantee (same_client existing) t again m h = Guarantee-of_state m.world _ refl refl
  after_create-Guarantee collision t again m h = h

  persist_from-Guarantees :
      (attempts : ℕ) (input : TurnInput) → Guarantees (persist_from env attempts input)
  unfolding persist_from resync others_write
  persist_from-Guarantees zero input m = Guarantee-refl m.world
  persist_from-Guarantees (suc attempts) input m = after_create-Guarantee _ _ _ m (
      Guarantee-trans (Guarantee-of_state m.world (others_write (resync m)).world refl refl)
        (persist_from-Guarantees attempts input (others_write (resync m))))

  pub persist_turn-Guarantees : (input : TurnInput) → Guarantees (persist_turn env input)
  unfolding persist_turn
  persist_turn-Guarantees input m =
      if-Guarantee m.world m.terminal (ok none, m) (persist_from env 3 input m)
        (Guarantee-refl m.world) (persist_from-Guarantees 3 input m)
