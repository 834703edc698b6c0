-- ===== src/Engine/Speech/Laws.antt =====
-- Speaking, and cutting a speech short, leave the state of the session's row alone.
use conversa_forge.Prelude.{ℕ, refl, Text, String, Option, none, some}
use conversa_forge.Engine.State.{Env, Generation, TurnRecord}
use conversa_forge.Engine.Guarantee.{
  Guarantees, Guarantee-refl, Guarantee-of_state, if-Guarantee, guarantee_rules,
}
use conversa_forge.Engine.Turns.Quiet.{persist_turn-Guarantees}
use conversa_forge.Engine.Speech.{
  speak_scripted, commit_heard, commit_aborted, abort_some, abort_generation, truncate_turn,
}

pub truncate_turn-Guarantees : (t : TurnRecord) (spoken : ℕ) → Guarantees (truncate_turn t spoken)
unfolding truncate_turn
truncate_turn-Guarantees t spoken m =
    if-Guarantee m.world _ _ _ (Guarantee-refl m.world) (Guarantee-of_state m.world _ refl refl)

module _ (env : Env) (now : ℕ) where
  pub speak_scripted-Guarantees :
      (id : ℕ) (words : Text) (trigger : String)
      → Guarantees (speak_scripted env now id words trigger)
  unfolding speak_scripted
  speak_scripted-Guarantees id words trigger =
      search (guarantee_rules, persist_turn-Guarantees) depth 12

  commit_heard-Guarantees :
      (g : Generation) (words : Text) → Guarantees (commit_heard env now g words)
  unfolding commit_heard
  commit_heard-Guarantees g words = search (guarantee_rules, persist_turn-Guarantees) depth 12

  commit_aborted-Guarantees : (g : Generation) → Guarantees (commit_aborted env now g)
  unfolding commit_aborted
  commit_aborted-Guarantees g = search (guarantee_rules, commit_heard-Guarantees) depth 12

  abort_some-Guarantees :
      (o : Option Generation) (reason : Text) → Guarantees (abort_some env now o reason)
  unfolding abort_some
  abort_some-Guarantees none reason = search guarantee_rules
  abort_some-Guarantees (some g) reason =
      search (guarantee_rules, commit_aborted-Guarantees) depth 12

  pub abort_generation-Guarantees : (reason : Text) → Guarantees (abort_generation env now reason)
  unfolding abort_generation
  abort_generation-Guarantees reason = search (guarantee_rules, abort_some-Guarantees) depth 12
