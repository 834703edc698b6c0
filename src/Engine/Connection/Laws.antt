-- ===== src/Engine/Connection/Laws.antt =====
-- The guarantee of connections and restarts.
use conversa_forge.Prelude.{ℕ, arith}
use conversa_forge.Engine.State.{Env, Generation}
use conversa_forge.Engine.Exec.{modify, send}
use conversa_forge.Engine.Guarantee.{Guarantees, modify-Guarantees, guarantee_rules}
use conversa_forge.Engine.Transition.Laws.{transition-Guarantees}
use conversa_forge.Engine.Speech.Laws.{abort_generation-Guarantees}
use conversa_forge.Engine.Ending.Laws.{complete-Guarantees}
use conversa_forge.Engine.Connection.{
  start_generation, schedule_generation, resume_if_waiting, reply_if_due, supersede, attach,
  lose_connection, on_detach, fold_time, recover_after_restart,
}

module _ (env : Env) (now : ℕ) where
  supersede-Guarantees : (transport : ℕ) → Guarantees (modify (supersede env now transport))
  unfolding supersede send
  supersede-Guarantees transport =
      modify-Guarantees (supersede env now transport) (λ m. ground arith) (λ m. ground arith)

  fold_time-Guarantees : Guarantees (modify (fold_time env now))
  unfolding fold_time
  fold_time-Guarantees =
      modify-Guarantees (fold_time env now) (λ m. ground arith) (λ m. ground arith)

  ruleset connection_rules = (
    guarantee_rules, transition-Guarantees, abort_generation-Guarantees, complete-Guarantees,
    supersede-Guarantees, fold_time-Guarantees,
  )

  start_generation-Guarantees : (g : Generation) → Guarantees (start_generation env now g)
  unfolding start_generation
  start_generation-Guarantees g = search connection_rules depth 12

  pub schedule_generation-Guarantees : (g : Generation) → Guarantees (schedule_generation env now g)
  unfolding schedule_generation
  schedule_generation-Guarantees g = search (connection_rules, start_generation-Guarantees) depth 12

  resume_if_waiting-Guarantees : Guarantees (resume_if_waiting env now)
  unfolding resume_if_waiting
  resume_if_waiting-Guarantees = search connection_rules depth 12

  reply_if_due-Guarantees : (g : Generation) → Guarantees (reply_if_due env now g)
  unfolding reply_if_due
  reply_if_due-Guarantees g = search (connection_rules, schedule_generation-Guarantees) depth 12

  pub attach-Guarantees : (transport : ℕ) (g : Generation) → Guarantees (attach env now transport g)
  unfolding attach
  attach-Guarantees transport g =
      search (connection_rules, resume_if_waiting-Guarantees, reply_if_due-Guarantees) depth 12

  lose_connection-Guarantees : Guarantees (lose_connection env now)
  unfolding lose_connection
  lose_connection-Guarantees = search connection_rules depth 12

  pub on_detach-Guarantees : (transport : ℕ) → Guarantees (on_detach env now transport)
  unfolding on_detach
  on_detach-Guarantees transport = search (connection_rules, lose_connection-Guarantees) depth 12

  pub recover_after_restart-Guarantees : Guarantees (recover_after_restart env now)
  unfolding recover_after_restart
  recover_after_restart-Guarantees = search connection_rules depth 14
