-- ===== src/Engine/Timer/Laws.antt =====
-- The guarantee of the timer.
use conversa_forge.Prelude.{ℕ, Bool, List, [], ◌∷◌, Option, none, some, Text, refl}
use conversa_forge.Engine.State.{
  Env, Generation, DeferredClose, TimedAction, nudge, wrap_up, end_session, TimedInstruction,
}
use conversa_forge.Engine.Exec.{Exec, modify}
use conversa_forge.Engine.Guarantee.{Guarantees, Guarantee-of_state, guarantee_rules}
use conversa_forge.Engine.Transition.Laws.{transition-Guarantees}
use conversa_forge.Engine.Ending.Laws.{
  save_runtime_state-Guarantees, complete-Guarantees, close_session_now-Guarantees,
}
use conversa_forge.Engine.Connection.Laws.{schedule_generation-Guarantees}
use conversa_forge.Engine.Participant.Laws.{flush_deferred-Guarantees}
use conversa_forge.Engine.Timer.{
  request_close, add_instruction, add_notice, fire, fire_due, warn_of_end, cap, check_in,
  close_or_check_in, tick_active, beat, time_out, tick,
}

module _ (env : Env) (now : ℕ) where
  request_close-Guarantees :
      (reason ended_by : Text) (defer : ℕ)
      → Guarantees (modify (request_close env now reason ended_by defer))
  unfolding request_close
  request_close-Guarantees reason ended_by defer m = Guarantee-of_state m.world _ refl refl

  ruleset timer_rules = (
    guarantee_rules, request_close-Guarantees, transition-Guarantees, save_runtime_state-Guarantees,
    complete-Guarantees, close_session_now-Guarantees, schedule_generation-Guarantees,
    flush_deferred-Guarantees,
  )

  add_instruction-Guarantees : (kind words : Text) → Guarantees (add_instruction env now kind words)
  unfolding add_instruction
  add_instruction-Guarantees kind words = search timer_rules depth 12

  add_notice-Guarantees : (level message : Text) → Guarantees (add_notice env now level message)
  unfolding add_notice
  add_notice-Guarantees level message = search timer_rules depth 12

  -- The three actions of a timed instruction.
  by_action-Guarantees :
      (action : TimedAction) (x y z : Exec (Unit {0}))
      → Guarantees x
      → Guarantees y
      → Guarantees z
      → Guarantees (elim action [ end_session ↦ x | nudge ↦ y | wrap_up ↦ z ])
  by_action-Guarantees end_session x y z g h k = g
  by_action-Guarantees nudge x y z g h k = h
  by_action-Guarantees wrap_up x y z g h k = k

  fire-Guarantees : (ti : TimedInstruction) → Guarantees (fire env now ti)
  unfolding fire
  fire-Guarantees ti =
      by_action-Guarantees ti.action _ _ _ (search timer_rules depth 12)
        (search (timer_rules, add_instruction-Guarantees) depth 12)
        (search (timer_rules, add_instruction-Guarantees) depth 12)

  fire_due-Guarantees :
      (elapsed : ℕ) (tis : List TimedInstruction) → Guarantees (fire_due env now elapsed tis)
  unfolding fire_due
  fire_due-Guarantees elapsed [] = search timer_rules depth 12
  fire_due-Guarantees elapsed (ti ∷ tis) =
      let later = fire_due-Guarantees elapsed tis in
      search (timer_rules, fire-Guarantees, later) depth 14

  warn_of_end-Guarantees : (elapsed max_ms : ℕ) → Guarantees (warn_of_end env now elapsed max_ms)
  unfolding warn_of_end
  warn_of_end-Guarantees elapsed max_ms =
      search (timer_rules, add_instruction-Guarantees, add_notice-Guarantees) depth 14

  cap-Guarantees : (elapsed max_ms : ℕ) → Guarantees (cap env now elapsed max_ms)
  unfolding cap
  cap-Guarantees elapsed max_ms = search timer_rules depth 12

  check_in-Guarantees : (running : Bool) (g : Generation) → Guarantees (check_in env now running g)
  unfolding check_in
  check_in-Guarantees running g = search timer_rules depth 12

  close_or_check_in-Guarantees :
      (d : Option DeferredClose) (running : Bool) (closing_id : ℕ) (g : Generation)
      → Guarantees (close_or_check_in env now d running closing_id g)
  unfolding close_or_check_in
  close_or_check_in-Guarantees (some d) running closing_id g = search timer_rules depth 12
  close_or_check_in-Guarantees none running closing_id g =
      search (timer_rules, check_in-Guarantees) depth 12

  tick_active-Guarantees :
      (elapsed max_ms : ℕ) (running : Bool) (closing_id : ℕ) (g : Generation)
      → Guarantees (tick_active env now elapsed max_ms running closing_id g)
  unfolding tick_active
  tick_active-Guarantees elapsed max_ms running closing_id g =
      search
        (
          timer_rules, fire_due-Guarantees, warn_of_end-Guarantees, cap-Guarantees,
          close_or_check_in-Guarantees,
        )
        depth 14

  beat-Guarantees : Guarantees (beat env now)
  unfolding beat
  beat-Guarantees = search timer_rules depth 12

  time_out-Guarantees :
      (limit : ℕ) (since : Option ℕ) (reason : Text)
      → Guarantees (time_out env now limit since reason)
  unfolding time_out
  time_out-Guarantees limit since reason = search timer_rules depth 12

  pub tick-Guarantees :
      (running : Bool) (closing_id : ℕ) (g : Generation)
      → Guarantees (tick env now running closing_id g)
  unfolding tick
  tick-Guarantees running closing_id g =
      search (timer_rules, beat-Guarantees, time_out-Guarantees, tick_active-Guarantees) depth 16
