-- ===== src/Engine/Tasks/Laws.antt =====
-- What holds of a session whichever engines work on it and however their tasks interleave.
use conversa_forge.Prelude.{ℕ, ◌≡◌, sym, ap, true, Option, none, some}
use mathlib.Core.Path.{subst}
use conversa_forge.Session.{is_terminal}
use conversa_forge.Session.Reach.{Reach-terminal}
use conversa_forge.Engine.State.{Env, Session}
use conversa_forge.Engine.Guarantee.{
  Guarantee, Guarantee-refl, Guarantee-trans, Guarantees, IsAnnouncedOnce, RowReach, state_of,
}
use conversa_forge.Engine.Speech.Laws.{abort_generation-Guarantees}
use conversa_forge.Engine.Ending.Laws.{
  complete-Guarantees, close_session_now-Guarantees, abandon-Guarantees, fail-Guarantees,
  begin_agent_ending-Guarantees,
}
use conversa_forge.Engine.Control.Laws.{
  record_consent-Guarantees, on_start-Guarantees, on_control-Guarantees, on_playback-Guarantees,
  on_generation_error-Guarantees,
}
use conversa_forge.Engine.Connection.Laws.{
  attach-Guarantees, on_detach-Guarantees, schedule_generation-Guarantees,
  recover_after_restart-Guarantees,
}
use conversa_forge.Engine.Participant.Laws.{
  on_speaking-Guarantees, on_participant_final-Guarantees, resume_after_false_barge_in-Guarantees,
}
use conversa_forge.Engine.Timer.Laws.{tick-Guarantees}
use conversa_forge.Engine.Tasks.{
  speaking, saying, false_barge_in, ticking, Task, attaching, detaching, consenting, starting,
  controlling, playing, replying, failing_to_reply, interrupting, closing_session, agent_ending,
  completing, recovering, abandoning, failing, perform, System, run_task, Step, build, run, Steps,
  stop, then,
}

pub perform-Guarantees : (env : Env) (now : ℕ) (t : Task) → Guarantees (perform env now t)
unfolding perform
perform-Guarantees env now (attaching transport g) = attach-Guarantees env now transport g
perform-Guarantees env now (detaching transport) = on_detach-Guarantees env now transport
perform-Guarantees env now (consenting analysis) = record_consent-Guarantees env now analysis
perform-Guarantees env now (starting quota id) = on_start-Guarantees env now quota id
perform-Guarantees env now (controlling action id) = on_control-Guarantees env now action id
perform-Guarantees env now (playing id event) = on_playback-Guarantees env now id event
perform-Guarantees env now (replying g) = schedule_generation-Guarantees env now g
perform-Guarantees env now (failing_to_reply g) = on_generation_error-Guarantees env now g
perform-Guarantees env now (interrupting reason) = abort_generation-Guarantees env now reason
perform-Guarantees env now (closing_session id reason who) =
    close_session_now-Guarantees env now id reason who
perform-Guarantees env now (agent_ending id reason c spoken) =
    begin_agent_ending-Guarantees env now id reason c spoken
perform-Guarantees env now (speaking value) = on_speaking-Guarantees env now value
perform-Guarantees env now (saying msg fresh_id closing_id g) =
    on_participant_final-Guarantees env now msg fresh_id closing_id g
perform-Guarantees env now (false_barge_in g) = resume_after_false_barge_in-Guarantees env now g
perform-Guarantees env now (ticking timer_running closing_id g) =
    tick-Guarantees env now timer_running closing_id g
perform-Guarantees env now completing = complete-Guarantees env now
perform-Guarantees env now recovering = recover_after_restart-Guarantees env now
perform-Guarantees env now (abandoning reason) = abandon-Guarantees env now reason
perform-Guarantees env now (failing code) = fail-Guarantees env now code

Step-Guarantee : {env : Env} {s s' : System} → Step env s s' → Guarantee s.world s'.world
unfolding run_task
Step-Guarantee (build s e stored) = Guarantee-refl s.world
Step-Guarantee {env} (run s e k now t found) =
    perform-Guarantees env now t (record { engine = e; world = s.world })

pub steps-Guarantee : {env : Env} {s s' : System} → Steps env s s' → Guarantee s.world s'.world
steps-Guarantee {s = s} stop = Guarantee-refl s.world
steps-Guarantee (then before last) = Guarantee-trans (steps-Guarantee before) (Step-Guarantee last)

-- Whatever engines run whatever tasks in whatever order on one session, its stored row stays and
-- its state has moved along transitions of the table.
pub steps-RowReach : {env : Env} {s s' : System} → Steps env s s' → RowReach s.world.db s'.world.db
steps-RowReach h = (steps-Guarantee h).path

RowReach-ended :
    (r : Session) (o : Option Session)
    → is_terminal r.state ≡ true
    → RowReach (some r) o
    → state_of o ≡ some r.state
RowReach-ended r none h p = absurd p
RowReach-ended r (some r') h p = ap some (sym (Reach-terminal h p))

-- A session whose stored row has ended stays stored, in the state it ended in, whatever tasks run on
-- it.
pub steps_keep_end :
    {env : Env} {s s' : System} (r : Session)
    → Steps env s s'
    → s.world.db ≡ some r
    → is_terminal r.state ≡ true
    → state_of s'.world.db ≡ some r.state
steps_keep_end {s' = s'} r h stored ended =
    RowReach-ended r s'.world.db ended
      (subst (λ o. RowReach o s'.world.db) stored (steps-RowReach h))

-- Whatever engines run whatever tasks on a session, its end is announced to the rest of the program
-- at most once in all, and not while the stored session has not ended, if
-- so it was when they began.
pub steps-IsAnnouncedOnce :
    {env : Env} {s s' : System}
    → Steps env s s'
    → IsAnnouncedOnce s.world
    → IsAnnouncedOnce s'.world
steps-IsAnnouncedOnce h = (steps-Guarantee h).announced_once
