-- ===== src/Engine/Exec.antt =====
-- The methods of the engine as actions: each takes the machine and returns the machine with a value
-- or with the exception that it threw. What was written before a throw stays written.
use conversa_forge.Prelude.{◌≡◌, ap, Bool, Text, List, ◌++◌, [], ◌∷◌, none, some}
use conversa_forge.Session.{SessionState}
use conversa_forge.Engine.State.{
  Machine, SessionEngine, World, ServerMessage, error_message, UsageEntry, RuntimeState, UsageEntry,
}

pub data Fault : Type 0 where
  invalid_transition concurrent_change : SessionState → SessionState → Fault
  conflict not_found : Fault

pub data Result {ℓ} (A : Type ℓ) : Type ℓ where
  ok : A → Result A
  err : Fault → Result A

abbrev pub Exec : Type 0 → Type 0
Exec A = Machine → Result A × Machine

abbrev pub proceed : {A B : Type 0} → Result A × Machine → (A → Exec B) → Result B × Machine
proceed (ok a, m) f = f a m
proceed (err e, m) f = (err e, m)

infixl 5 ◌>>=◌ ◌>>◌
abbrev pub ◌>>=◌ : {A B : Type 0} → Exec A → (A → Exec B) → Exec B
◌>>=◌ act f m = proceed (act m) f

abbrev pub ◌>>◌ : {B : Type 0} → Exec (Unit {0}) → Exec B → Exec B
◌>>◌ act next m = proceed (act m) (λ _. next)

abbrev pub pure : {A : Type 0} → A → Exec A
pure a m = (ok a, m)

abbrev pub done : Exec (Unit {0})
done m = (ok tt, m)

abbrev pub throw : {A : Type 0} → Fault → Exec A
throw e m = (err e, m)

abbrev pub get : Exec Machine
get m = (ok m, m)

abbrev pub modify : (Machine → Machine) → Exec (Unit {0})
modify f m = (ok tt, f m)

-- Writes to the fields of the engine, of its runtime state, and of the world.
abbrev pub on_engine : (SessionEngine → SessionEngine) → Machine → Machine
on_engine f m = record m { engine = f m.engine }

abbrev pub on_runtime : (RuntimeState → RuntimeState) → Machine → Machine
on_runtime f m = record m { engine = record m.engine { runtime = f m.engine.runtime } }

abbrev pub on_world : (World → World) → Machine → Machine
on_world f m = record m { world = f m.world }

abbrev pub on_ledger : (List UsageEntry → List UsageEntry) → Machine → Machine
on_ledger f m = record m { world = record m.world { ledger = f m.world.ledger } }

-- `send` reaches the attached transport, if there is one.
unfoldable pub send : ServerMessage → Machine → Machine
send msg m =
    on_world
      (λ w. record w {
        sent = elim m.transport [ none ↦ w.sent | some t ↦ w.sent ++ (t, msg) ∷ [] ];
      })
      m

unfoldable pub error : Text → Bool → Machine → Machine
unfolding send
error code fatal m = send (error_message code fatal) m

pub proceed_of_ok :
    {A B : Type 0} (p : Result A × Machine) (f : A → Exec B) (a : A)
    → p.0 ≡ ok a
    → proceed p f ≡ f a p.1
proceed_of_ok (r, m) f a e = ap (λ x. proceed (x, m) f) e
