-- ===== src/Engine/Guarantee.antt =====
-- What every task of every engine guarantees to the others that share the session's row: the row's
-- state moves along the table of shared/session-state.ts, and the end is announced at most once.
-- The guarantee is a preorder on worlds, so it passes through sequences and interleavings.
use conversa_forge.Prelude.{
  ℕ, suc, ◌≤◌, ◌≡◌, if◌then◌else◌, refl, sym, ap, Text, ◌⊎◌, Bool, true, false, List, [], ◌∷◌, ◌++◌,
  ◌+◌, Option, none, some, arith,
}
use mathlib.Core.Option
use mathlib.Core.Path.{subst, subst₂}
use conversa_forge.Session.{SessionState, is_terminal, can_transition}
use conversa_forge.Session.Reach.{Reach, here, next, Reach-trans, not_terminal_of_edge}
use conversa_forge.Engine.State.{
  Session, SessionEngine, RuntimeState, ServerMessage, UsageEntry, DomainEvent, session_started,
  session_terminal, World, Machine,
}
use conversa_forge.Engine.Exec.{
  Exec, Result, ok, err, proceed, pure, get, modify, send, error, on_engine, on_runtime, on_ledger,
  ◌>>=◌, ◌>>◌,
}

-- The number of times that the end of the session was announced.
abbrev pub announced : List DomainEvent → ℕ
announced [] = 0
announced (session_started ∷ es) = announced es
announced (session_terminal s ∷ es) = suc (announced es)

pub announced-append :
    (es fs : List DomainEvent) → announced (es ++ fs) ≡ announced es + announced fs
announced-append [] fs = omega arith
announced-append (session_started ∷ es) fs = announced-append es fs
announced-append (session_terminal s ∷ es) fs = omega (arith, announced-append es fs)

-- The stored row stays, and its state is reached by transitions of the table.
abbrev pub RowReach : Option Session → Option Session → Type 0
RowReach none none = Unit
RowReach (some r) (some r') = Reach r.state r'.state
RowReach _ _ = ⊥

abbrev pub IsOpen : Option Session → Type 0
IsOpen none = ⊥
IsOpen (some r) = is_terminal r.state ≡ false

-- At most one announcement, and none while the stored session has not ended.
pub record IsAnnouncedOnce (w : World) : Type 0 where
  pub at_most_once : announced w.events ≤ 1
  pub not_while_open : IsOpen w.db → announced w.events ≡ 0

pub record Guarantee (w w' : World) : Type 0 where
  pub path : RowReach w.db w'.db
  pub announced_once : IsAnnouncedOnce w → IsAnnouncedOnce w'

RowReach-refl : (o : Option Session) → RowReach o o
RowReach-refl none = tt
RowReach-refl (some r) = here

RowReach-trans : (a b c : Option Session) → RowReach a b → RowReach b c → RowReach a c
RowReach-trans none none none p q = tt
RowReach-trans (some a) (some b) (some c) p q = Reach-trans p q
RowReach-trans none (some b) c p q = absurd p
RowReach-trans (some a) none c p q = absurd p
RowReach-trans none none (some c) p q = absurd q
RowReach-trans (some a) (some b) none p q = absurd q

pub Guarantee-refl : (w : World) → Guarantee w w
Guarantee-refl w = record { path = RowReach-refl w.db; announced_once = λ h. h }

pub Guarantee-trans : {u v w : World} → Guarantee u v → Guarantee v w → Guarantee u w
Guarantee-trans {u} {v} {w} g h = record {
  path = RowReach-trans u.db v.db w.db g.path h.path;
  announced_once = λ once. h.announced_once (g.announced_once once);
}

-- A step that leaves the row's state and the announcements alone.
pub Guarantee-of_eq : (w w' : World) → w'.db ≡ w.db → w'.events ≡ w.events → Guarantee w w'
Guarantee-of_eq w w' same_db same_events = record {
  path = rw same_db (RowReach-refl w.db);
  announced_once = λ once. record {
    at_most_once = rw same_events once.at_most_once;
    not_while_open = λ h. rw same_events (once.not_while_open (rw same_db at h));
  };
}

-- A step along an edge of the table, which announces the end at most where it reaches it.
pub Guarantee-of_edge :
    (w w' : World) (row row' : Session)
    → w.db ≡ some row
    → w'.db ≡ some row'
    → can_transition row.state row'.state ≡ true
    → (w'.events ≡ w.events)
      ⊎ ((is_terminal row'.state ≡ true)
          × (w'.events ≡ w.events ++ session_terminal row'.state ∷ []))
    → Guarantee w w'
Guarantee-of_edge w w' row row' stored stored' edge events' = record {
  path = subst₂ RowReach (sym stored) (sym stored') (next here edge);
  announced_once = λ once. record {
    at_most_once = ground (arith, none_yet once, announced-append w.events end_of);
    not_while_open = λ still_open.
        let not_ended : is_terminal row'.state ≡ false = subst IsOpen stored' still_open in
        ground (arith, none_yet once);
  };
}
  where
    end_of : List DomainEvent
    end_of = session_terminal row'.state ∷ []

    none_yet : IsAnnouncedOnce w → announced w.events ≡ 0
    none_yet once =
        once.not_while_open
          (subst IsOpen (sym stored) (not_terminal_of_edge row.state row'.state edge))

-- Actions all of whose runs, thrown or not, give the guarantee.
abbrev pub Guarantees : {A : Type 0} → Exec A → Type 0
Guarantees act = (m : Machine) → Guarantee m.world (act m).1.world

pub bind-Guarantees :
    {A B : Type 0} (act : Exec A) (f : A → Exec B)
    → Guarantees act
    → ((a : A) → Guarantees (f a))
    → Guarantees (act >>= f)
bind-Guarantees {A} {B} act f g h m = after (act m) (g m)
  where
    after :
        (r : Result A × Machine)
        → Guarantee m.world r.1.world
        → Guarantee m.world (proceed r f).1.world
    after (ok a, m') k = Guarantee-trans k (h a m')
    after (err e, m') k = k

pub then-Guarantees :
    {B : Type 0} (act : Exec (Unit {0})) (rest : Exec B)
    → Guarantees act
    → Guarantees rest
    → Guarantees (act >> rest)
then-Guarantees act rest g h = bind-Guarantees act (λ _. rest) g (λ _. h)

pub get-Guarantees :
    {B : Type 0} (f : Machine → Exec B)
    → ((m : Machine) → Guarantees (f m))
    → Guarantees (get >>= f)
get-Guarantees f h m = h m m

-- A step that leaves the row's state and the announcements alone.
abbrev pub state_of : Option Session → Option SessionState
state_of none = none
state_of (some r) = some r.state

pub RowReach-of_state : (a b : Option Session) → state_of b ≡ state_of a → RowReach a b
RowReach-of_state none none e = tt
RowReach-of_state (some a) (some b) e =
    let same : a.state ≡ b.state = cc in subst (Reach a.state) same here
RowReach-of_state none (some b) e = cc
RowReach-of_state (some a) none e = cc

pub IsOpen-of_state : (a b : Option Session) → state_of b ≡ state_of a → IsOpen b → IsOpen a
IsOpen-of_state none none e h = h
IsOpen-of_state (some a) (some b) e h =
    let same : b.state ≡ a.state = cc in subst (λ s. is_terminal s ≡ false) same h
IsOpen-of_state none (some b) e h = cc
IsOpen-of_state (some a) none e h = cc

pub Guarantee-of_state :
    (w w' : World)
    → state_of w'.db ≡ state_of w.db
    → announced w'.events ≡ announced w.events
    → Guarantee w w'
Guarantee-of_state w w' same same_events = record {
  path = RowReach-of_state w.db w'.db same;
  announced_once = λ once. record {
    at_most_once = ground (arith, once.at_most_once);
    not_while_open = λ h. ground (arith, once.not_while_open (IsOpen-of_state w.db w'.db same h));
  };
}

-- The rules by which actions are put together.
pub pure-Guarantees : {A : Type 0} (a : A) → Guarantees (pure a)
pure-Guarantees a m = Guarantee-refl m.world

pub modify-Guarantees :
    (f : Machine → Machine)
    → ((m : Machine) → state_of (f m).db ≡ state_of m.db)
    → ((m : Machine) → announced (f m).events ≡ announced m.events)
    → Guarantees (modify f)
modify-Guarantees f same same_events m = Guarantee-of_state m.world _ (same m) (same_events m)

pub if-Guarantees :
    {A : Type 0} (b : Bool) (x y : Exec A)
    → Guarantees x
    → Guarantees y
    → Guarantees (if b then x else y)
if-Guarantees true x y g h = g
if-Guarantees false x y g h = h

pub if-Guarantee :
    {A : Type 0} (w : World) (b : Bool) (p q : Result A × Machine)
    → Guarantee w p.1.world
    → Guarantee w q.1.world
    → Guarantee w (if b then p else q).1.world
if-Guarantee w true p q g h = g
if-Guarantee w false p q g h = h

-- Writes to the engine's own fields are seen by nobody else.
pub on_engine-Guarantees : (f : SessionEngine → SessionEngine) → Guarantees (modify (on_engine f))
on_engine-Guarantees f m = Guarantee-of_state m.world _ refl refl

pub on_runtime-Guarantees : (f : RuntimeState → RuntimeState) → Guarantees (modify (on_runtime f))
on_runtime-Guarantees f m = Guarantee-of_state m.world _ refl refl

pub on_ledger-Guarantees :
    (f : List UsageEntry → List UsageEntry) → Guarantees (modify (on_ledger f))
on_ledger-Guarantees f m = Guarantee-of_state m.world _ refl refl

pub send-Guarantees : (msg : ServerMessage) → Guarantees (modify (send msg))
unfolding send
send-Guarantees msg m = Guarantee-of_state m.world _ refl refl

pub error-Guarantees : (code : Text) (fatal : Bool) → Guarantees (modify (error code fatal))
unfolding error
error-Guarantees code fatal m = Guarantee-of_state m.world _ refl refl

pub state_of-map :
    (f : Session → Session) (o : Option Session)
    → ((s : Session) → (f s).state ≡ s.state)
    → state_of (Option.map f o) ≡ state_of o
state_of-map f none h = refl
state_of-map f (some s) h = ap some (h s)

pub ruleset guarantee_rules = (
  bind-Guarantees, then-Guarantees, get-Guarantees, if-Guarantees, pure-Guarantees,
  on_ledger-Guarantees, on_engine-Guarantees, on_runtime-Guarantees, send-Guarantees,
  error-Guarantees,
)
