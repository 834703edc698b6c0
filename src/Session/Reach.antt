-- ===== src/Session/Reach.antt =====
-- What the table of shared/session-state.ts allows over whole histories of a session.
use conversa_forge.Prelude.{
  not, Bool-cases, ◌≡◌, refl, ◌↔◌, ◌⊎◌, inl, inr, true, false, List, [], ◌∷◌, arith,
}
use conversa_forge.Session.{
  SessionState, created, ready, connecting, active, paused, reconnecting, ending, completed, failed,
  abandoned, includes, is_terminal, can_transition,
}

-- A history of transitions that the table allows.
pub data Reach (s : SessionState) : SessionState → Type 0 where
  here : Reach s s
  next : {t u : SessionState} → Reach s t → can_transition t u ≡ true → Reach s u

-- The states from which nothing follows are the terminal ones.
pub is_terminal_iff :
    (s : SessionState) → (is_terminal s ≡ true) ↔ ((t : SessionState) → can_transition s t ≡ false)
unfolding is_terminal can_transition
is_terminal_iff created = (λ h. cc, λ f. cc (f ready))
is_terminal_iff ready = (λ h. cc, λ f. cc (f connecting))
is_terminal_iff connecting = (λ h. cc, λ f. cc (f active))
is_terminal_iff active = (λ h. cc, λ f. cc (f paused))
is_terminal_iff paused = (λ h. cc, λ f. cc (f active))
is_terminal_iff reconnecting = (λ h. cc, λ f. cc (f active))
is_terminal_iff ending = (λ h. cc, λ f. cc (f completed))
is_terminal_iff _ = (λ _ t. refl, λ _. refl)

-- Every state but the terminal ones has an edge to `failed`.
pub can_transition-failed : (s : SessionState) → can_transition s failed ≡ not (is_terminal s)
unfolding is_terminal can_transition
can_transition-failed created = refl
can_transition-failed _ = refl

-- A history that begins in a terminal state has not moved.
pub Reach-terminal : {s t : SessionState} → is_terminal s ≡ true → Reach s t → s ≡ t
Reach-terminal h here = refl
Reach-terminal {s} h (next {t} {u} r e) =
    let same : s ≡ t = Reach-terminal h r in
    let stuck : can_transition t u ≡ false = (is_terminal_iff t).0 (rw same at h) u in cc

-- The states that a session can be in once it has been active.
abbrev pub started_states : List SessionState
started_states = active ∷ paused ∷ reconnecting ∷ ending ∷ completed ∷ failed ∷ abandoned ∷ []

started-step :
    (s t : SessionState)
    → includes started_states s ≡ true
    → can_transition s t ≡ true
    → includes started_states t ≡ true
unfolding can_transition
started-step s t h e = ground arith

-- A session that has been active is never cancelled, expired or set back to before its start.
pub started_stays :
    {s t : SessionState}
    → includes started_states s ≡ true
    → Reach s t
    → includes started_states t ≡ true
started_stays h here = h
started_stays h (next {t} {u} r e) = started-step t u (started_stays h r) e

before_completed : (s t : SessionState) → can_transition s completed ≡ true → s ≡ ending
unfolding can_transition
before_completed s t h = ground arith

-- The history is in `u` at its end or at some point before.
abbrev pub Passes : SessionState → {s t : SessionState} → Reach s t → Type 0
Passes u {s} here = s ≡ u
Passes u (next {u = v} r e) = Passes u r ⊎ (v ≡ u)

Passes-end : {s t : SessionState} (r : Reach s t) (u : SessionState) → t ≡ u → Passes u r
Passes-end here u e = e
Passes-end (next r h) u e = inr e

-- Every history that ends in `completed` begins there or passes `ending`.
pub Reach-completed :
    {s t : SessionState} (r : Reach s t) → t ≡ completed → (s ≡ completed) ⊎ Passes ending r
Reach-completed here e = inl e
Reach-completed (next {t} {u} r h) e =
    inr (inl (Passes-end r ending (before_completed t u (rw e at h))))

before_abandoned :
    (s : SessionState) → can_transition s abandoned ≡ true → (s ≡ paused) ⊎ (s ≡ reconnecting)
unfolding can_transition
before_abandoned s h = ground arith

pub Reach-trans : {s t u : SessionState} → Reach s t → Reach t u → Reach s u
Reach-trans p here = p
Reach-trans p (next q e) = next (Reach-trans p q) e

-- An edge never leaves a terminal state.
pub not_terminal_of_edge : (s t : SessionState) → can_transition s t ≡ true → is_terminal s ≡ false
not_terminal_of_edge s t e = elim (Bool-cases (is_terminal s)) [
  | inl h ↦ let stuck = (is_terminal_iff s).0 h t in cc
  | inr h ↦ h
]
