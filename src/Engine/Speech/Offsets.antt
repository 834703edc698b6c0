-- ===== src/Engine/Speech/Offsets.antt =====
-- The offsets that a turn is stored with.
use conversa_forge.Prelude.{ℕ, ◌+◌, ◌-◌, ◌≤◌, Option, none, some, get_or_else, arith}
use conversa_forge.Engine.State.{Session}
use conversa_forge.Engine.Speech.{norm, bounded_end, bounded_start, turn_offsets}

abbrev pub IsBefore : Option ℕ → ℕ → Type 0
IsBefore none last = Unit
IsBefore (some start) last = start ≤ last

bounded_start-IsBefore : (last : ℕ) (s : Option ℕ) → IsBefore (bounded_start last s) last
bounded_start-IsBefore last none = tt
bounded_start-IsBefore last (some s) = ground arith

bounded_end-le : (now : ℕ) (e : Option ℕ) → bounded_end now e ≤ now + 10000
bounded_end-le now none = omega arith
bounded_end-le now (some e) = ground arith

-- Whatever times a client reports, a turn is stored with a start not after its end, and an end at
-- most ten seconds after the present offset.
pub turn_offsets-bounds :
    (now : ℕ) (session : Session) (started_at ended_at : Option ℕ)
    → let (start, last) = turn_offsets now session started_at ended_at in
      IsBefore start last × (last ≤ (now - get_or_else session.started_at now) + 10000)
unfolding turn_offsets
turn_offsets-bounds now session started_at ended_at =
    let base = get_or_else session.started_at now in
    let last = bounded_end (now - base) (norm base ended_at) in
    (
      bounded_start-IsBefore last (norm base started_at),
      bounded_end-le (now - base) (norm base ended_at),
    )
