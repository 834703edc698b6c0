-- ===== src/Access/Links/Laws.antt =====
-- The uses of a link are counted exactly and never exceed its maximum.
use conversa_forge.Prelude.{
  ℕ, ◌+◌, ◌≤◌, ◌≡◌, ◌↔◌, ◌⊎◌, true, List, [], ◌∷◌, All, none, some, is_some, arith,
}
use conversa_forge.Access.Links.{
  ShareLink, multi_use, active, link_status, assert_link_active, consume, give_back, update,
  updated_max_uses, revoke, LinkUse, LinkEvent, consumes, creates, fails, revokes, updates, on_link,
  on_events,
}

-- The conditional update takes a use exactly where the status that the creator sees is active, and
-- there alone `assertLinkActive` lets a participant pass.
pub consume_iff :
    (l : ShareLink) (now : ℕ)
    → ((is_some (consume l now) ≡ true) ↔ (link_status l now ≡ active))
      × ((assert_link_active l now ≡ none) ↔ (link_status l now ≡ active))
unfolding consume link_status assert_link_active
consume_iff l now = ground arith

-- What holds of a link whose maximum is `limit`: every use is held by a start or was spent on a session, and
-- there are at most `limit`.
pub record IsWithin (limit : ℕ) (u : LinkUse) : Type 0 where
  pub counted : u.link.use_count ≡ u.starting + u.sessions
  pub maximum : u.link.max_uses ≡ some limit
  pub once : (u.link.mode ≡ multi_use) ⊎ (limit ≡ 1)
  pub bounded : u.link.use_count ≤ limit

-- A change that leaves the mode and the maximum alone.
abbrev pub KeepsMaximum : LinkEvent → Type 0
KeepsMaximum (updates now input) = (input.mode ≡ none) × (input.max_uses ≡ none)
KeepsMaximum _ = Unit

on_link-IsWithin :
    (limit : ℕ) (e : LinkEvent) (u : LinkUse)
    → KeepsMaximum e
    → IsWithin limit u
    → IsWithin limit (on_link e u)
unfolding on_link consume give_back revoke update updated_max_uses
on_link-IsWithin limit (consumes now) u keeps h = record {
  counted = ground (arith, h.counted, h.maximum, h.bounded);
  maximum = ground (arith, h.counted, h.maximum, h.bounded);
  once = ground (arith, h.once);
  bounded = ground (arith, h.counted, h.maximum, h.bounded);
}
on_link-IsWithin limit creates u keeps h = record {
  counted = ground (arith, h.counted);
  maximum = ground (arith, h.maximum);
  once = ground (arith, h.once);
  bounded = ground (arith, h.bounded);
}
on_link-IsWithin limit fails u keeps h = record {
  counted = ground (arith, h.counted);
  maximum = ground (arith, h.maximum);
  once = ground (arith, h.once);
  bounded = ground (arith, h.bounded);
}
on_link-IsWithin limit (revokes now) u keeps h = record {
  counted = ground (arith, h.counted);
  maximum = ground (arith, h.maximum);
  once = ground (arith, h.once);
  bounded = ground (arith, h.bounded);
}
on_link-IsWithin limit (updates now input) u keeps h = record {
  counted = ground (arith, h.counted);
  maximum = ground (arith, h.maximum, h.once, keeps.0, keeps.1);
  once = ground (arith, h.once, keeps.0, keeps.1);
  bounded = ground (arith, h.bounded);
}

-- From a link whose count is exact and within its maximum: however starts consume, spend and give
-- back uses, and the creator revokes the link or changes what is not its mode and maximum, at most
-- as many sessions are made or being started as the maximum allows, and the count of uses is the
-- number of them.
pub on_events-IsWithin :
    (limit : ℕ) (es : List LinkEvent) (u : LinkUse)
    → All KeepsMaximum es
    → IsWithin limit u
    → let u' = on_events es u in
      (u'.starting + u'.sessions ≤ limit) × (u'.link.use_count ≡ u'.starting + u'.sessions)
unfolding on_events
on_events-IsWithin limit [] u keeps h = (omega (arith, h.counted, h.bounded), h.counted)
on_events-IsWithin limit (e ∷ es) u keeps h =
    on_events-IsWithin limit es (on_link e u) keeps.1 (on_link-IsWithin limit e u keeps.0 h)
