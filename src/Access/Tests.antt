-- ===== src/Access/Tests.antt =====
-- A one-time link with a passcode, and a start that it admits.
use conversa_forge.Prelude.{
  ◌+◌, ◌≤◌, ◌≡◌, ◌↔◌, inr, refl, true, false, List, [], ◌∷◌, Option, none, some, is_some, Text,
  trim, text, arith,
}
use conversa_forge.Access.Identity.{name_email, email_domain_allowed}
use conversa_forge.Access.Links.{
  ShareLink, one_time, active, link_status, assert_link_active, consume, LinkUse, LinkEvent,
  consumes, creates, fails, revokes, updates, on_events,
}
use conversa_forge.Access.Links.Laws.{consume_iff, on_events-IsWithin}
use conversa_forge.Access.Start.{GuessCounts, StartChecks, StartBody, start_from_link}
use conversa_forge.Access.Start.Guesses.{
  GuessEvent, arrives, is_verified, on_guesses, on_guesses-IsLimited,
}
use conversa_forge.Access.Start.Laws.{IsEntitled, start_from_link-IsEntitled}

abbrev link : ShareLink
link = record {
  mode = one_time;
  revoked_at = none;
  expires_at = some 9000;
  max_uses = some 1;
  use_count = 0;
}

abbrev same : Text → Text
same s = s

abbrev any_address : Text → Option Text
any_address s = some s

consume_iff_example :
    ((is_some (consume link 8000) ≡ true) ↔ (link_status link 8000 ≡ active))
    × ((assert_link_active link 8000 ≡ none) ↔ (link_status link 8000 ≡ active))
consume_iff_example = consume_iff link 8000

abbrev fresh_use : LinkUse
fresh_use = record { link = link; starting = 0; sessions = 0 }

abbrev events : List LinkEvent
events =
    consumes 10
    ∷ consumes 11
    ∷ fails
    ∷ updates 12 (record { mode = none; max_uses = none; expires_at = some none })
    ∷ consumes 13
    ∷ creates
    ∷ revokes 14
    ∷ consumes 15
    ∷ []

on_events-IsWithin_example :
    let u = on_events events fresh_use in
    (u.starting + u.sessions ≤ 1) × (u.link.use_count ≡ u.starting + u.sessions)
on_events-IsWithin_example =
    on_events-IsWithin 1 events fresh_use
      (tt, (tt, (tt, ((refl, refl), (tt, (tt, (tt, (tt, tt))))))))
      (record { counted = refl; maximum = refl; once = inr refl; bounded = omega arith })

abbrev guesses : List GuessEvent
guesses =
    arrives (some (1 ∷ [])) ∷ arrives (some (2 ∷ [])) ∷ is_verified false ∷ is_verified true ∷ []

on_guesses-IsLimited_example :
    let g =
      on_guesses guesses
        (record { counts = record { by_ip = 0; by_link = 40 }; in_progress = 0; wrong = 0 }) in
    g.in_progress + g.wrong ≤ 5
on_guesses-IsLimited_example =
    on_guesses-IsLimited guesses
      (record { counts = record { by_ip = 0; by_link = 40 }; in_progress = 0; wrong = 0 })
      (record { counted_by_ip = omega arith; counted_by_link = omega arith; bounded = omega arith })

abbrev checks : StartChecks
checks = record {
  ip_allowed = true;
  link_allowed = true;
  has_passcode = true;
  verifies = true;
  scenario_runs = true;
  identity_mode = name_email;
  allowed_domains = (98 ∷ []) ∷ [];
  link_limit = some 2;
  default_limit = none;
  variables_valid = true;
  lock_taken = false;
  sessions_of = λ a. 1;
}

abbrev body : StartBody
body = record { name = some (65 ∷ []); email = some (97 ∷ 64 ∷ 98 ∷ []); passcode = some (1 ∷ []) }

abbrev counts : GuessCounts
counts = record { by_ip = 2; by_link = 3 }

start_from_link-IsEntitled_example :
    (l : ShareLink) × (some link ≡ some l)
    × IsEntitled same any_address checks body l counts 8000
        (record link { use_count = 1 })
        counts
        (some (65 ∷ []))
        (some (97 ∷ 64 ∷ 98 ∷ []))
unfolding start_from_link trim email_domain_allowed text
start_from_link-IsEntitled_example =
    start_from_link-IsEntitled same any_address checks body (some link) counts 8000
      (record link { use_count = 1 }) counts (some (65 ∷ [])) (some (97 ∷ 64 ∷ 98 ∷ [])) refl
