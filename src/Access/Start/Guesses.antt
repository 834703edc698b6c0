-- ===== src/Access/Start/Guesses.antt =====
-- Wrong passcodes from one network address: `checkPasscode` of several requests at once, each in
-- two steps, within one window.
use conversa_forge.Prelude.{
  ℕ, ◌+◌, ◌-◌, ◌≤◌, ltb, Bool, true, false, List, [], ◌∷◌, Option, Text, arith, if◌then◌else◌,
}
use conversa_forge.Access.Start.{GuessCounts, Reservation, verifying, reserve, conclude}

pub record Guessing : Type 0 where
  pub counts : GuessCounts
  pub in_progress : ℕ
  pub wrong : ℕ

pub data GuessEvent : Type 0 where
  arrives : Option Text → GuessEvent
  is_verified : (verifies : Bool) → GuessEvent

abbrev pub after_arrival : GuessCounts × Reservation → Guessing → Guessing
after_arrival (c, verifying) g = record g { counts = c; in_progress = g.in_progress + 1 }
after_arrival (c, _) g = record g { counts = c }

abbrev pub wrong_by : Bool → ℕ
wrong_by true = 0
wrong_by false = 1

unfoldable pub on_guess : GuessEvent → Guessing → Guessing
unfolding reserve conclude
on_guess (arrives guess) g = after_arrival (reserve guess g.counts) g
on_guess (is_verified verifies) g =
    if ltb 0 g.in_progress
    then record {
      counts = (conclude verifies g.counts).0;
      in_progress = g.in_progress - 1;
      wrong = g.wrong + wrong_by verifies;
    }
    else g

unfoldable pub on_guesses : List GuessEvent → Guessing → Guessing
unfolding on_guess
on_guesses [] g = g
on_guesses (e ∷ es) g = on_guesses es (on_guess e g)

-- The guesses that are being verified or were wrong are counted, and within the limit.
pub record IsLimited (g : Guessing) : Type 0 where
  pub counted_by_ip : g.in_progress + g.wrong ≤ g.counts.by_ip
  pub counted_by_link : g.in_progress + g.wrong ≤ g.counts.by_link
  pub bounded : g.in_progress + g.wrong ≤ 5

on_guess-IsLimited : (e : GuessEvent) (g : Guessing) → IsLimited g → IsLimited (on_guess e g)
unfolding on_guess reserve conclude
on_guess-IsLimited (arrives guess) g h = record {
  counted_by_ip = ground (arith, h.counted_by_ip);
  counted_by_link = ground (arith, h.counted_by_link);
  bounded = ground (arith, h.counted_by_ip, h.bounded);
}
on_guess-IsLimited (is_verified verifies) g h = record {
  counted_by_ip = ground (arith, h.counted_by_ip, h.bounded);
  counted_by_link = ground (arith, h.counted_by_link, h.bounded);
  bounded = ground (arith, h.bounded);
}

-- From counts that cover the guesses so far, of which at most five were wrong or are being
-- verified: however requests from one network address overlap within a window, at most five of
-- their passcodes are compared with the hash and are wrong or not decided yet.
pub on_guesses-IsLimited :
    (es : List GuessEvent) (g : Guessing)
    → IsLimited g
    → (on_guesses es g).in_progress + (on_guesses es g).wrong ≤ 5
unfolding on_guesses
on_guesses-IsLimited [] g h = h.bounded
on_guesses-IsLimited (e ∷ es) g h =
    on_guesses-IsLimited es (on_guess e g) (on_guess-IsLimited e g h)
