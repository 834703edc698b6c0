-- ===== src/Access/Start/Laws.antt =====
-- Whom `startFromLink` admits.
use conversa_forge.Prelude.{
  ℕ, ◌+◌, ◌<◌, ◌≡◌, refl, sym, ◌∙◌, Bool, true, false, Option, none, some, is_some, Text, arith,
}
use conversa_forge.Access.Identity.{IdentityResult, identified, rejected, is_present}
use conversa_forge.Access.Identity.Laws.{IsAcceptable, validate_identity-IsAcceptable}
use conversa_forge.Access.Links.{ShareLink, active, link_status, consume}
use conversa_forge.Access.Start.{
  GuessCounts, PasscodeResult, passes, too_many, required, invalid, StartChecks, StartBody,
  admitted, attempt_limit, take_use, under_lock, with_identity, on_identity, on_passcode,
  start_from_link, reserve, conclude, check_passcode,
}

module _ (to_lower : Text → Text) (parse_email : Text → Option Text) where
  -- The conditions on a start that is admitted.
  pub record IsEntitled (k : StartChecks) (body : StartBody) (l : ShareLink) (c : GuessCounts)
      (now : ℕ) (l' : ShareLink) (c' : GuessCounts) (name email : Option Text) : Type 0 where
    pub link_active : link_status l now ≡ active
    pub use_taken : l' ≡ record l { use_count = l.use_count + 1 }
    pub acceptable :
        IsAcceptable to_lower parse_email k.identity_mode k.allowed_domains
          (is_some k.link_limit)
          name
          email
    pub attempts_left :
        (limit : ℕ) (a : Text)
        → attempt_limit k ≡ some limit
        → email ≡ some a
        → k.sessions_of a < limit
    pub passcode_right :
        k.has_passcode ≡ true → (is_present body.passcode ≡ true) × (k.verifies ≡ true)
    pub guess_free : c' ≡ c

  take_use_lem :
      (l : ShareLink) (c : GuessCounts) (now : ℕ) (name email : Option Text) (l' : ShareLink)
      (c' : GuessCounts) (name' email' : Option Text)
      → take_use l c now name email ≡ admitted l' c' name' email'
      → (link_status l now ≡ active)
        × (l' ≡ record l { use_count = l.use_count + 1 })
        × (c' ≡ c)
        × (name' ≡ name)
        × (email' ≡ email)
  unfolding take_use consume link_status
  take_use_lem l c now name email l' c' name' email' e = (
    ground (arith, e),
    ground (arith, e),
    ground (arith, e),
    ground (arith, e),
    ground (arith, e),
  )

  -- What is left to show once the passcode is checked.
  record IsGranted (k : StartChecks) (l : ShareLink) (c : GuessCounts) (now : ℕ) (l' : ShareLink)
      (c' : GuessCounts) (name email : Option Text) : Type 0 where
    link_active : link_status l now ≡ active
    use_taken : l' ≡ record l { use_count = l.use_count + 1 }
    acceptable :
        IsAcceptable to_lower parse_email k.identity_mode k.allowed_domains
          (is_some k.link_limit)
          name
          email
    attempts_left :
        (limit : ℕ) (a : Text)
        → attempt_limit k ≡ some limit
        → email ≡ some a
        → k.sessions_of a < limit
    guess_free : c' ≡ c

  with_identity_lem :
      (k : StartChecks) (l : ShareLink) (c : GuessCounts) (now : ℕ) (name email : Option Text)
      (l' : ShareLink) (c' : GuessCounts) (name' email' : Option Text)
      → with_identity k l c now name email ≡ admitted l' c' name' email'
      → (take_use l c now name email ≡ admitted l' c' name' email')
        × ((limit : ℕ) (a : Text)
            → attempt_limit k ≡ some limit
            → email ≡ some a
            → k.sessions_of a < limit)
  unfolding with_identity under_lock
  with_identity_lem k l c now name none l' c' name' email' e =
      (e, λ limit a h h'. absurd (ground (arith, h')))
  with_identity_lem k l c now name (some email) l' c' name' email' e =
      (ground (arith, e), λ limit a h h'. ground (arith, e, h, h'))

  on_identity-IsGranted :
      (k : StartChecks) (l : ShareLink) (c : GuessCounts) (now : ℕ) (r : IdentityResult)
      (l' : ShareLink) (c' : GuessCounts) (name' email' : Option Text)
      → ((name email : Option Text)
          → r ≡ identified name email
          → IsAcceptable to_lower parse_email k.identity_mode k.allowed_domains
              (is_some k.link_limit)
              name
              email)
      → on_identity to_lower parse_email k l c now r ≡ admitted l' c' name' email'
      → IsGranted k l c now l' c' name' email'
  unfolding on_identity
  on_identity-IsGranted k l c now (rejected x) l' c' name' email' accept e =
      absurd (ground (arith, e))
  on_identity-IsGranted k l c now (identified name email) l' c' name' email' accept e =
      let (taken, left) =
        with_identity_lem k l c now name email l' c' name' email' (ground (arith, e)) in
      let (is_active, taken_use, same, same_name, same_email) =
        take_use_lem l c now name email l' c' name' email' taken in
      record {
        link_active = is_active;
        use_taken = taken_use;
        acceptable = rw same_name (rw same_email (accept name email refl));
        attempts_left = λ limit a h h'. left limit a h (sym same_email ∙ h');
        guess_free = same;
      }

  on_passcode-IsGranted :
      (k : StartChecks) (body : StartBody) (l : ShareLink) (now : ℕ) (c : GuessCounts)
      (p : PasscodeResult) (l' : ShareLink) (c' : GuessCounts) (name' email' : Option Text)
      → on_passcode to_lower parse_email k body l now (c, p) ≡ admitted l' c' name' email'
      → (p ≡ passes) × IsGranted k l c now l' c' name' email'
  unfolding on_passcode
  on_passcode-IsGranted k body l now c passes l' c' name' email' e = (
    refl,
    on_identity-IsGranted k l c now _ l' c' name' email'
        (validate_identity-IsAcceptable to_lower parse_email k.identity_mode body.name body.email
          k.allowed_domains (is_some k.link_limit))
        (ground (arith, e)),
  )
  on_passcode-IsGranted k body l now c too_many l' c' name' email' e = absurd (ground (arith, e))
  on_passcode-IsGranted k body l now c required l' c' name' email' e = absurd (ground (arith, e))
  on_passcode-IsGranted k body l now c invalid l' c' name' email' e = absurd (ground (arith, e))

  check_passcode_lem :
      (has_passcode : Bool) (guess : Option Text) (verifies : Bool) (c : GuessCounts)
      → (check_passcode has_passcode guess verifies c).1 ≡ passes
      → (has_passcode ≡ true → (is_present guess ≡ true) × (verifies ≡ true))
        × ((check_passcode has_passcode guess verifies c).0 ≡ c)
  unfolding check_passcode reserve conclude
  check_passcode_lem false guess verifies c e = (λ h. absurd (ground (arith, h)), refl)
  check_passcode_lem true guess verifies c e =
      (λ h. (ground (arith, e), ground (arith, e)), ground (arith, e))

  -- A start is admitted only by a link that is active at that time, of which it takes one use; with the
  -- passcode where there is one, which then counts as no guess; with an identity as the
  -- link asks for it; and, where attempts are limited, for an address with an attempt left.
  pub start_from_link-IsEntitled :
      (k : StartChecks) (body : StartBody) (link : Option ShareLink) (c : GuessCounts) (now : ℕ)
      (l' : ShareLink) (c' : GuessCounts) (name' email' : Option Text)
      → start_from_link to_lower parse_email k body link c now ≡ admitted l' c' name' email'
      → (l : ShareLink) × (link ≡ some l) × IsEntitled k body l c now l' c' name' email'
  unfolding start_from_link
  start_from_link-IsEntitled k body none c now l' c' name' email' e = absurd (ground (arith, e))
  start_from_link-IsEntitled k body (some l) c now l' c' name' email' e =
      let checked = check_passcode k.has_passcode body.passcode k.verifies c in
      let (passed, granted) =
        on_passcode-IsGranted k body l now checked.0 checked.1 l' c' name' email'
          (ground (arith, e)) in
      let (right, same) = check_passcode_lem k.has_passcode body.passcode k.verifies c passed in
      (
        l,
        refl,
        record {
          link_active = granted.link_active;
          use_taken = granted.use_taken;
          acceptable = granted.acceptable;
          attempts_left = granted.attempts_left;
          passcode_right = right;
          guess_free = granted.guess_free ∙ same;
        },
      )
