-- ===== src/Access/Identity/Laws.antt =====
-- What every identity that is accepted satisfies.
use conversa_forge.Prelude.{
  ℕ, ◌≤◌, ◌≡◌, refl, Bool, true, false, List, Option, none, some, is_empty, Text, trim, length,
  length-take, arith,
}
use conversa_forge.Access.Identity.{
  IdentityMode, anonymous, identity_needs_email, identity_needs_name, IdentityResult, identified,
  rejected, invalid_email, is_present, email_domain_allowed, wants_email, with_address,
  validate_identity, normal_name, given,
}

abbrev pub name_length : Option Text → ℕ
name_length none = 0
name_length (some s) = length s

module _ (to_lower : Text → Text) (parse_email : Text → Option Text) where
  -- The name and the address are there where they are asked for, the address is of an allowed
  -- domain, and what is not asked for is not kept.
  pub record IsAcceptable (mode : IdentityMode) (allowed : List Text) (require_email : Bool)
      (who address : Option Text) : Type 0 where
    pub named : identity_needs_name mode ≡ true → is_present who ≡ true
    pub short_name : name_length who ≤ 120
    pub reachable :
        wants_email to_lower parse_email mode allowed require_email ≡ true
        → is_present address ≡ true
    pub of_domain :
        (a : Text) → address ≡ some a → email_domain_allowed to_lower parse_email a allowed ≡ true
    pub no_address :
        wants_email to_lower parse_email mode allowed require_email ≡ false → address ≡ none
    pub nameless : mode ≡ anonymous → who ≡ none

  normal_name-short : (who : Option Text) → name_length (normal_name to_lower parse_email who) ≤ 120
  normal_name-short none = omega arith
  normal_name-short (some s) = ground (arith, length-take 120 (trim s))

  allowed-none :
      (a : Text) (allowed : List Text)
      → is_empty allowed ≡ true
      → email_domain_allowed to_lower parse_email a allowed ≡ true
  unfolding email_domain_allowed
  allowed-none a allowed h = rw h refl

  with_address-IsAcceptable :
      (mode : IdentityMode) (allowed : List Text) (require_email : Bool)
      (who address who' address' : Option Text)
      → name_length who ≤ 120
      → with_address to_lower parse_email mode allowed require_email who address
        ≡ identified who' address'
      → IsAcceptable mode allowed require_email who' address'
  unfolding with_address identity_needs_name identity_needs_email
  with_address-IsAcceptable mode allowed require_email who address who' address' short e = record {
    named = λ h. ground (arith, e, h);
    short_name = ground (arith, e, short);
    reachable = λ h. ground (arith, e, h);
    of_domain = λ a h. ground (arith, e, h, allowed-none a allowed);
    no_address = λ h. ground (arith, e, h);
    nameless = λ h. ground (arith, e, h);
  }

  -- Every identity that is accepted has the name and the address that are asked for, an address only of
  -- the allowed domains, a name of at most 120 characters, and nothing that is not asked for.
  pub validate_identity-IsAcceptable :
      (mode : IdentityMode) (who address : Option Text) (allowed : List Text) (require_email : Bool)
      (who' address' : Option Text)
      → validate_identity to_lower parse_email mode who address allowed require_email
        ≡ identified who' address'
      → IsAcceptable mode allowed require_email who' address'
  unfolding validate_identity
  validate_identity-IsAcceptable mode who address allowed require_email who' address' e =
      by_given (given to_lower parse_email address) e
    where
      by_parse :
          (p : Option Text)
          → (elim p as (λ x. IdentityResult) [
            | none ↦ rejected invalid_email
            | some normal ↦
                with_address to_lower parse_email mode allowed require_email
                  (normal_name to_lower parse_email who)
                  (some normal)
          ])
            ≡ identified who' address'
          → IsAcceptable mode allowed require_email who' address'
      by_parse none h = absurd (ground (arith, h))
      by_parse (some normal) h =
          with_address-IsAcceptable mode allowed require_email
            (normal_name to_lower parse_email who) (some normal) who' address'
            (normal_name-short who) h

      by_given :
          (g : Option Text)
          → (elim g as (λ x. IdentityResult) [
            | none ↦
                with_address to_lower parse_email mode allowed require_email
                  (normal_name to_lower parse_email who)
                  none
            | some raw ↦ elim (parse_email raw) [
              | none ↦ rejected invalid_email
              | some normal ↦
                  with_address to_lower parse_email mode allowed require_email
                    (normal_name to_lower parse_email who)
                    (some normal)
            ]
          ])
            ≡ identified who' address'
          → IsAcceptable mode allowed require_email who' address'
      by_given none h =
          with_address-IsAcceptable mode allowed require_email
            (normal_name to_lower parse_email who) none who' address' (normal_name-short who) h
      by_given (some raw) h = by_parse (parse_email raw) h
