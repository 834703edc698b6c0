-- ===== src/Access/Identity.antt =====
-- The identity that a link asks for, of backend/src/modules/access/access.util.ts.
-- `to_lower` is `String.prototype.toLowerCase`, and `parse_email` is `EmailSchema.safeParse`, the normalized address
-- where it is one.
pub mod Laws
use conversa_forge.Prelude.{
  ℕ, zero, suc, ◌-◌, ◌==◌, ◌&&◌, ◌||◌, not, min, max, Bool, true, false, List, [], ◌∷◌, ◌++◌, any,
  Option, none, some, is_some, get_or_else, is_empty, Text, text, text_eq, trim, take, drop, length,
  if◌then◌else◌,
}
use mathlib.Core.List.{reverse}

pub data IdentityMode : Type 0 where
  anonymous name email name_email : IdentityMode

unfoldable pub identity_needs_email : IdentityMode → Bool
identity_needs_email email = true
identity_needs_email name_email = true
identity_needs_email _ = false

unfoldable pub identity_needs_name : IdentityMode → Bool
identity_needs_name name = true
identity_needs_name name_email = true
identity_needs_name _ = false

abbrev pub at_sign : ℕ
at_sign = 64

-- `s.split('@')`: the parts between the signs, at least one.
abbrev pub split_into : List Text → ℕ → List Text
split_into [] c = (c ∷ []) ∷ []
split_into (part ∷ parts) c = if c == at_sign then [] ∷ part ∷ parts else (c ∷ part) ∷ parts

unfoldable pub split_at : Text → List Text
split_at [] = [] ∷ []
split_at (c ∷ s) = split_into (split_at s) c

abbrev pub last_part : List Text → Text
last_part [] = []
last_part (part ∷ []) = part
last_part (part ∷ next ∷ parts) = last_part (next ∷ parts)

unfoldable pub starts_with : Text → Text → Bool
starts_with s [] = true
starts_with [] (c ∷ p) = false
starts_with (a ∷ s) (c ∷ p) = a == c && starts_with s p

unfoldable pub ends_with : Text → Text → Bool
unfolding starts_with
ends_with s p = starts_with (reverse s) (reverse p)

-- The attempt of `split('@')` in two, as `maskEmail` reads it.
abbrev pub second_part : List Text → Text
second_part (part ∷ next ∷ parts) = next
second_part _ = []

abbrev pub first_part : List Text → Text
first_part (part ∷ parts) = part
first_part [] = []

abbrev pub repeat : ℕ → ℕ → Text
repeat c zero = []
repeat c (suc n) = c ∷ repeat c n

-- `maskEmail`
unfoldable pub mask_email : Text → Text
unfolding split_at
mask_email address =
    let parts = split_at address in
    let local = first_part parts in
    let domain = second_part parts in
    if is_empty local || is_empty domain
    then address
    else take 2 local ++ (repeat 0x2022 (max 1 (min 6 (length local - 2))) ++ (at_sign ∷ domain))

pub data IdentityError : Type 0 where
  invalid_email name_required email_required domain_not_allowed : IdentityError

pub data IdentityResult : Type 0 where
  identified : (name email : Option Text) → IdentityResult
  rejected : IdentityError → IdentityResult

-- A text that is neither missing nor empty.
abbrev pub is_present : Option Text → Bool
is_present none = false
is_present (some s) = not (is_empty s)

module _ (to_lower : Text → Text) (parse_email : Text → Option Text) where
  -- One allowed domain, which a leading `*.` opens to its subdomains.
  unfoldable pub domain_matches : Text → Text → Bool
  unfolding starts_with ends_with
  domain_matches domain allowed =
      let a = to_lower allowed in
      if starts_with a (text "*.")
      then ends_with domain (drop 1 a) || text_eq domain (drop 2 a)
      else text_eq domain a

  -- `emailDomainAllowed`
  unfoldable pub email_domain_allowed : Text → List Text → Bool
  unfolding split_at domain_matches
  email_domain_allowed address allowed =
      is_empty allowed || any (domain_matches (to_lower (last_part (split_at address)))) allowed

  -- A text that is there and not blank.
  abbrev pub given : Option Text → Option Text
  given none = none
  given (some s) = if is_empty (trim s) then none else some s

  abbrev pub normal_name : Option Text → Option Text
  normal_name input = elim (given input) [ none ↦ none | some s ↦ some (take 120 (trim s)) ]

  abbrev pub wants_email : IdentityMode → List Text → Bool → Bool
  wants_email mode allowed require_email =
      identity_needs_email mode || require_email || not (is_empty allowed)

  abbrev pub refuses_domain : List Text → Option Text → Bool
  refuses_domain allowed none = false
  refuses_domain allowed (some address) =
      not (is_empty address) && not (is_empty allowed) && not (email_domain_allowed address allowed)

  abbrev pub is_anonymous : IdentityMode → Bool
  is_anonymous anonymous = true
  is_anonymous _ = false

  -- `validateIdentity` once the address is read: `address` is the normalized one.
  unfoldable pub with_address :
      IdentityMode → List Text → Bool → (name address : Option Text) → IdentityResult
  unfolding identity_needs_email identity_needs_name
  with_address mode allowed require_email who address =
      if identity_needs_name mode && not (is_present who)
      then rejected name_required
      else if wants_email mode allowed require_email && not (is_present address)
      then rejected email_required
      else if refuses_domain allowed address
      then rejected domain_not_allowed
      else identified (if is_anonymous mode then none else who)
          (if wants_email mode allowed require_email then address else none)

  -- `validateIdentity`
  unfoldable pub validate_identity :
      IdentityMode → (name email : Option Text) → List Text → Bool → IdentityResult
  unfolding with_address
  validate_identity mode who address allowed require_email = elim (given address) [
    | none ↦ with_address mode allowed require_email (normal_name who) none
    | some raw ↦ elim (parse_email raw) [
      | none ↦ rejected invalid_email
      | some normal ↦ with_address mode allowed require_email (normal_name who) (some normal)
    ]
  ]
