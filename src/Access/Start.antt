-- ===== src/Access/Start.antt =====
-- The start of a session from a link, `startFromLink` and `checkPasscode` of
-- backend/src/modules/access/public-run.service.ts, up to the use that it consumes.
-- Other parts give `StartChecks`: the rate limits, the passcode's hash, the scenario, the variables and the sessions
-- that the address has had.
pub mod Guesses
pub mod Laws
use conversa_forge.Prelude.{
  ℕ, zero, suc, ◌+◌, ◌-◌, leb, ltb, ◌&&◌, ◌||◌, not, Bool, true, false, Option, none, some, is_some,
  get_or_else, Text, List, if◌then◌else◌,
}
use conversa_forge.Access.Identity.{
  IdentityMode, IdentityError, IdentityResult, identified, rejected, validate_identity, is_present,
}
use conversa_forge.Access.Links.{ShareLink, Gone, link_exhausted, assert_link_active, consume}

-- The guesses that count against an address and against the link, in one window of each.
pub record GuessCounts : Type 0 where
  pub by_ip : ℕ
  pub by_link : ℕ

abbrev pub limit_per_ip : ℕ
limit_per_ip = 5

abbrev pub limit_per_link : ℕ
limit_per_link = 50

abbrev pub reserved : GuessCounts → GuessCounts
reserved c = record { by_ip = c.by_ip + 1; by_link = c.by_link + 1 }

abbrev pub released : GuessCounts → GuessCounts
released c = record { by_ip = c.by_ip - 1; by_link = c.by_link - 1 }

pub data PasscodeResult : Type 0 where
  passes too_many required invalid : PasscodeResult

-- The first half of `checkPasscode`, which reserves an attempt.
pub data Reservation : Type 0 where
  verifying blocked missing : Reservation

unfoldable pub reserve : Option Text → GuessCounts → GuessCounts × Reservation
reserve guess c =
    if ltb limit_per_ip (reserved c).by_ip || ltb limit_per_link (reserved c).by_link
    then (reserved c, blocked)
    else if not (is_present guess)
    then (released (reserved c), missing)
    else (reserved c, verifying)

-- The second half: a passcode that is correct does not count.
unfoldable pub conclude : (verifies : Bool) → GuessCounts → GuessCounts × PasscodeResult
conclude false c = (c, invalid)
conclude true c = (released c, passes)

abbrev pub after_reserve :
    (verifies : Bool) → GuessCounts × Reservation → GuessCounts × PasscodeResult
after_reserve verifies (c, blocked) = (c, too_many)
after_reserve verifies (c, missing) = (c, required)
after_reserve verifies (c, verifying) = conclude verifies c

-- `checkPasscode`: `guess` is the passcode given, which `verifies` compares with the hash.
unfoldable pub check_passcode :
    (has_passcode : Bool)
    → Option Text
    → (verifies : Bool) → GuessCounts
    → GuessCounts × PasscodeResult
unfolding reserve conclude
check_passcode false guess verifies c = (c, passes)
check_passcode true guess verifies c = after_reserve verifies (reserve guess c)

pub data StartError : Type 0 where
  rate_limited not_found scenario_unavailable invalid_variables attempt_in_progress : StartError
  passcode_attempts passcode_required invalid_passcode : StartError
  gone : Gone → StartError
  identity : IdentityError → StartError
  attempt_limit_reached : (limit : ℕ) → StartError

-- What the rest of the program answers to a start.
pub record StartChecks : Type 0 where
  pub ip_allowed : Bool
  pub link_allowed : Bool
  pub has_passcode : Bool
  pub verifies : Bool
  pub scenario_runs : Bool
  pub identity_mode : IdentityMode
  pub allowed_domains : List Text
  pub link_limit : Option ℕ
  pub default_limit : Option ℕ
  pub variables_valid : Bool
  pub lock_taken : Bool
  pub sessions_of : Text → ℕ

pub record StartBody : Type 0 where
  pub name : Option Text
  pub email : Option Text
  pub passcode : Option Text

-- What a start leaves of the link and the guesses: the identity it goes on with, or an error.
pub data Admission : Type 0 where
  admitted : ShareLink → GuessCounts → (name email : Option Text) → Admission
  refused : GuessCounts → StartError → Admission

abbrev pub attempt_limit : StartChecks → Option ℕ
attempt_limit k = elim k.link_limit [ some n ↦ some n | none ↦ k.default_limit ]

-- The update that takes a use, and what is thrown where it takes none.
unfoldable pub take_use :
    ShareLink → GuessCounts → (now : ℕ) → (name email : Option Text) → Admission
unfolding consume assert_link_active
take_use l c now name email = elim (consume l now) [
  | some l' ↦ admitted l' c name email
  | none ↦ refused c (gone (get_or_else (assert_link_active l now) (link_exhausted false)))
]

-- The part under the lock of the address.
unfoldable pub under_lock :
    StartChecks
    → ShareLink
    → GuessCounts
    → (now limit : ℕ) → (name : Option Text) → Text
    → Admission
unfolding take_use
under_lock k l c now limit name email =
    if k.lock_taken
    then refused c attempt_in_progress
    else if leb limit (k.sessions_of email)
    then refused c (attempt_limit_reached limit)
    else take_use l c now name (some email)

-- From the identity on: a limit counts only where there is an address.
unfoldable pub with_identity :
    StartChecks → ShareLink → GuessCounts → (now : ℕ) → (name email : Option Text) → Admission
unfolding under_lock take_use
with_identity k l c now name none = take_use l c now name none
with_identity k l c now name (some email) = elim (attempt_limit k) [
  | none ↦ take_use l c now name (some email)
  | some limit ↦ under_lock k l c now limit name email
]

module _ (to_lower : Text → Text) (parse_email : Text → Option Text) where
  unfoldable pub on_identity :
      StartChecks → ShareLink → GuessCounts → (now : ℕ) → IdentityResult → Admission
  unfolding with_identity
  on_identity k l c now (rejected e) = refused c (identity e)
  on_identity k l c now (identified name email) =
      if not k.variables_valid
      then refused c invalid_variables
      else with_identity k l c now name email

  unfoldable pub on_passcode :
      StartChecks → StartBody → ShareLink → (now : ℕ) → GuessCounts × PasscodeResult → Admission
  unfolding on_identity validate_identity
  on_passcode k body l now (c, too_many) = refused c passcode_attempts
  on_passcode k body l now (c, required) = refused c passcode_required
  on_passcode k body l now (c, invalid) = refused c invalid_passcode
  on_passcode k body l now (c, passes) =
      if not k.scenario_runs
      then refused c scenario_unavailable
      else on_identity k l c now (
          validate_identity to_lower parse_email k.identity_mode body.name body.email
            k.allowed_domains (is_some k.link_limit))

  -- `startFromLink`; `link` is the row that the token finds.
  unfoldable pub start_from_link :
      StartChecks → StartBody → Option ShareLink → GuessCounts → (now : ℕ) → Admission
  unfolding on_passcode check_passcode assert_link_active
  start_from_link k body none c now =
      if not k.ip_allowed then refused c rate_limited else refused c not_found
  start_from_link k body (some l) c now =
      if not (k.ip_allowed && k.link_allowed)
      then refused c rate_limited
      else elim (assert_link_active l now) [
        | some e ↦ refused c (gone e)
        | none ↦ on_passcode k body l now (check_passcode k.has_passcode body.passcode k.verifies c)
      ]
