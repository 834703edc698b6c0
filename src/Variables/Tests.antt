-- ===== src/Variables/Tests.antt =====
-- A required name and a topic with a pattern, from a link and a participant.
use conversa_forge.Prelude.{
  ◌≡◌, refl, leb, Bool, true, false, List, [], ◌∷◌, All, Option, none, some, Text, text_eq, length,
  if◌then◌else◌,
}
use conversa_forge.Variables.{RuntimeVariable, RawValue, string, other, missing, resolve_variables}
use conversa_forge.Variables.Laws.{IsAllowed, resolve_variables-IsAllowed}
use conversa_forge.Variables.Required.{HasValue, resolve_variables-HasValue}

abbrev compiled : Text → Option Text
compiled p = some p

abbrev short_enough : Text → Text → Bool
short_enough p value = leb (length value) 6

-- A prototype that gives a function for the key `c` and nothing else.
abbrev inherited : Text → RawValue
inherited key = if text_eq key (99 ∷ []) then other (102 ∷ []) else missing

abbrev allowlist : List RuntimeVariable
allowlist =
    record { key = 110 ∷ []; required = true; max_length = 4; pattern = none; default_value = none }
    ∷ record {
      key = 116 ∷ [];
      required = false;
      max_length = 9;
      pattern = some (97 ∷ []);
      default_value = some (120 ∷ []);
    }
    ∷ []

-- The participant's name has braces and a control character; `z` is not on the list.
abbrev sources : List (List (Text × RawValue))
sources =
    ((110 ∷ [], string (65 ∷ 10 ∷ 123 ∷ 66 ∷ [])) ∷ (122 ∷ [], missing) ∷ [])
    ∷ ((116 ∷ [], string (98 ∷ 99 ∷ [])) ∷ [])
    ∷ []

resolved :
    (resolve_variables compiled short_enough inherited allowlist sources).0.values
    ≡ (110 ∷ [], 65 ∷ 32 ∷ 66 ∷ []) ∷ (116 ∷ [], 98 ∷ 99 ∷ []) ∷ []
unfolding resolve_variables
resolved = refl

resolve_variables-IsAllowed_example :
    All
      (IsAllowed compiled short_enough inherited allowlist)
      (resolve_variables compiled short_enough inherited allowlist sources).0.values
resolve_variables-IsAllowed_example =
    resolve_variables-IsAllowed compiled short_enough inherited allowlist sources

resolve_variables-HasValue_example :
    All
      (HasValue compiled short_enough inherited
        (resolve_variables compiled short_enough inherited allowlist sources).0.values)
      allowlist
unfolding resolve_variables
resolve_variables-HasValue_example =
    resolve_variables-HasValue compiled short_enough inherited allowlist sources refl
