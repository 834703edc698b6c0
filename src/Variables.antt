-- ===== src/Variables.antt =====
-- The runtime variables of backend/src/shared/variables.ts: `sanitizeVariableValue`, `resolveVariables`.
-- The patterns of the variables are a parameter: `compile` is the construction of the regular
-- expression, of a type `P`, and `test` the bounded test of a value. `inherited` is what a plain object
-- gives for a key that was not set on it, by `Object.prototype`: nothing for most keys, a function
-- for `constructor`. The keys are those of the scenario's schema, so none is `__proto__`.
pub mod Clean
pub mod Laws
pub mod Required
mod Tests
use conversa_forge.Prelude.{
  ℕ, zero, suc, leb, ltb, ◌==◌, ◌&&◌, ◌||◌, not, Bool, true, false, List, [], ◌∷◌, ◌++◌, map,
  filter, any, Option, none, some, is_some, is_empty, Text, text_eq, trim, is_space, take, length,
  if◌then◌else◌,
}

-- What a source gives for a key; of what is no string, the text that `String` makes of it.
pub data RawValue : Type 0 where
  missing : RawValue
  string : Text → RawValue
  other : Text → RawValue

pub record RuntimeVariable : Type 0 where
  pub key : Text
  pub required : Bool
  pub max_length : ℕ
  pub pattern : Option Text
  pub default_value : Option Text

-- The control and formatting characters, which become spaces.
abbrev pub is_control : ℕ → Bool
is_control c =
    leb c 0x1f
    || (leb 0x7f c && leb c 0x9f)
    || (leb 0x200b c && leb c 0x200f)
    || (leb 0x2028 c && leb c 0x202e)
    || (leb 0x2066 c && leb c 0x2069)

-- Braces, angle brackets and the backtick.
abbrev pub is_markup : ℕ → Bool
is_markup c = c == 0x7b || c == 0x7d || c == 0x3c || c == 0x3e || c == 0x60

abbrev pub blank_control : ℕ → ℕ
blank_control c = if is_control c then 32 else c

-- `replace(/\s+/g, ' ')`; `in_run` says whether the unit before was white space.
unfoldable pub squeeze : (in_run : Bool) → Text → Text
unfolding is_space
squeeze in_run [] = []
squeeze in_run (c ∷ s) =
    let again = squeeze true s in
    let next = squeeze false s in
    if is_space c then (if in_run then again else 32 ∷ again) else c ∷ next

abbrev pub raw_text : RawValue → Text
raw_text missing = []
raw_text (string s) = s
raw_text (other s) = s

-- `sanitizeVariableValue` before the cut.
unfoldable pub cleaned : Text → Text
unfolding squeeze trim
cleaned s = trim (squeeze false (filter (λ c. not (is_markup c)) (map blank_control s)))

-- `sanitizeVariableValue`
unfoldable pub sanitize_variable_value : RawValue → ℕ → Text
unfolding cleaned trim
sanitize_variable_value raw max_length =
    let s = cleaned (raw_text raw) in
    if ltb max_length (length s) then trim (take max_length s) else s

abbrev pub lookup : {A : Type 0} → Text → List (Text × A) → Option A
lookup key [] = none
lookup key ((k, v) ∷ entries) =
    let rest = lookup key entries in if text_eq k key then some v else rest

-- `record[key] = value`
abbrev pub set_key : {A : Type 0} → Text → A → List (Text × A) → List (Text × A)
set_key key value [] = (key, value) ∷ []
set_key key value ((k, v) ∷ entries) =
    let rest = set_key key value entries in
    if text_eq k key then (k, value) ∷ entries else (k, v) ∷ rest

abbrev pub is_allowed : List RuntimeVariable → Text → Bool
is_allowed allowlist key = any (λ v. text_eq v.key key) allowlist

-- `v !== undefined && v !== null && v !== ''`
abbrev pub is_given : RawValue → Bool
is_given missing = false
is_given (string s) = not (is_empty s)
is_given (other s) = true

pub record Merged : Type 0 where
  pub entries : List (Text × RawValue)
  pub rejected_keys : List Text

abbrev pub add_rejected : Text → List Text → List Text
add_rejected key keys = if any (λ k. text_eq k key) keys then keys else keys ++ key ∷ []

-- One entry of one source.
unfoldable pub merge_entry : List RuntimeVariable → Text → RawValue → Merged → Merged
merge_entry allowlist key value m =
    if not (is_allowed allowlist key)
    then record m { rejected_keys = add_rejected key m.rejected_keys }
    else if is_given value
    then record m { entries = set_key key value m.entries }
    else m

-- Later sources override earlier ones.
unfoldable pub merge : List RuntimeVariable → List (List (Text × RawValue)) → Merged → Merged
unfolding merge_entry
merge allowlist [] m = m
merge allowlist ([] ∷ sources) m = merge allowlist sources m
merge allowlist (((key, value) ∷ source) ∷ sources) m =
    merge allowlist (source ∷ sources) (merge_entry allowlist key value m)

pub data VariableError : Type 0 where
  is_required invalid_pattern invalid_format : VariableError

pub record VariableResolution : Type 0 where
  pub values : List (Text × Text)
  pub errors : List (Text × VariableError)

-- `raw ?? def.defaultValue`
abbrev pub or_default : RawValue → Option Text → RawValue
or_default missing (some s) = string s
or_default raw default_value = raw

-- `merged[def.key] ?? def.defaultValue`: a key that no source gave is read from `Object.prototype`.
abbrev pub raw_of : (Text → RawValue) → List (Text × RawValue) → RuntimeVariable → RawValue
raw_of inherited entries def =
    or_default (elim (lookup def.key entries) [ some raw ↦ raw | none ↦ inherited def.key ])
      def.default_value

abbrev pub with_value : RuntimeVariable → Text → VariableResolution → VariableResolution
with_value def value r = record r { values = set_key def.key value r.values }

abbrev pub with_error : RuntimeVariable → VariableError → VariableResolution → VariableResolution
with_error def e r = record r { errors = r.errors ++ (def.key, e) ∷ [] }

module _ {P : Type 0} (compile : Text → Option P) (test : P → Text → Bool) where
  -- The pattern that a variable may have, against a value.
  unfoldable pub check_pattern : Option Text → Text → Option VariableError
  check_pattern none value = none
  check_pattern (some pattern) value = if is_empty pattern then none else elim (compile pattern) [
    | none ↦ some invalid_pattern
    | some re ↦ if ltb 2000 (length value) || not (test re value) then some invalid_format else none
  ]

  module _ (inherited : Text → RawValue) where
    -- The body of the loop over the allowlist.
    unfoldable pub resolve_one :
        List (Text × RawValue) → RuntimeVariable → VariableResolution → VariableResolution
    unfolding sanitize_variable_value check_pattern
    resolve_one entries def r =
        let value = sanitize_variable_value (raw_of inherited entries def) def.max_length in
        if is_empty value
        then (if def.required then with_error def is_required r else r)
        else elim (check_pattern def.pattern value) [
          | some e ↦ with_error def e r
          | none ↦ with_value def value r
        ]

    unfoldable pub resolve_in :
        List (Text × RawValue) → List RuntimeVariable → VariableResolution → VariableResolution
    unfolding resolve_one
    resolve_in entries [] r = r
    resolve_in entries (def ∷ allowlist) r =
        resolve_in entries allowlist (resolve_one entries def r)

    -- `resolveVariables`, and the keys that it drops.
    unfoldable pub resolve_variables :
        List RuntimeVariable → List (List (Text × RawValue)) → VariableResolution × List Text
    unfolding merge resolve_in
    resolve_variables allowlist sources =
        let m = merge allowlist sources (record { entries = []; rejected_keys = [] }) in
        (resolve_in m.entries allowlist (record { values = []; errors = [] }), m.rejected_keys)
