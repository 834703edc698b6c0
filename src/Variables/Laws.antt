-- ===== src/Variables/Laws.antt =====
-- Which values a resolution gives, and that it gives all that are required.
use conversa_forge.Prelude.{
  ◌≤◌, ◌≡◌, ◌⊎◌, inl, inr, refl, sym, Bool, true, false, List, [], ◌∷◌, All, All-imp, Option, none,
  some, is_empty, Text, text_eq, text_eq_iff, length, if◌then◌else◌,
}
use mathlib.Core.Path.{subst}
use conversa_forge.Variables.{
  RawValue, RuntimeVariable, sanitize_variable_value, set_key, raw_of, VariableError,
  VariableResolution, is_required, with_value, with_error, check_pattern, resolve_one, resolve_in,
  resolve_variables,
}
use conversa_forge.Variables.Clean.{IsPlain, sanitize-IsPlain}

abbrev pub Some {ℓ} : {A : Type ℓ} → (A → Type 0) → List A → Type 0
Some P [] = ⊥
Some P (x ∷ xs) = P x ⊎ Some P xs

module _ {P : Type 0} (compile : Text → Option P) (test : P → Text → Bool)
    (inherited : Text → RawValue) where
  -- A value that the variable allows.
  pub record IsValueOf (key value : Text) (def : RuntimeVariable) : Type 0 where
    pub of_key : def.key ≡ key
    pub not_empty : is_empty value ≡ false
    pub plain : All IsPlain value
    pub short : length value ≤ def.max_length
    pub matching : check_pattern compile test def.pattern value ≡ none

  set_key-All :
      (Q : Text × Text → Type 0) (key value : Text) (entries : List (Text × Text))
      → Q (key, value)
      → All Q entries
      → All Q (set_key key value entries)
  set_key-All Q key value [] q h = (q, tt)
  set_key-All Q key value ((k, v) ∷ entries) q h =
      by_test (text_eq k key) refl (set_key-All Q key value entries q h.1)
    where
      by_test :
          (b : Bool)
          → text_eq k key ≡ b
          → All Q (set_key key value entries)
          → All Q (if b then (k, value) ∷ entries else (k, v) ∷ set_key key value entries)
      by_test true e later = (subst (λ x. Q (x, value)) (sym ((text_eq_iff k key).0 e)) q, h.1)
      by_test false e later = (h.0, later)

  -- What the loop adds is a value that its variable allows.
  resolve_one-All :
      (Q : Text × Text → Type 0) (entries : List (Text × RawValue)) (def : RuntimeVariable)
      (r : VariableResolution)
      → ((value : Text) → IsValueOf def.key value def → Q (def.key, value))
      → All Q r.values
      → All Q (resolve_one compile test inherited entries def r).values
  unfolding resolve_one
  resolve_one-All Q entries def r q h = by_value (is_empty value) refl
    where
      value : Text
      value = sanitize_variable_value (raw_of inherited entries def) def.max_length

      by_pattern :
          (o : Option VariableError)
          → check_pattern compile test def.pattern value ≡ o
          → is_empty value ≡ false
          → All Q
              (elim o as (λ x. VariableResolution) [
                | some e ↦ with_error def e r
                | none ↦ with_value def value r
              ]).values
      by_pattern (some e) m ne = h
      by_pattern none m ne =
          set_key-All Q def.key value r.values
            (q value (record {
              of_key = refl;
              not_empty = ne;
              plain = (sanitize-IsPlain (raw_of inherited entries def) def.max_length).0;
              short = (sanitize-IsPlain (raw_of inherited entries def) def.max_length).1;
              matching = m;
            }))
            h

      by_required : (b : Bool) → All Q (if b then with_error def is_required r else r).values
      by_required true = h
      by_required false = h

      by_value :
          (b : Bool)
          → is_empty value ≡ b
          → All Q
              (if b
                then (if def.required then with_error def is_required r else r)
                else elim (check_pattern compile test def.pattern value) [
                  | some e ↦ with_error def e r
                  | none ↦ with_value def value r
                ]).values
      by_value true e = by_required def.required
      by_value false e = by_pattern (check_pattern compile test def.pattern value) refl e

  resolve_in-All :
      (Q : Text × Text → Type 0) (entries : List (Text × RawValue))
      (allowlist : List RuntimeVariable) (r : VariableResolution)
      → All (λ def. (value : Text) → IsValueOf def.key value def → Q (def.key, value)) allowlist
      → All Q r.values
      → All Q (resolve_in compile test inherited entries allowlist r).values
  unfolding resolve_in
  resolve_in-All Q entries [] r q h = h
  resolve_in-All Q entries (def ∷ allowlist) r q h =
      resolve_in-All Q entries allowlist (resolve_one compile test inherited entries def r) q.1
        (resolve_one-All Q entries def r q.0 h)

  abbrev pub IsAllowed : List RuntimeVariable → Text × Text → Type 0
  IsAllowed allowlist entry = Some (IsValueOf entry.0 entry.1) allowlist

  own_values :
      (allowlist : List RuntimeVariable)
      → All
          (λ def.
            (value : Text) → IsValueOf def.key value def → IsAllowed allowlist (def.key, value))
          allowlist
  own_values [] = tt
  own_values (def ∷ allowlist) = (
    λ value h. inl h,
    All-imp _ _ allowlist (λ d later value h. inr (later value h)) (own_values allowlist),
  )

  -- Every value that the sources resolve to is one that a variable of the allowlist with its key allows: not empty, at
  -- most as long as the variable says, without control characters or markup, and matching the pattern.
  pub resolve_variables-IsAllowed :
      (allowlist : List RuntimeVariable) (sources : List (List (Text × RawValue)))
      → All
          (IsAllowed allowlist)
          (resolve_variables compile test inherited allowlist sources).0.values
  unfolding resolve_variables
  resolve_variables-IsAllowed allowlist sources =
      resolve_in-All (IsAllowed allowlist) _ allowlist _ (own_values allowlist) tt
