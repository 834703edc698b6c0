-- ===== src/Variables/Required.antt =====
-- A resolution without errors has a value for every required variable.
use conversa_forge.Prelude.{
  ◌≡◌, refl, Bool, true, false, List, [], ◌∷◌, ◌++◌, All, Option, none, some, is_some, is_empty,
  Text, text_eq_refl, arith, if◌then◌else◌,
}
use conversa_forge.Variables.{
  RawValue, RuntimeVariable, sanitize_variable_value, lookup, set_key, raw_of, VariableError,
  VariableResolution, is_required, with_value, with_error, check_pattern, resolve_one, resolve_in,
  resolve_variables,
}

abbrev pub has_key : Text → List (Text × Text) → Bool
has_key key entries = is_some (lookup key entries)

has_key-set_key_own :
    (key value : Text) (entries : List (Text × Text))
    → has_key key (set_key key value entries) ≡ true
has_key-set_key_own key value [] = ground (arith, text_eq_refl key)
has_key-set_key_own key value ((k, v) ∷ entries) =
    ground (arith, has_key-set_key_own key value entries)

has_key-set_key :
    (key key' value : Text) (entries : List (Text × Text))
    → has_key key entries ≡ true
    → has_key key (set_key key' value entries) ≡ true
has_key-set_key key key' value [] h = absurd (ground (arith, h))
has_key-set_key key key' value ((k, v) ∷ entries) h =
    ground (arith, h, has_key-set_key key key' value entries)

module _ {P : Type 0} (compile : Text → Option P) (test : P → Text → Bool)
    (inherited : Text → RawValue) where
  -- One variable adds an error or, where it is required, its value; values stay.
  record Adds (def : RuntimeVariable) (r r' : VariableResolution) : Type 0 where
    no_errors : r'.errors ≡ [] → r.errors ≡ []
    has_value : r'.errors ≡ [] → def.required ≡ true → has_key def.key r'.values ≡ true
    stays : (key : Text) → has_key key r.values ≡ true → has_key key r'.values ≡ true

  resolve_one-Adds :
      (entries : List (Text × RawValue)) (def : RuntimeVariable) (r : VariableResolution)
      → Adds def r (resolve_one compile test inherited entries def r)
  unfolding resolve_one
  resolve_one-Adds entries def r =
      by_value (is_empty value) (check_pattern compile test def.pattern value)
    where
      value : Text
      value = sanitize_variable_value (raw_of inherited entries def) def.max_length

      snoc_not_nil : (e : VariableError) → r.errors ++ (def.key, e) ∷ [] ≡ [] → ⊥
      snoc_not_nil e h = not_nil r.errors h
        where
          not_nil : (l : List (Text × VariableError)) → l ++ (def.key, e) ∷ [] ≡ [] → ⊥
          not_nil [] h' = absurd (ground (arith, h'))
          not_nil (x ∷ l) h' = absurd (ground (arith, h'))

      error-Adds : (e : VariableError) → Adds def r (with_error def e r)
      error-Adds e = record {
        no_errors = λ h. absurd (snoc_not_nil e h);
        has_value = λ h. absurd (snoc_not_nil e h);
        stays = λ key h. h;
      }

      by_value :
          (b : Bool) (o : Option VariableError)
          → Adds def r (
              if b
              then (if def.required then with_error def is_required r else r)
              else elim o as (λ x. VariableResolution) [
                | some e ↦ with_error def e r
                | none ↦ with_value def value r
              ])
      by_value false (some e) = error-Adds e
      by_value false none = record {
        no_errors = λ h. h;
        has_value = λ h h'. has_key-set_key_own def.key value r.values;
        stays = λ key h. has_key-set_key key def.key value r.values h;
      }
      by_value true o = by_required def.required refl
        where
          by_required :
              (b : Bool)
              → def.required ≡ b
              → Adds def r (if b then with_error def is_required r else r)
          by_required true e = error-Adds is_required
          by_required false e = record {
            no_errors = λ h. h;
            has_value = λ h h'. absurd (ground (arith, e, h'));
            stays = λ key h. h;
          }

  abbrev pub HasValue : List (Text × Text) → RuntimeVariable → Type 0
  HasValue values def = def.required ≡ true → has_key def.key values ≡ true

  resolve_in-HasValue :
      (entries : List (Text × RawValue)) (allowlist : List RuntimeVariable) (r : VariableResolution)
      → let r' = resolve_in compile test inherited entries allowlist r in
        r'.errors ≡ []
        → (r.errors ≡ [])
          × ((key : Text) → has_key key r.values ≡ true → has_key key r'.values ≡ true)
          × All (HasValue r'.values) allowlist
  unfolding resolve_in
  resolve_in-HasValue entries [] r h = (h, λ key k. k, tt)
  resolve_in-HasValue entries (def ∷ allowlist) r h =
      let adds = resolve_one-Adds entries def r in
      let (clear, stay, all) =
        resolve_in-HasValue entries allowlist (resolve_one compile test inherited entries def r)
          h in
      (
        adds.no_errors clear,
        λ key k. stay key (adds.stays key k),
        (λ needed. stay def.key (adds.has_value clear needed), all),
      )

  -- Where a resolution gives no errors, every required variable has a value.
  pub resolve_variables-HasValue :
      (allowlist : List RuntimeVariable) (sources : List (List (Text × RawValue)))
      → (resolve_variables compile test inherited allowlist sources).0.errors ≡ []
      → All
          (HasValue (resolve_variables compile test inherited allowlist sources).0.values)
          allowlist
  unfolding resolve_variables
  resolve_variables-HasValue allowlist sources h = (resolve_in-HasValue _ allowlist _ h).2
