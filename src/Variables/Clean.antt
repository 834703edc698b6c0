-- ===== src/Variables/Clean.antt =====
-- What is left of a value once it is sanitized.
use conversa_forge.Prelude.{
  ℕ, ◌≤◌, ◌≡◌, refl, ltb, not, Bool, true, false, [], ◌∷◌, map, All, All-filter_test, All-take,
  trim-All, length-trim, Text, trim, is_space, take, length, length-take, arith, if◌then◌else◌,
}
use conversa_forge.Variables.{
  is_control, is_markup, blank_control, squeeze, cleaned, RawValue, raw_text,
  sanitize_variable_value,
}

-- A code unit that can stand in a prompt: no control character, brace, angle bracket or backtick.
abbrev pub IsPlain : ℕ → Type 0
IsPlain c = (is_control c ≡ false) × (is_markup c ≡ false)

blank-All : (s : Text) → All (λ c. is_control c ≡ false) (map blank_control s)
blank-All [] = tt
blank-All (c ∷ s) = (ground arith, blank-All s)

squeeze-All : (in_run : Bool) (s : Text) → All IsPlain s → All IsPlain (squeeze in_run s)
unfolding squeeze
squeeze-All in_run [] h = tt
squeeze-All in_run (c ∷ s) h =
    elim (is_space c)
      as (λ b. All IsPlain (
        if b
        then (if in_run then squeeze true s else 32 ∷ squeeze true s)
        else c ∷ squeeze false s)) [
          | false ↦ (h.0, squeeze-All false s h.1)
          | true ↦
              elim in_run
                as (λ b. All IsPlain (if b then squeeze true s else 32 ∷ squeeze true s)) [
                  | true ↦ squeeze-All true s h.1
                  | false ↦ ((refl, refl), squeeze-All true s h.1)
                ]
        ]

cleaned-All : (s : Text) → All IsPlain (cleaned s)
unfolding cleaned
cleaned-All s = trim-All IsPlain _ (
    squeeze-All false _ (
      All-filter_test _ IsPlain (λ c. not (is_markup c)) (map blank_control s)
        (λ c h e. (h, ground (arith, e))) (blank-All s)))

-- A sanitized value is at most as long as its variable allows, and has no control character, brace, angle
-- bracket or backtick.
pub sanitize-IsPlain :
    (raw : RawValue) (max_length : ℕ)
    → let s = sanitize_variable_value raw max_length in All IsPlain s × (length s ≤ max_length)
unfolding sanitize_variable_value
sanitize-IsPlain raw max_length = by_length (ltb max_length (length s)) refl
  where
    s : Text
    s = cleaned (raw_text raw)

    by_length :
        (b : Bool)
        → ltb max_length (length s) ≡ b
        → let t = if b then trim (take max_length s) else s in
          All IsPlain t × (length t ≤ max_length)
    by_length true e = (
      trim-All IsPlain _ (All-take IsPlain max_length s (cleaned-All (raw_text raw))),
      omega (arith, length-trim (take max_length s), length-take max_length s),
    )
    by_length false e = (cleaned-All (raw_text raw), ground (arith, e))
