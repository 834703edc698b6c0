-- ===== src/Csv/Fields.antt =====
-- How `parseCsv` reads one written cell.
use conversa_forge.Prelude.{
  ℕ, ◌≡◌, ◌⊎◌, refl, sym, ap, ◌∙◌, inl, inr, ◌==◌, Bool, true, false, List, [], ◌∷◌, ◌++◌, any,
  Text, arith, Bool-cases, ==_iff, if◌then◌else◌,
}
use mathlib.Core.List.{append_assoc, append-nil}
use conversa_forge.Csv.Parse.{quote, ok, bind_csv, Parser, head_is, step, loop}
use conversa_forge.Csv.Print.{is_special, escape, needs_quotes, quoted}

-- The parser outside and inside quotes.
abbrev pub at : List (List Text) → List Text → Text → Parser
at rows row field = record {
  rows = rows;
  row = row;
  field = field;
  in_quotes = false;
  skip = false;
}

abbrev inside : List (List Text) → List Text → Text → Parser
inside rows row field = record {
  rows = rows;
  row = row;
  field = field;
  in_quotes = true;
  skip = false;
}

module _ (max_rows : ℕ) where
  pub loop_of_step :
      (c : ℕ) (after : Text) (p q : Parser)
      → step max_rows c after p ≡ ok q
      → loop max_rows (c ∷ after) p ≡ loop max_rows after q
  unfolding loop
  loop_of_step c after p q e = ap (λ r. bind_csv r (loop max_rows after)) e

  step_plain :
      (c : ℕ) (after : Text) (rows : List (List Text)) (row : List Text) (f : Text)
      → is_special c ≡ false
      → step max_rows c after (at rows row f) ≡ ok (at rows row (f ++ c ∷ []))
  unfolding step
  step_plain c after rows row f h = ground arith

  step-inside :
      (c : ℕ) (after : Text) (rows : List (List Text)) (row : List Text) (f : Text)
      → (c == quote) ≡ false
      → step max_rows c after (inside rows row f) ≡ ok (inside rows row (f ++ c ∷ []))
  unfolding step
  step-inside c after rows row f h = ground arith

  -- Characters that need no quotes are taken as they are.
  loop_plain :
      (s rest : Text) (rows : List (List Text)) (row : List Text) (f : Text)
      → any is_special s ≡ false
      → loop max_rows (s ++ rest) (at rows row f) ≡ loop max_rows rest (at rows row (f ++ s))
  loop_plain [] rest rows row f h =
      ap (λ x. loop max_rows rest (at rows row x)) (sym (append-nil f))
  loop_plain (c ∷ s) rest rows row f h =
      loop_of_step c (s ++ rest) (at rows row f) (at rows row (f ++ c ∷ []))
        (step_plain c (s ++ rest) rows row f (ground (arith, h)))
      ∙ loop_plain s rest rows row (f ++ c ∷ []) (ground (arith, h))
      ∙ ap (λ x. loop max_rows rest (at rows row x)) (append_assoc f (c ∷ []) s)

  step_doubled :
      (after : Text) (rows : List (List Text)) (row : List Text) (f : Text)
      → loop max_rows (quote ∷ quote ∷ after) (inside rows row f)
        ≡ loop max_rows after (inside rows row (f ++ quote ∷ []))
  unfolding loop step
  step_doubled after rows row f = refl

  step_close :
      (after : Text) (rows : List (List Text)) (row : List Text) (f : Text)
      → head_is quote after ≡ false
      → step max_rows quote after (inside rows row f) ≡ ok (at rows row f)
  unfolding step
  step_close after rows row f h = ground arith

  loop_escaped :
      (b : Bool) (c : ℕ) (e tail : Text) (rows : List (List Text)) (row : List Text) (f : Text)
      → (c == quote) ≡ b
      → loop max_rows ((if b then quote ∷ quote ∷ e else c ∷ e) ++ tail) (inside rows row f)
        ≡ loop max_rows (e ++ tail) (inside rows row (f ++ c ∷ []))
  loop_escaped true c e tail rows row f same =
      step_doubled (e ++ tail) rows row f
      ∙ ap (λ d. loop max_rows (e ++ tail) (inside rows row (f ++ d ∷ [])))
          (sym ((==_iff c quote).0 same))
  loop_escaped false c e tail rows row f other =
      loop_of_step c (e ++ tail) (inside rows row f) (inside rows row (f ++ c ∷ []))
        (step-inside c (e ++ tail) rows row f other)

  -- Escaped characters up to the closing quote are taken unescaped.
  loop-inside :
      (s rest : Text) (rows : List (List Text)) (row : List Text) (f : Text)
      → head_is quote rest ≡ false
      → loop max_rows (escape s ++ quote ∷ rest) (inside rows row f)
        ≡ loop max_rows rest (at rows row (f ++ s))
  unfolding escape
  loop-inside [] rest rows row f h =
      loop_of_step quote rest (inside rows row f) (at rows row f) (step_close rest rows row f h)
      ∙ ap (λ x. loop max_rows rest (at rows row x)) (sym (append-nil f))
  loop-inside (c ∷ s) rest rows row f h =
      loop_escaped (c == quote) c (escape s) (quote ∷ rest) rows row f refl
      ∙ loop-inside s rest rows row (f ++ c ∷ []) h
      ∙ ap (λ x. loop max_rows rest (at rows row x)) (append_assoc f (c ∷ []) s)

  step_open :
      (after : Text) (rows : List (List Text)) (row : List Text)
      → step max_rows quote after (at rows row []) ≡ ok (inside rows row [])
  unfolding step
  step_open after rows row = refl

  -- A written cell is read as one field with its text.
  pub loop-quoted :
      (s rest : Text) (rows : List (List Text)) (row : List Text)
      → head_is quote rest ≡ false
      → loop max_rows (quoted s ++ rest) (at rows row []) ≡ loop max_rows rest (at rows row s)
  unfolding quoted
  loop-quoted s rest rows row h = by_need (Bool-cases (any is_special s)) (needs_quotes s) refl
    where
      in_quotes :
          loop max_rows (quote ∷ (escape s ++ quote ∷ []) ++ rest) (at rows row [])
          ≡ loop max_rows rest (at rows row s)
      in_quotes =
          ap (λ t. loop max_rows (quote ∷ t) (at rows row []))
            (append_assoc (escape s) (quote ∷ []) rest)
          ∙ loop_of_step quote (escape s ++ quote ∷ rest) (at rows row []) (inside rows row [])
              (step_open (escape s ++ quote ∷ rest) rows row)
          ∙ loop-inside s rest rows row [] h

      by_need :
          ((any is_special s ≡ true) ⊎ (any is_special s ≡ false))
          → (b : Bool) → needs_quotes s ≡ b
          → loop max_rows
              ((if b then quote ∷ (escape s ++ quote ∷ []) else s) ++ rest)
              (at rows row [])
            ≡ loop max_rows rest (at rows row s)
      by_need _ true e = in_quotes
      by_need (inr plain) false e = loop_plain s rest rows row [] plain
      by_need (inl special) false e = ground (arith, e, special)
