-- ===== src/Csv/RoundTrip.antt =====
-- What the writer of backend/src/modules/analysis/csv.ts writes, the parser of
-- backend/src/modules/channels/csv.ts reads back.
use conversa_forge.Prelude.{
  ℕ, ◌+◌, ◌<◌, ◌≤◌, ◌≡◌, refl, ap, ◌∙◌, ltb, Bool, true, false, List, [], ◌∷◌, ◌++◌, map, All, Text,
  length, length-append, arith, if◌then◌else◌,
}
use mathlib.Core.List.{append_assoc}
use conversa_forge.Csv.Parse.{
  comma, line_feed, carriage_return, CsvResult, ok, too_many_rows, bind_csv, Parser, is_blank,
  push_row, step, loop, finish, parse_csv,
}
use conversa_forge.Csv.Print.{Value, cell_text, quoted, csv_cell, join, csv_row, to_csv}
use conversa_forge.Csv.Fields.{at, loop_of_step, loop-quoted}

module _ (max_rows : ℕ) where
  step-comma :
      (after : Text) (rows : List (List Text)) (row : List Text) (f : Text)
      → step max_rows comma after (at rows row f) ≡ ok (at rows (row ++ f ∷ []) [])
  unfolding step
  step-comma after rows row f = ground arith

  -- After a carriage return the parser skips the line feed.
  abbrev skipping : List (List Text) → List Text → Text → Parser
  skipping rows row field = record {
    rows = rows;
    row = row;
    field = field;
    in_quotes = false;
    skip = true;
  }

  step_return :
      (after : Text) (rows : List (List Text)) (row : List Text) (f : Text)
      → step max_rows carriage_return (line_feed ∷ after) (at rows row f)
        ≡ push_row max_rows (skipping rows row f)
  unfolding step
  step_return after rows row f = refl

  push_row_full :
      (rows : List (List Text)) (row : List Text) (f : Text)
      → is_blank (row ++ f ∷ []) ≡ false
      → length rows < max_rows
      → push_row max_rows (skipping rows row f) ≡ ok (skipping (rows ++ (row ++ f ∷ []) ∷ []) [] [])
  unfolding push_row
  push_row_full rows row f full room =
      ap (λ (b : Bool). after_row (if b then rows else stored)) full
      ∙ ap (λ (b : Bool). if b then CsvResult.err too_many_rows else ok (skipping stored [] []))
          fits
    where
      stored : List (List Text)
      stored = rows ++ (row ++ f ∷ []) ∷ []

      after_row : List (List Text) → CsvResult Parser
      after_row rows' =
          if ltb max_rows (length rows')
          then CsvResult.err too_many_rows
          else ok (skipping rows' [] [])

      fits : ltb max_rows (length stored) ≡ false
      fits = ground (arith, length-append rows ((row ++ f ∷ []) ∷ []), room)

  loop_skip :
      (after : Text) (rows : List (List Text))
      → loop max_rows (line_feed ∷ after) (skipping rows [] [])
        ≡ loop max_rows after (at rows [] [])
  unfolding loop step
  loop_skip after rows = refl

  -- The end of a line stores a row that is not blank.
  loop_line_end :
      (after : Text) (rows : List (List Text)) (row : List Text) (f : Text)
      → is_blank (row ++ f ∷ []) ≡ false
      → length rows < max_rows
      → loop max_rows (carriage_return ∷ line_feed ∷ after) (at rows row f)
        ≡ loop max_rows after (at (rows ++ (row ++ f ∷ []) ∷ []) [] [])
  loop_line_end after rows row f full room =
      loop_of_step max_rows carriage_return (line_feed ∷ after) (at rows row f)
        (skipping (rows ++ (row ++ f ∷ []) ∷ []) [] [])
        (step_return after rows row f ∙ push_row_full rows row f full room)
      ∙ loop_skip after (rows ++ (row ++ f ∷ []) ∷ [])

  abbrev line_end : Text
  line_end = carriage_return ∷ line_feed ∷ []

  -- A written row is read back.
  loop_row :
      (v : Value) (vs : List Value) (after : Text) (rows : List (List Text)) (row : List Text)
      → is_blank (row ++ map cell_text (v ∷ vs)) ≡ false
      → length rows < max_rows
      → loop max_rows (csv_row (v ∷ vs) ++ carriage_return ∷ line_feed ∷ after) (at rows row [])
        ≡ loop max_rows after (at (rows ++ (row ++ map cell_text (v ∷ vs)) ∷ []) [] [])
  unfolding csv_row join csv_cell
  loop_row v [] after rows row full room =
      loop-quoted max_rows (cell_text v) (carriage_return ∷ line_feed ∷ after) rows row refl
      ∙ loop_line_end after rows row (cell_text v) full room
  loop_row v (w ∷ vs) after rows row full room =
      let s = cell_text v in
      let end = carriage_return ∷ line_feed ∷ after in
      let more = csv_row (w ∷ vs) in
      let split = append_assoc row (s ∷ []) (map cell_text (w ∷ vs)) in
      ap (λ t. loop max_rows t (at rows row [])) (append_assoc (quoted s) (comma ∷ more) end)
      ∙ loop-quoted max_rows s (comma ∷ more ++ end) rows row refl
      ∙ loop_of_step max_rows comma (more ++ end) (at rows row s) (at rows (row ++ s ∷ []) [])
          (step-comma (more ++ end) rows row s)
      ∙ loop_row w vs after rows (row ++ s ∷ []) (ap is_blank split ∙ full) room
      ∙ ap (λ r. loop max_rows after (at (rows ++ r ∷ []) [] [])) split

  -- Rows that a line can hold: at least one cell, and not a single empty one.
  abbrev IsFull : List Value → Type 0
  IsFull [] = ⊥
  IsFull (v ∷ vs) = is_blank (map cell_text (v ∷ vs)) ≡ false

  loop_rows :
      (r : List Value) (rs : List (List Value)) (rows : List (List Text))
      → All IsFull (r ∷ rs)
      → length rows + length (r ∷ rs) ≤ max_rows
      → loop max_rows (join line_end (map csv_row (r ∷ rs)) ++ line_end) (at rows [] [])
        ≡ ok (at (rows ++ map (map cell_text) (r ∷ rs)) [] [])
  unfolding join loop
  loop_rows [] rs rows h room = absurd h.0
  loop_rows (v ∷ vs) [] rows h room = loop_row v vs [] rows [] h.0 (omega arith)
  loop_rows (v ∷ vs) (r ∷ rs) rows h room =
      let line = csv_row (v ∷ vs) in
      let more = join line_end (map csv_row (r ∷ rs)) in
      let stored = rows ++ map cell_text (v ∷ vs) ∷ [] in
      ap (λ t. loop max_rows t (at rows [] []))
        (append_assoc line (carriage_return ∷ line_feed ∷ more) line_end)
      ∙ loop_row v vs (more ++ line_end) rows [] h.0 (omega arith)
      ∙ loop_rows r rs stored h.1
          (omega (arith, length-append rows (map cell_text (v ∷ vs) ∷ []), room))
      ∙ ap (λ x. ok (at x [] []))
          (append_assoc rows (map cell_text (v ∷ vs) ∷ []) (map (map cell_text) (r ∷ rs)))

  -- Parsing what was written gives the texts of the cells back, whatever characters they hold, where
  -- every row has a cell that is not a single empty one and the rows are as many as the parser takes.
  pub parse_csv-to_csv :
      (header : List Value) (rows : List (List Value))
      → All IsFull (header ∷ rows)
      → length (header ∷ rows) ≤ max_rows
      → parse_csv max_rows (to_csv header rows) ≡ ok (map (map cell_text) (header ∷ rows))
  unfolding parse_csv to_csv finish
  parse_csv-to_csv header rows h room =
      ap (λ r. bind_csv r (finish max_rows)) (loop_rows header rows [] h (omega (arith, room)))
