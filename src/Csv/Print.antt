-- ===== src/Csv/Print.antt =====
-- `csvCell`, `csvRow` and `toCsv` of backend/src/modules/analysis/csv.ts. A value is absent, a finite
-- number with its text, or another value with the text that `String`, `toISOString` or
-- `JSON.stringify` makes of it.
use conversa_forge.Prelude.{
  ℕ, ◌==◌, ◌||◌, not, Bool, false, List, [], ◌∷◌, ◌++◌, map, any, Text, text_eq, trim,
  if◌then◌else◌,
}
use conversa_forge.Csv.Parse.{quote, comma, line_feed, carriage_return, byte_order_mark}

pub data Value : Type 0 where
  absent : Value
  number shown_as : Text → Value

-- `FORMULA_PREFIX`: = + - @, a tab or a carriage return.
abbrev pub starts_formula : Text → Bool
starts_formula [] = false
starts_formula (c ∷ s) = c == 61 || c == 43 || c == 45 || c == 64 || c == 9 || c == carriage_return

abbrev pub apostrophe : ℕ
apostrophe = 39

-- The text of a cell, guarded against formulas and not yet quoted.
unfoldable pub cell_text : Value → Text
cell_text absent = []
cell_text (number s) = s
cell_text (shown_as s) = if starts_formula s then apostrophe ∷ s else s

abbrev pub is_special : ℕ → Bool
is_special c = c == quote || c == comma || c == carriage_return || c == line_feed

-- `s.replace(/"/g, '""')`
unfoldable pub escape : Text → Text
escape [] = []
escape (c ∷ s) = let rest = escape s in if c == quote then quote ∷ quote ∷ rest else c ∷ rest

abbrev pub needs_quotes : Text → Bool
needs_quotes s = any is_special s || not (text_eq s (trim s))

unfoldable pub quoted : Text → Text
unfolding escape trim
quoted s = if needs_quotes s then quote ∷ (escape s ++ quote ∷ []) else s

-- `csvCell`
unfoldable pub csv_cell : Value → Text
unfolding quoted cell_text
csv_cell v = quoted (cell_text v)

-- `join`
unfoldable pub join : Text → List Text → Text
join by [] = []
join by (s ∷ []) = s
join by (s ∷ t ∷ rest) = s ++ (by ++ join by (t ∷ rest))

-- `csvRow`
unfoldable pub csv_row : List Value → Text
unfolding csv_cell join
csv_row values = join (comma ∷ []) (map csv_cell values)

-- `toCsv`
unfoldable pub to_csv : List Value → List (List Value) → Text
unfolding csv_row join
to_csv header rows =
    byte_order_mark
    ∷ (join (carriage_return ∷ line_feed ∷ []) (map csv_row (header ∷ rows))
        ++ carriage_return ∷ line_feed ∷ [])
