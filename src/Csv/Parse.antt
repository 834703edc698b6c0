-- ===== src/Csv/Parse.antt =====
-- `parseCsv` of backend/src/modules/channels/csv.ts, as a loop over the characters of the text. The
-- loop's variables are the fields of `Parser`; `skip` says that the last pass added 1 to `i`.
use conversa_forge.Prelude.{
  ℕ, ◌==◌, ltb, ◌&&◌, ◌||◌, not, Bool, true, false, List, [], ◌∷◌, ◌++◌, Text, is_empty, length,
  if◌then◌else◌,
}

abbrev pub quote : ℕ
quote = 34

abbrev pub comma : ℕ
comma = 44

abbrev pub line_feed : ℕ
line_feed = 10

abbrev pub carriage_return : ℕ
carriage_return = 13

abbrev pub byte_order_mark : ℕ
byte_order_mark = 65279

pub data CsvError : Type 0 where
  too_many_rows unterminated_field : CsvError

pub data CsvResult (A : Type 0) : Type 0 where
  ok : A → CsvResult A
  err : CsvError → CsvResult A

abbrev pub bind_csv : {A B : Type 0} → CsvResult A → (A → CsvResult B) → CsvResult B
bind_csv (ok a) f = f a
bind_csv (err e) f = err e

pub record Parser : Type 0 where
  pub rows : List (List Text)
  pub row : List Text
  pub field : Text
  pub in_quotes : Bool
  pub skip : Bool

abbrev pub push_field : Parser → Parser
push_field p = record p { row = p.row ++ p.field ∷ []; field = [] }

-- A row of one empty field is a blank line.
abbrev pub is_blank : List Text → Bool
is_blank [] = false
is_blank (f ∷ []) = is_empty f
is_blank (f ∷ g ∷ fs) = false

abbrev pub with_row : List Text → List (List Text) → List (List Text)
with_row row rows = if is_blank row then rows else rows ++ row ∷ []

-- `pushRow`
unfoldable pub push_row : ℕ → Parser → CsvResult Parser
push_row max_rows p =
    let row = p.row ++ p.field ∷ [] in
    let rows = with_row row p.rows in
    if ltb max_rows (length rows)
    then err too_many_rows
    else ok (record p { rows = rows; row = []; field = [] })

abbrev pub head_is : ℕ → Text → Bool
head_is c [] = false
head_is c (d ∷ s) = d == c

abbrev pub add : ℕ → Parser → Parser
add c p = record p { field = p.field ++ c ∷ [] }

-- One pass of the loop at the character `c`, with the text after it.
unfoldable pub step : ℕ → ℕ → Text → Parser → CsvResult Parser
unfolding push_row
step max_rows c after p =
    if p.skip
    then ok (record p { skip = false })
    else if p.in_quotes
    then if c == quote
      then if head_is quote after
        then ok (record p { field = p.field ++ quote ∷ []; skip = true })
        else ok (record p { in_quotes = false })
      else ok (add c p)
    else if c == quote && is_empty p.field
    then ok (record p { in_quotes = true })
    else if c == comma
    then ok (push_field p)
    else if c == line_feed
    then push_row max_rows p
    else if c == carriage_return
    then push_row max_rows (record p { skip = head_is line_feed after })
    else ok (add c p)

unfoldable pub loop : ℕ → Text → Parser → CsvResult Parser
unfolding step
loop max_rows [] p = ok p
loop max_rows (c ∷ after) p = bind_csv (step max_rows c after p) (loop max_rows after)

abbrev pub begin : Parser
begin = record { rows = []; row = []; field = []; in_quotes = false; skip = false }

abbrev pub without_mark : Text → Text
without_mark [] = []
without_mark (c ∷ s) = if c == byte_order_mark then s else c ∷ s

unfoldable pub finish : ℕ → Parser → CsvResult (List (List Text))
unfolding push_row
finish max_rows p =
    if p.in_quotes
    then err unterminated_field
    else if not (is_empty p.field) || not (is_empty p.row)
    then bind_csv (push_row max_rows p) (λ q. ok q.rows)
    else ok p.rows

-- `parseCsv`
unfoldable pub parse_csv : ℕ → Text → CsvResult (List (List Text))
unfolding loop finish
parse_csv max_rows text = bind_csv (loop max_rows (without_mark text) begin) (finish max_rows)
