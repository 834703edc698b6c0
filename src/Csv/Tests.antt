-- ===== src/Csv/Tests.antt =====
-- A table with a comma, quotes, a line end and a formula in its cells.
use conversa_forge.Prelude.{◌≡◌, refl, List, [], ◌∷◌, map, arith}
use conversa_forge.Csv.Parse.{ok, parse_csv}
use conversa_forge.Csv.Print.{Value, absent, number, shown_as, cell_text, to_csv}
use conversa_forge.Csv.RoundTrip.{parse_csv-to_csv}

abbrev header : List Value
header = shown_as (97 ∷ 44 ∷ []) ∷ shown_as (34 ∷ []) ∷ []

abbrev rows : List (List Value)
rows =
    (shown_as (61 ∷ 49 ∷ []) ∷ absent ∷ [])
    ∷ (number (45 ∷ 50 ∷ []) ∷ shown_as (13 ∷ 10 ∷ 32 ∷ []) ∷ [])
    ∷ []

parse_csv-to_csv_example :
    parse_csv 10 (to_csv header rows) ≡ ok (map (map cell_text) (header ∷ rows))
parse_csv-to_csv_example = parse_csv-to_csv 10 header rows (refl, (refl, (refl, tt))) (omega arith)
