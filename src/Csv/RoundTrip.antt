-- ===== src/Csv/RoundTrip.antt =====
-- What the export writes is read back as the values that it shows.
use ssa_consulta_rapidacpp.Prelude.{
  ℕ, ◌≡◌, refl, sym, ap, ◌∙◌, Bool, true, false, not, ◌&&◌, ◌||◌, List, [], ◌∷◌, ◌++◌, some,
  if◌then◌else◌, ◌==◌, arith, any, map, append-nil, append_assoc, Bool-cases, inl, inr,
}
use ssa_consulta_rapidacpp.Text.{Text}
use ssa_consulta_rapidacpp.Csv.{
  is_spreadsheet_formula_prefix, quote, is_special, double_quotes, append_csv_value, append_more,
  append_values, csv_header,
}
use ssa_consulta_rapidacpp.Csv.Reader.{cell_start, plain, quoted, quote_seen, read, read_record}

-- A value as the export shows it: what a spreadsheet would take for a formula stands behind an
-- apostrophe.
abbrev pub shown : Text → Text
shown value = if is_spreadsheet_formula_prefix value then b'\'' ∷ value else value

abbrev quoted_cell : Text → Text
quoted_cell value = quote ∷ (double_quotes (shown value) ++ quote ∷ [])

unfoldable csv_cell : Text → Text
csv_cell value =
    if not (is_spreadsheet_formula_prefix value) && not (any is_special value)
    then value
    else quoted_cell value

abbrev marked : Bool → Text → Text → Text
marked formula output value =
    ((if formula then (output ++ quote ∷ []) ++ b'\'' ∷ [] else output ++ quote ∷ [])
      ++ double_quotes value)
    ++ quote ∷ []

marked-append :
    (formula : Bool) (output value : Text)
    → marked formula output value
      ≡ output ++ (quote ∷ (double_quotes (if formula then b'\'' ∷ value else value) ++ quote ∷ []))
unfolding double_quotes
marked-append true output value = simp (append_assoc) refl
marked-append false output value = simp (append_assoc) refl

append_csv_value-cell :
    (output value : Text) → append_csv_value output value ≡ output ++ csv_cell value
unfolding append_csv_value csv_cell
append_csv_value-cell output value =
    elim (Bool-cases (not (is_spreadsheet_formula_prefix value) && not (any is_special value))) [
      | inl bare ↦ rw bare refl
      | inr other ↦ rw other (marked-append (is_spreadsheet_formula_prefix value) output value)
    ]

unfoldable more_cells : List Text → Text
more_cells [] = []
more_cells (value ∷ values) = b',' ∷ (csv_cell value ++ more_cells values)

append_more-cells :
    (output : Text) (values : List Text) → append_more output values ≡ output ++ more_cells values
unfolding append_more more_cells
append_more-cells output [] = sym (append-nil output)
append_more-cells output (value ∷ values) =
    append_more-cells (append_csv_value (output ++ b',' ∷ []) value) values
    ∙ ap (λ t. t ++ more_cells values) (append_csv_value-cell (output ++ b',' ∷ []) value)
    ∙ simp (append_assoc) refl

read-double_quotes :
    (cells : List Text) (cell value text : Text)
    → read quoted cells cell (double_quotes value ++ quote ∷ text)
      ≡ read quote_seen cells (cell ++ value) text
unfolding read double_quotes
read-double_quotes cells cell [] text =
    ap (λ t. read quote_seen cells t text) (sym (append-nil cell))
read-double_quotes cells cell (c ∷ value) text = elim (Bool-cases (c == quote)) [
  | inl is_quote ↦ rw is_quote (
      rw is_quote (
        read-double_quotes cells (cell ++ c ∷ []) value text
        ∙ ap (λ t. read quote_seen cells t text) (append_assoc cell (c ∷ []) value)))
  | inr other ↦ rw other (
      rw other (
        read-double_quotes cells (cell ++ c ∷ []) value text
        ∙ ap (λ t. read quote_seen cells t text) (append_assoc cell (c ∷ []) value)))
]

read-plain :
    (cells : List Text) (cell value text : Text)
    → any is_special value ≡ false
    → read plain cells cell (value ++ text) ≡ read plain cells (cell ++ value) text
unfolding read
read-plain cells cell [] text h = ap (λ t. read plain cells t text) (sym (append-nil cell))
read-plain cells cell (c ∷ value) text h =
    let rest : any is_special value ≡ false = ground arith in
    let comma : (c == b',') ≡ false = ground arith in
    let feed : (c == 10) ≡ false = ground arith in
    let other : (c == 13 || c == quote) ≡ false = ground arith in
    rw (comma, feed, other)
      (read-plain cells (cell ++ c ∷ []) value text rest
        ∙ ap (λ t. read plain cells t text) (append_assoc cell (c ∷ []) value))

module _ (cells : List Text) (d : ℕ) (text : Text) (ends : (d == b',' || d == 10) ≡ true) where
  -- After a cell, each way of reading it takes the delimiter alike.
  start_ends :
      (cell : Text) → read cell_start cells cell (d ∷ text) ≡ read quote_seen cells cell (d ∷ text)
  unfolding read
  start_ends cell = ground arith

  plain_ends :
      (cell : Text) → read plain cells cell (d ∷ text) ≡ read quote_seen cells cell (d ∷ text)
  unfolding read
  plain_ends cell = ground arith

  read_bare :
      (value : Text)
      → any is_special value ≡ false
      → read cell_start cells [] (value ++ d ∷ text) ≡ read quote_seen cells value (d ∷ text)
  unfolding read
  read_bare [] h = start_ends []
  read_bare (c ∷ value) h =
      let rest : any is_special value ≡ false = ground arith in
      let q : (c == quote) ≡ false = ground arith in
      let comma : (c == b',') ≡ false = ground arith in
      let feed : (c == 10) ≡ false = ground arith in
      let ret : (c == 13) ≡ false = ground arith in
      rw (q, comma, feed, ret)
        (read-plain cells (c ∷ []) value (d ∷ text) rest ∙ plain_ends (c ∷ value))

  read-csv_cell :
      (value : Text)
      → read cell_start cells [] (csv_cell value ++ d ∷ text)
        ≡ read quote_seen cells (shown value) (d ∷ text)
  unfolding csv_cell read
  read-csv_cell value =
      elim (Bool-cases (not (is_spreadsheet_formula_prefix value) && not (any is_special value))) [
        | inl bare ↦
            let no_formula : is_spreadsheet_formula_prefix value ≡ false = ground arith in
            rw (bare, no_formula) (read_bare value (ground arith))
        | inr other ↦ rw other (
            ap (read quoted cells [])
              (append_assoc (double_quotes (shown value)) (quote ∷ []) (d ∷ text))
            ∙ read-double_quotes cells [] (shown value) (d ∷ text))
      ]

abbrev row_end : List Text → Text → Text
row_end values text = more_cells values ++ 10 ∷ text

read_cell_before :
    (cells : List Text) (value : Text) (values : List Text) (text : Text)
    → read cell_start cells [] (csv_cell value ++ row_end values text)
      ≡ read quote_seen cells (shown value) (row_end values text)
unfolding more_cells
read_cell_before cells value [] text = read-csv_cell cells 10 text refl value
read_cell_before cells value (next ∷ values) text =
    read-csv_cell cells b',' ((csv_cell next ++ more_cells values) ++ 10 ∷ text) refl value

read_more :
    (cells : List Text) (cell : Text) (values : List Text) (text : Text)
    → read quote_seen cells cell (row_end values text)
      ≡ some (cells ++ cell ∷ map shown values, text)
unfolding read more_cells
read_more cells cell [] text = refl
read_more cells cell (value ∷ values) text =
    ap (read cell_start (cells ++ cell ∷ []) [])
      (append_assoc (csv_cell value) (more_cells values) (10 ∷ text))
    ∙ read_cell_before (cells ++ cell ∷ []) value values text
    ∙ read_more (cells ++ cell ∷ []) (shown value) values text
    ∙ ap (λ t. some (t, text)) (append_assoc cells (cell ∷ []) (shown value ∷ map shown values))

append_values-cells :
    (value : Text) (values : List Text)
    → append_values [] (value ∷ values) ≡ csv_cell value ++ more_cells values
unfolding append_values
append_values-cells value values =
    append_more-cells (append_csv_value [] value) values
    ∙ ap (λ t. t ++ more_cells values) (append_csv_value-cell [] value)

-- A line of the export is read back, by a reader of comma separated records, as the values that it
-- shows, whatever bytes they hold, and the reader goes on behind the line: no value can end its cell
-- or its line early.
pub read_record-csv_header :
    (value : Text) (values : List Text) (text : Text)
    → read_record (csv_header (value ∷ values) ++ text) ≡ some (map shown (value ∷ values), text)
unfolding csv_header
read_record-csv_header value values text =
    rw
      (
        append_values-cells value values,
        append_assoc (csv_cell value ++ more_cells values) (10 ∷ []) text,
        append_assoc (csv_cell value) (more_cells values) (10 ∷ text),
      )
      (read_cell_before [] value values text ∙ read_more [] (shown value) values text)
