-- ===== src/Csv/Reader.antt =====
-- A reader of comma separated records after RFC 4180, against which the export is judged.
use ssa_consulta_rapidacpp.Prelude.{
  ◌||◌, List, [], ◌∷◌, ◌++◌, Option, none, some, if◌then◌else◌, ◌==◌,
}
use ssa_consulta_rapidacpp.Text.{Text}
use ssa_consulta_rapidacpp.Csv.{quote}

pub data Mode : Type 0 where
  cell_start : Mode
  plain : Mode
  quoted : Mode
  quote_seen : Mode

-- Reads one record: its cells, and the text after the line feed that ends it. The cells read so far
-- and the cell being read come first; none for a text that is no record.
unfoldable pub read : Mode → List Text → Text → Text → Option (List Text × Text)
read mode cells cell [] = none
read cell_start cells cell (c ∷ text) =
    if c == quote
    then read quoted cells cell text
    else if c == b','
    then read cell_start (cells ++ cell ∷ []) [] text
    else if c == 10
    then some (cells ++ cell ∷ [], text)
    else if c == 13
    then none
    else read plain cells (cell ++ c ∷ []) text
read plain cells cell (c ∷ text) =
    if c == b','
    then read cell_start (cells ++ cell ∷ []) [] text
    else if c == 10
    then some (cells ++ cell ∷ [], text)
    else if c == 13 || c == quote
    then none
    else read plain cells (cell ++ c ∷ []) text
read quoted cells cell (c ∷ text) =
    if c == quote then read quote_seen cells cell text else read quoted cells (cell ++ c ∷ []) text
read quote_seen cells cell (c ∷ text) =
    if c == quote
    then read quoted cells (cell ++ c ∷ []) text
    else if c == b','
    then read cell_start (cells ++ cell ∷ []) [] text
    else if c == 10
    then some (cells ++ cell ∷ [], text)
    else none

abbrev pub read_record : Text → Option (List Text × Text)
read_record text = read cell_start [] [] text
