-- ===== src/ImportRow/Usable.antt =====
-- What validating a row guarantees to the merge: validateRow and snapshotKey of
-- src/domain/SsaImportPolicy.cpp.
use ssa_consulta_rapidacpp.Prelude.{
  ◌≡◌, refl, ◌≢◌, ◌⊎◌, true, false, not, ◌&&◌, List, [], ◌∷◌, none, String, arith, is_empty, all,
  length, inl, inr, Bool, Option, some, subst, Bool-cases, Option-cases,
}
use text.Mathlib.Text.{◌==◌ as str_eq}
use text.Mathlib.TextEquality.{eq_iff}
use ssa_consulta_rapidacpp.Text.{Text, is_digit}
use ssa_consulta_rapidacpp.Assoc.{string_eq, lookup}
use ssa_consulta_rapidacpp.Timestamp.{snapshot_key_for_field}
use ssa_consulta_rapidacpp.ImportRow.{
  Values, value_for, normalize_number, no_issue, is_date_exempt_status, is_date_field, is_timestamp,
  date_fields_issue, validate_row, first_snapshot, snapshot_key,
}
use ssa_consulta_rapidacpp.ImportRow.Validation.{IsNumber, normalize_number-IsNumber}

-- Each date field that holds something holds a timestamp.
abbrev DatesHold : Values → Values → Type 0
DatesHold row [] = Unit
DatesHold row ((key, value) ∷ entries) =
    ((is_date_field key && not (is_empty (value_for row key)) && not (is_timestamp value)) ≡ false)
    × DatesHold row entries

date_fields_issue-DatesHold :
    (row entries : Values) → date_fields_issue row entries ≡ no_issue → DatesHold row entries
unfolding date_fields_issue
date_fields_issue-DatesHold row [] h = tt
date_fields_issue-DatesHold row ((key, value) ∷ entries) h =
    (ground arith, date_fields_issue-DatesHold row entries (ground arith))

first_snapshot-last :
    (row : Values) (keys : List String)
    → is_timestamp (value_for row "data_cadastro") ≡ true
    → first_snapshot row keys ≢ none
unfolding first_snapshot snapshot_key_for_field
first_snapshot-last row [] h e = ground arith
first_snapshot-last row (k ∷ keys) h e = ground (arith, first_snapshot-last row keys h)

dated_row :
    (row : Values)
    → validate_row row ≡ no_issue
    → is_empty (value_for row "data_cadastro") ≡ false
    → is_timestamp (value_for row "data_cadastro") ≡ true
unfolding validate_row
dated_row row h full = ground arith

snapshot_key-valid :
    (row : Values)
    → validate_row row ≡ no_issue
    → is_empty (value_for row "data_cadastro") ≡ false
    → snapshot_key row ≢ none
unfolding snapshot_key
snapshot_key-valid row h full e =
    let keys : List String =
      "data_planilha" ∷ "data_criacao_arquivo" ∷ "data_arquivo_origem" ∷ [] in
    ground (arith, first_snapshot-last row keys (dated_row row h full))

abbrev pub holds_timestamp : Option Text → Bool
holds_timestamp none = false
holds_timestamp (some value) = is_timestamp value

abbrev is_present : Option Text → Bool
is_present none = false
is_present (some value) = true

lookup-DatesHold :
    (row entries : Values) (key : String)
    → DatesHold row entries
    → (is_date_field key
        && not (is_empty (value_for row key))
        && is_present (lookup key entries)
        && not (holds_timestamp (lookup key entries)))
      ≡ false
unfolding lookup
lookup-DatesHold row [] key h = ground arith
lookup-DatesHold row ((k, value) ∷ entries) key (p, h) = elim (Bool-cases (str_eq k key)) [
  | inl e ↦
      let same : k ≡ key = (eq_iff k key).0 e in
      rw e (
        subst
          (λ (j : String).
            (is_date_field j
              && not (is_empty (value_for row j))
              && true
              && not (is_timestamp value))
            ≡ false)
          same (ground (arith, p)))
  | inr e ↦ rw e (lookup-DatesHold row entries key h)
]

filled-present :
    (row : Values) (key : String)
    → is_empty (value_for row key) ≡ false
    → is_present (lookup key row) ≡ true
unfolding value_for
filled-present row key h = elim (Option-cases (lookup key row)) [
  | inl e ↦ ground (arith, e)
  | inr (value, e) ↦ rw e refl
]

dates_by_key :
    (row : Values) (key : String)
    → DatesHold row row
    → (is_date_field key
        && not (is_empty (value_for row key))
        && not (holds_timestamp (lookup key row)))
      ≡ false
dates_by_key row key h = elim (Bool-cases (is_empty (value_for row key))) [
  | inl e ↦ ground (arith, e)
  | inr e ↦ ground (arith, e, filled-present row key e, lookup-DatesHold row row key h)
]

-- What merging relies on in a row.
pub record IsUsable (row : Values) : Type 0 where
  pub digits : length (normalize_number (value_for row "numero_ssa")) ≡ 9
  pub number : all is_digit (normalize_number (value_for row "numero_ssa")) ≡ true
  pub dates :
      (key : String)
      → (is_date_field key
          && not (is_empty (value_for row key))
          && not (holds_timestamp (lookup key row)))
        ≡ false
  pub age :
      (snapshot_key row ≢ none)
      ⊎ ((is_empty (value_for row "data_cadastro") ≡ true)
          × (is_date_exempt_status (value_for row "situacao") ≡ true))

full_number :
    (n : Text) → IsNumber n → is_empty n ≡ false → (length n ≡ 9) × (all is_digit n ≡ true)
full_number n (inl e) h = absurd (ground (arith, e))
full_number n (inr p) h = p

exempt_row :
    (row : Values)
    → validate_row row ≡ no_issue
    → is_empty (value_for row "data_cadastro") ≡ true
    → is_date_exempt_status (value_for row "situacao") ≡ true
unfolding validate_row
exempt_row row h e = ground arith

valid_parts :
    (row : Values)
    → validate_row row ≡ no_issue
    → (is_empty (normalize_number (value_for row "numero_ssa")) ≡ false)
      × (date_fields_issue row row ≡ no_issue)
unfolding validate_row
valid_parts row h = (ground arith, ground arith)

-- A row that validation accepts can be merged: its number normalizes to nine digits, each date field
-- that holds something is found with a timestamp, and its age is known by a snapshot key unless it has
-- no registration date, which only an exempt status may have.
pub validate_row-IsUsable : (row : Values) → validate_row row ≡ no_issue → IsUsable row
validate_row-IsUsable row h =
    let (full, dated) = valid_parts row h in
    let n = full_number _ (normalize_number-IsNumber (value_for row "numero_ssa")) full in
    record {
      digits = n.0;
      number = n.1;
      dates = λ key. dates_by_key row key (date_fields_issue-DatesHold row row dated);
      age = elim (Bool-cases (is_empty (value_for row "data_cadastro"))) [
        | inl e ↦ inr (e, exempt_row row h e)
        | inr e ↦ inl (snapshot_key-valid row h e)
      ];
    }
