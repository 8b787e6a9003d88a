-- ===== src/Timestamp.antt =====
-- The timestamps of src/domain/SsaImportPolicy.cpp: parsing the formats of a spreadsheet's fields,
-- the normalized text and the key by which snapshots are ordered.
pub mod Format
pub mod Order
pub mod Filename
pub mod Samples
use ssa_consulta_rapidacpp.Prelude.{
  ℕ, zero, suc, ◌+◌, Bool, true, false, not, ◌&&◌, ◌||◌, List, [], ◌∷◌, ◌++◌, Option, none, some,
  leb, ltb, ◌==◌, if◌then◌else◌, length, get_or, take, drop,
}
use ssa_consulta_rapidacpp.Prelude.Int.{ℤ, pos, negsuc, at_least, below}
use ssa_consulta_rapidacpp.Text.{Text}
use ssa_consulta_rapidacpp.Text.Trim.{trim}
use ssa_consulta_rapidacpp.Number.{parse_part, field2, field4}
use ssa_consulta_rapidacpp.Calendar.{date_ok}

pub record SnapshotTimestamp : Type 0 where
  pub year : ℤ
  pub month : ℤ
  pub day : ℤ
  pub hour : ℤ
  pub minute : ℤ
  pub second : ℤ

unfoldable pub valid_timestamp : SnapshotTimestamp → Bool
valid_timestamp t =
    (at_least 0 t.hour && below 24 t.hour)
    && (at_least 0 t.minute && below 60 t.minute)
    && (at_least 0 t.second && below 60 t.second)
    && date_ok t.year t.month t.day

-- text[i] and text.substr(offset, count); every use stands behind a test of the size.
abbrev pub at : Text → ℕ → ℕ
at text i = get_or text i 0

abbrev pub substr : Text → ℕ → ℕ → Text
substr text offset count = take count (drop offset text)

pub record FieldSlice : Type 0 where
  pub offset : ℕ
  pub count : ℕ

abbrev pub slice : ℕ → ℕ → FieldSlice
slice o n = record { offset = o; count = n }

-- One round of the loop of parseFields: a slice of no length leaves the value 0.
unfoldable pub parse_slice : Text → FieldSlice → Option ℤ
parse_slice text f =
    if f.count == 0
    then some (pos 0)
    else if ltb (length text) (f.offset + f.count)
    then none
    else parse_part (substr text f.offset f.count)

abbrev pub checked : SnapshotTimestamp → Option SnapshotTimestamp
checked t = if valid_timestamp t then some t else none

infixl 5 ◌>>=◌
abbrev pub ◌>>=◌ : {A B : Type 0} → Option A → (A → Option B) → Option B
none >>= f = none
some a >>= f = f a

pub record Fields : Type 0 where
  pub first : FieldSlice
  pub second : FieldSlice
  pub third : FieldSlice
  pub hour : FieldSlice
  pub minute : FieldSlice
  pub seconds : FieldSlice

abbrev pub fields :
    FieldSlice → FieldSlice → FieldSlice → FieldSlice → FieldSlice → FieldSlice → Fields
fields a b c h m s = record { first = a; second = b; third = c; hour = h; minute = m; seconds = s }

unfoldable pub parse_fields : Text → Fields → Bool → Option SnapshotTimestamp
parse_fields text f day_first = do
  v0 ← parse_slice text f.first
  v1 ← parse_slice text f.second
  v2 ← parse_slice text f.third
  v3 ← parse_slice text f.hour
  v4 ← parse_slice text f.minute
  v5 ← parse_slice text f.seconds
  checked (record {
    year = if day_first then v2 else v0;
    month = v1;
    day = if day_first then v0 else v2;
    hour = v3;
    minute = v4;
    second = v5;
  })

abbrev pub no_slice : FieldSlice
no_slice = slice 0 0

abbrev pub date_time_fields : Fields
date_time_fields = fields (slice 0 4) (slice 5 2) (slice 8 2) (slice 11 2) (slice 14 2) (slice 17 2)

abbrev pub day_first_date_time_fields : Fields
day_first_date_time_fields =
    fields (slice 0 2) (slice 3 2) (slice 6 4) (slice 11 2) (slice 14 2) (slice 17 2)

abbrev pub month_first_date_time_fields : Fields
month_first_date_time_fields =
    fields (slice 3 2) (slice 0 2) (slice 6 4) (slice 11 2) (slice 14 2) (slice 17 2)

abbrev pub day_first_minute_fields : Fields
day_first_minute_fields =
    fields (slice 0 2) (slice 3 2) (slice 6 4) (slice 11 2) (slice 14 2) no_slice

abbrev pub date_fields : Fields
date_fields = fields (slice 0 4) (slice 5 2) (slice 8 2) no_slice no_slice no_slice

abbrev pub day_first_date_fields : Fields
day_first_date_fields = fields (slice 0 2) (slice 3 2) (slice 6 4) no_slice no_slice no_slice

abbrev pub month_first_date_fields : Fields
month_first_date_fields = fields (slice 3 2) (slice 0 2) (slice 6 4) no_slice no_slice no_slice

abbrev pub or_else : {A : Type 0} → Option A → Option A → Option A
or_else none other = other
or_else (some a) other = some a

-- The tests on the size and the separators that pick a format.
unfoldable pub is_iso_date_time : Text → Bool
is_iso_date_time text =
    length text == 19
    && (at text 4 == b'-' && at text 7 == b'-')
    && (at text 10 == b'T' || at text 10 == b' ')
    && (at text 13 == b':' && at text 16 == b':')

unfoldable pub is_slash_date_time : Text → Bool
is_slash_date_time text =
    length text == 19
    && (at text 2 == b'/' && at text 5 == b'/')
    && at text 10 == b' '
    && (at text 13 == b':' && at text 16 == b':')

unfoldable pub is_slash_minute : Text → Bool
is_slash_minute text =
    length text == 16
    && (at text 2 == b'/' && at text 5 == b'/')
    && at text 10 == b' '
    && at text 13 == b':'

unfoldable pub parse_date_only : Text → Option SnapshotTimestamp
parse_date_only text =
    if at text 4 == b'-' && at text 7 == b'-'
    then parse_fields text date_fields false
    else if at text 2 == b'-' && at text 5 == b'-' || at text 2 == b'/' && at text 5 == b'/'
    then or_else (parse_fields text day_first_date_fields true)
        (if at text 2 == b'/' then parse_fields text month_first_date_fields true else none)
    else none

unfoldable pub parse_exact_timestamp : Text → Option SnapshotTimestamp
parse_exact_timestamp text =
    if is_iso_date_time text
    then parse_fields text date_time_fields false
    else if is_slash_date_time text
    then or_else (parse_fields text day_first_date_time_fields true)
        (parse_fields text month_first_date_time_fields true)
    else if is_slash_minute text
    then parse_fields text day_first_minute_fields true
    else if not (length text == 10)
    then none
    else parse_date_only text

-- "%04d-%02d-%02d %02d:%02d:%02d"
unfoldable pub format_timestamp : SnapshotTimestamp → Text
format_timestamp t =
    field4 t.year
    ++ (b'-'
        ∷ (field2 t.month
            ++ (b'-'
                ∷ (field2 t.day
                    ++ (b' '
                        ∷ (field2 t.hour
                            ++ (b':' ∷ (field2 t.minute ++ (b':' ∷ field2 t.second)))))))))

-- timestampKey: "%04d%02d%02d%02d%02d%02d"
unfoldable pub timestamp_key : SnapshotTimestamp → Text
timestamp_key t =
    field4 t.year
    ++ (field2 t.month ++ (field2 t.day ++ (field2 t.hour ++ (field2 t.minute ++ field2 t.second))))

-- SsaImportPolicy::normalizeSnapshotTimestamp; the empty text stands for no timestamp.
unfoldable pub format_or_empty : Option SnapshotTimestamp → Text
format_or_empty none = []
format_or_empty (some t) = format_timestamp t

unfoldable pub normalize_snapshot_timestamp : Text → Text
normalize_snapshot_timestamp value = format_or_empty (parse_exact_timestamp (trim value))

unfoldable pub normalize_date_text : Text → Text
normalize_date_text value =
    let text = trim value in
    let normalized = normalize_snapshot_timestamp text in
    let has_iso_date_prefix = leb 10 (length text) && (at text 4 == b'-' && at text 7 == b'-') in
    let is_iso_date = length text == 10 in
    let is_iso_date_time = length text == 19 && (at text 10 == b' ' || at text 10 == b'T') in
    if length normalized == 0
    then []
    else if has_iso_date_prefix && (is_iso_date || is_iso_date_time)
    then text
    else normalized

unfoldable pub snapshot_key_for_field : Text → Option Text
snapshot_key_for_field value = elim (parse_exact_timestamp value) [
  | none ↦ none
  | some t ↦ some (timestamp_key t)
]
