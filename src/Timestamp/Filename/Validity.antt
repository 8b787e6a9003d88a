-- ===== src/Timestamp/Filename/Validity.antt =====
-- Every time that is read from a file name is a time of the calendar; what the order of the formats
-- does to names whose date is written year first.
use ssa_consulta_rapidacpp.Prelude.{
  ℕ, ◌+◌, ◌&&◌, ◌||◌, ◌==◌, leb, if◌then◌else◌, ◌≡◌, ◌≢◌, Bool, true, false, [], ◌∷◌, Option, none,
  some, arith, Option-cases, inl, inr, length,
}
use ssa_consulta_rapidacpp.Prelude.Int.{pos}
use ssa_consulta_rapidacpp.Text.{Text}
use ssa_consulta_rapidacpp.Timestamp.{SnapshotTimestamp, valid_timestamp, checked, at, ◌>>=◌}
use ssa_consulta_rapidacpp.Timestamp.Filename.{
  apply_meridiem, FilenameTimestampFields, parse_timestamp, parse_date_at, date_separator,
  year_first_fields, compact_meridiem, colon_meridiem, day_first_date, year_first_date,
  year_first_time, filename_timestamp_at, filename_timestamp,
}

checked-valid : (t u : SnapshotTimestamp) → checked t ≡ some u → valid_timestamp u ≡ true
checked-valid t u h = ground arith

apply_meridiem-valid :
    (t u : SnapshotTimestamp) (marker : Text)
    → valid_timestamp t ≡ true
    → apply_meridiem t marker ≡ some u
    → valid_timestamp u ≡ true
unfolding apply_meridiem valid_timestamp
apply_meridiem-valid t u marker v h = ground arith

parse_timestamp-valid :
    (text : Text) (f : FilenameTimestampFields) (t : SnapshotTimestamp)
    → parse_timestamp text f ≡ some t
    → valid_timestamp t ≡ true
unfolding parse_timestamp
parse_timestamp-valid text f t h = ground arith

parse_date_at-valid :
    (text : Text) (y m d : ℕ) (t : SnapshotTimestamp)
    → parse_date_at text y m d ≡ some t
    → valid_timestamp t ≡ true
unfolding parse_date_at
parse_date_at-valid text y m d t h = ground arith

parse_date_at-midnight :
    (text : Text) (y m d : ℕ) (t : SnapshotTimestamp)
    → parse_date_at text y m d ≡ some t
    → (t.hour ≡ pos 0) × (t.minute ≡ pos 0) × (t.second ≡ pos 0)
unfolding parse_date_at
parse_date_at-midnight text y m d t h = ground arith

-- Where a date and time are read, the date alone is read too.
parse_date_at-of_time :
    (text : Text) (f : FilenameTimestampFields) (t : SnapshotTimestamp)
    → parse_timestamp text f ≡ some t
    → parse_date_at text f.year_offset f.month_offset f.day_offset ≢ none
unfolding parse_timestamp parse_date_at valid_timestamp
parse_date_at-of_time text f t h = ground arith

guarded :
    (b : Bool) (o : Option SnapshotTimestamp) (t : SnapshotTimestamp)
    → (if b then o else none) ≡ some t
    → o ≡ some t
guarded true o t h = h
guarded false o t h = cc

marked-valid :
    (text : Text) (f : FilenameTimestampFields) (marker : Text) (t : SnapshotTimestamp)
    → (do u ← parse_timestamp text f; apply_meridiem u marker) ≡ some t
    → valid_timestamp t ≡ true
marked-valid text f marker t = elim (Option-cases (parse_timestamp text f)) [
  | inl failed ↦ rw failed (λ h. cc)
  | inr (u, e) ↦ rw e (apply_meridiem-valid u t marker (parse_timestamp-valid text f u e))
]

compact_meridiem-valid :
    (text : Text) (t : SnapshotTimestamp)
    → compact_meridiem text ≡ some t
    → valid_timestamp t ≡ true
unfolding compact_meridiem
compact_meridiem-valid text t h = marked-valid text _ _ t (guarded _ _ t h)

colon_meridiem-valid :
    (text : Text) (t : SnapshotTimestamp) → colon_meridiem text ≡ some t → valid_timestamp t ≡ true
unfolding colon_meridiem
colon_meridiem-valid text t h = marked-valid text _ _ t (guarded _ _ t (guarded _ _ t h))

day_first_date-valid :
    (text : Text) (t : SnapshotTimestamp) → day_first_date text ≡ some t → valid_timestamp t ≡ true
unfolding day_first_date
day_first_date-valid text t h = ground (arith, parse_date_at-valid text 6 3 0 t)

year_first_date-valid :
    (text : Text) (t : SnapshotTimestamp) → year_first_date text ≡ some t → valid_timestamp t ≡ true
unfolding year_first_date
year_first_date-valid text t h = ground (arith, parse_date_at-valid text 0 5 8 t)

year_first_time-valid :
    (text : Text) (t : SnapshotTimestamp) → year_first_time text ≡ some t → valid_timestamp t ≡ true
unfolding year_first_time
year_first_time-valid text t h = grind (arith, parse_timestamp-valid)

filename_timestamp_at-valid :
    (text : Text) (t : SnapshotTimestamp)
    → filename_timestamp_at text ≡ some t
    → valid_timestamp t ≡ true
unfolding filename_timestamp_at
filename_timestamp_at-valid text t h = ground (
  arith,
  compact_meridiem-valid text t,
  colon_meridiem-valid text t,
  day_first_date-valid text t,
  year_first_date-valid text t,
  year_first_time-valid text t,
)

-- A time that is read from a file name is a valid time of the calendar: hour, minute and second in
-- range, also after the AM or PM marker is applied, and a day that its month has.
pub filename_timestamp-valid :
    (filename : Text) (t : SnapshotTimestamp)
    → filename_timestamp filename ≡ some t
    → valid_timestamp t ≡ true
unfolding filename_timestamp
filename_timestamp-valid [] t h = cc
filename_timestamp-valid (c ∷ s) t h =
    ground (arith, filename_timestamp_at-valid (c ∷ s) t, filename_timestamp-valid s t)

year_first_time-parts :
    (text : Text) (t : SnapshotTimestamp)
    → year_first_time text ≡ some t
    → (n : ℕ) × (k : ℕ) × (parse_timestamp text (year_first_fields n k) ≡ some t)
      × (leb 10 (length text) && (date_separator (at text 4) && date_separator (at text 7)) ≡ true)
unfolding year_first_time
year_first_time-parts text t h =
    let n : ℕ = if at text 12 == b':' || at text 12 == b'.' then 1 else 2 in
    (n, 11 + n + 1, guarded _ _ t (guarded _ _ t h), ground arith)

year_first_date-of_time :
    (text : Text) (t : SnapshotTimestamp)
    → year_first_time text ≡ some t
    → year_first_date text ≢ none
unfolding year_first_date
year_first_date-of_time text t h =
    let (n, k, time, form) = year_first_time-parts text t h in
    rw form (parse_date_at-of_time text (year_first_fields n k) t time)

-- The format with a time of day is never reached with success.
year_first_time-after_date :
    (text : Text) → year_first_date text ≡ none → year_first_time text ≡ none
year_first_time-after_date text h = elim (Option-cases (year_first_time text)) [
  | inl failed ↦ failed
  | inr (t, e) ↦ absurd (year_first_date-of_time text t e h)
]

year_first_date-midnight :
    (text : Text) (t : SnapshotTimestamp)
    → year_first_date text ≡ some t
    → (t.hour ≡ pos 0) × (t.minute ≡ pos 0) × (t.second ≡ pos 0)
unfolding year_first_date
year_first_date-midnight text t h = parse_date_at-midnight text 0 5 8 t (guarded _ _ t h)

day_first_formats :
    (text : Text)
    → date_separator (at text 2) ≡ false
    → (compact_meridiem text ≡ none) × (colon_meridiem text ≡ none) × (day_first_date text ≡ none)
unfolding compact_meridiem colon_meridiem day_first_date date_separator
day_first_formats text h = (ground arith, ground arith, ground arith)

-- A time that is read at a place of a name where the third byte is no date separator, as in a date
-- written year first, is at midnight: a time of day that follows such a date is never used there.
pub year_first_midnight :
    (text : Text) (t : SnapshotTimestamp)
    → date_separator (at text 2) ≡ false
    → filename_timestamp_at text ≡ some t
    → (t.hour ≡ pos 0) × (t.minute ≡ pos 0) × (t.second ≡ pos 0)
unfolding filename_timestamp_at
year_first_midnight text t sep h =
    let (compact, colon, day_first) = day_first_formats text sep in
    ground (
      arith,
      compact,
      colon,
      day_first,
      year_first_time-after_date text,
      year_first_date-midnight text t,
    )
