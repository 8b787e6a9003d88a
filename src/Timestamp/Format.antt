-- ===== src/Timestamp/Format.antt =====
-- The normalized text of a timestamp is read back as the timestamp, and normalizing is idempotent.
use ssa_consulta_rapidacpp.Prelude.{
  ℕ, zero, suc, ◌/◌, ◌+◌, ◌≤◌, ◌≡◌, refl, ap, subst, Bool, true, false, [], ◌∷◌, ◌++◌, Option, none,
  some, arith, length, ltb, if◌then◌else◌, Bool-cases, inl, inr,
}
use ssa_consulta_rapidacpp.Prelude.Int.{ℤ, pos, negsuc}
use ssa_consulta_rapidacpp.Text.{Text, is_space}
use ssa_consulta_rapidacpp.Text.Trim.{trim, trim-nil, trim-eq_self}
use ssa_consulta_rapidacpp.Number.{parse_part, field2, field4, digit}
use ssa_consulta_rapidacpp.Number.Laws.{
  InTwo, InFour, parse_two, parse_four, parse_part-field2, parse_part-field4,
}
use ssa_consulta_rapidacpp.Timestamp.{
  SnapshotTimestamp, valid_timestamp, FieldSlice, slice, substr, parse_slice, Fields, parse_fields,
  parse_date_only, parse_exact_timestamp, is_iso_date_time, is_slash_date_time, is_slash_minute,
  checked, fields, no_slice, ◌>>=◌, format_timestamp, format_or_empty, normalize_snapshot_timestamp,
}

-- The values that the formats can carry, valid as a time of the calendar.
pub record IsReadable (t : SnapshotTimestamp) : Type 0 where
  pub year_in : InFour t.year
  pub month_in : InTwo t.month
  pub day_in : InTwo t.day
  pub hour_in : InTwo t.hour
  pub minute_in : InTwo t.minute
  pub second_in : InTwo t.second
  pub valid : valid_timestamp t ≡ true

length-substr : (o n : ℕ) (s : Text) → o + n ≤ length s → length (substr s o n) ≡ n
length-substr zero zero s h = refl
length-substr zero (suc n) [] h = absurd (omega arith)
length-substr zero (suc n) (c ∷ s) h = ap suc (length-substr zero n s (omega arith))
length-substr (suc o) zero [] h = absurd (omega arith)
length-substr (suc o) (suc n) [] h = absurd (omega arith)
length-substr (suc o) n (c ∷ s) h = length-substr o n s (omega arith)

parse_two_of : (s : Text) (z : ℤ) → length s ≡ 2 → parse_part s ≡ some z → InTwo z
parse_two_of [] z l h = absurd (omega arith)
parse_two_of (a ∷ []) z l h = absurd (omega arith)
parse_two_of (a ∷ b ∷ []) z l h = parse_two a b z h
parse_two_of (a ∷ b ∷ c ∷ s) z l h = absurd (omega arith)

parse_four_of : (s : Text) (z : ℤ) → length s ≡ 4 → parse_part s ≡ some z → InFour z
parse_four_of [] z l h = absurd (omega arith)
parse_four_of (a ∷ []) z l h = absurd (omega arith)
parse_four_of (a ∷ b ∷ []) z l h = absurd (omega arith)
parse_four_of (a ∷ b ∷ c ∷ []) z l h = absurd (omega arith)
parse_four_of (a ∷ b ∷ c ∷ d ∷ []) z l h = parse_four a b c d z h
parse_four_of (a ∷ b ∷ c ∷ d ∷ e ∷ s) z l h = absurd (omega arith)

pub parse_slice-two :
    (text : Text) (o : ℕ) (z : ℤ) → parse_slice text (slice o 2) ≡ some z → InTwo z
unfolding parse_slice
parse_slice-two text o z = elim (Bool-cases (ltb (length text) (o + 2))) [
  | inl short ↦ rw short (λ h. cc)
  | inr fits ↦ rw fits (parse_two_of (substr text o 2) z (length-substr o 2 text (ground arith)))
]

pub parse_slice-four :
    (text : Text) (o : ℕ) (z : ℤ) → parse_slice text (slice o 4) ≡ some z → InFour z
unfolding parse_slice
parse_slice-four text o z = elim (Bool-cases (ltb (length text) (o + 4))) [
  | inl short ↦ rw short (λ h. cc)
  | inr fits ↦ rw fits (parse_four_of (substr text o 4) z (length-substr o 4 text (ground arith)))
]

parse_slice-none : (text : Text) (z : ℤ) → parse_slice text (slice 0 0) ≡ some z → InTwo z
unfolding parse_slice
parse_slice-none text z h = ground arith

abbrev Slot : (ℤ → Type 0) → Text → FieldSlice → Type 0
Slot P text f = (z : ℤ) → parse_slice text f ≡ some z → P z

checked-eq : (t u : SnapshotTimestamp) → checked t ≡ some u → (t ≡ u) × (valid_timestamp t ≡ true)
checked-eq t u h = ground arith

abbrev Year : Bool → ℤ → Type 0
Year true = InTwo
Year false = InFour

abbrev Day : Bool → ℤ → Type 0
Day true = InFour
Day false = InTwo

abbrev ordered : Bool → ℤ → ℤ → ℤ → ℤ → ℤ → ℤ → SnapshotTimestamp
ordered day_first v0 v1 v2 v3 v4 v5 = record {
  year = if day_first then v2 else v0;
  month = v1;
  day = if day_first then v0 else v2;
  hour = v3;
  minute = v4;
  second = v5;
}

ordered-IsReadable :
    (df : Bool) (v0 v1 v2 v3 v4 v5 : ℤ)
    → Year df v0
    → InTwo v1
    → Day df v2
    → InTwo v3
    → InTwo v4
    → InTwo v5
    → valid_timestamp (ordered df v0 v1 v2 v3 v4 v5) ≡ true
    → IsReadable (ordered df v0 v1 v2 v3 v4 v5)
ordered-IsReadable true v0 v1 v2 v3 v4 v5 a b c d e g v = record {
  year_in = c;
  month_in = b;
  day_in = a;
  hour_in = d;
  minute_in = e;
  second_in = g;
  valid = v;
}
ordered-IsReadable false v0 v1 v2 v3 v4 v5 a b c d e g v = record {
  year_in = a;
  month_in = b;
  day_in = c;
  hour_in = d;
  minute_in = e;
  second_in = g;
  valid = v;
}

abbrev Gives : Option ℤ → (ℤ → Type 0) → Type 0
Gives o P = (z : ℤ) → o ≡ some z → P z

values-IsReadable :
    (df : Bool) (t : SnapshotTimestamp) (o0 o1 o2 o3 o4 o5 : Option ℤ)
    → Gives o0 (Year df)
    → Gives o1 InTwo
    → Gives o2 (Day df)
    → Gives o3 InTwo
    → Gives o4 InTwo
    → Gives o5 InTwo
    → (do
      v0 ← o0
      v1 ← o1
      v2 ← o2
      v3 ← o3
      v4 ← o4
      v5 ← o5
      checked (ordered df v0 v1 v2 v3 v4 v5))
      ≡ some t
    → IsReadable t
values-IsReadable df t none o1 o2 o3 o4 o5 a b c d e g h = cc
values-IsReadable df t (some v0) none o2 o3 o4 o5 a b c d e g h = cc
values-IsReadable df t (some v0) (some v1) none o3 o4 o5 a b c d e g h = cc
values-IsReadable df t (some v0) (some v1) (some v2) none o4 o5 a b c d e g h = cc
values-IsReadable df t (some v0) (some v1) (some v2) (some v3) none o5 a b c d e g h = cc
values-IsReadable df t (some v0) (some v1) (some v2) (some v3) (some v4) none a b c d e g h = cc
values-IsReadable df t (some v0) (some v1) (some v2) (some v3) (some v4) (some v5) a b c d e g h =
    let u = ordered df v0 v1 v2 v3 v4 v5 in
    let (same, ok) = checked-eq u t h in
    subst IsReadable same (
      ordered-IsReadable df v0 v1 v2 v3 v4 v5 (a v0 refl) (b v1 refl) (c v2 refl) (d v3 refl)
        (e v4 refl) (g v5 refl) ok)

parse_fields-IsReadable :
    (text : Text) (f : Fields) (df : Bool) (t : SnapshotTimestamp)
    → Gives (parse_slice text f.first) (Year df)
    → Gives (parse_slice text f.second) InTwo
    → Gives (parse_slice text f.third) (Day df)
    → Gives (parse_slice text f.hour) InTwo
    → Gives (parse_slice text f.minute) InTwo
    → Gives (parse_slice text f.seconds) InTwo
    → parse_fields text f df ≡ some t
    → IsReadable t
unfolding parse_fields
parse_fields-IsReadable text f df t = values-IsReadable df t _ _ _ _ _ _

abbrev Reads : Text → Fields → Bool → Type 0
Reads text f df = (t : SnapshotTimestamp) → parse_fields text f df ≡ some t → IsReadable t

module _ (text : Text) (x y z u v w : ℕ) where
  year_first-Reads :
      Reads text
        (fields (slice x 4) (slice y 2) (slice z 2) (slice u 2) (slice v 2) (slice w 2))
        false
  year_first-Reads t =
      parse_fields-IsReadable text _ false t (parse_slice-four text x) (parse_slice-two text y)
        (parse_slice-two text z) (parse_slice-two text u) (parse_slice-two text v)
        (parse_slice-two text w)

  day_first-Reads :
      Reads text
        (fields (slice x 2) (slice y 2) (slice z 4) (slice u 2) (slice v 2) (slice w 2))
        true
  day_first-Reads t =
      parse_fields-IsReadable text _ true t (parse_slice-two text x) (parse_slice-two text y)
        (parse_slice-four text z) (parse_slice-two text u) (parse_slice-two text v)
        (parse_slice-two text w)

  minute-Reads :
      Reads text (fields (slice x 2) (slice y 2) (slice z 4) (slice u 2) (slice v 2) no_slice) true
  minute-Reads t =
      parse_fields-IsReadable text _ true t (parse_slice-two text x) (parse_slice-two text y)
        (parse_slice-four text z) (parse_slice-two text u) (parse_slice-two text v)
        (parse_slice-none text)

  date-Reads :
      Reads text (fields (slice x 4) (slice y 2) (slice z 2) no_slice no_slice no_slice) false
  date-Reads t =
      parse_fields-IsReadable text _ false t (parse_slice-four text x) (parse_slice-two text y)
        (parse_slice-two text z) (parse_slice-none text) (parse_slice-none text)
        (parse_slice-none text)

  day_first_date-Reads :
      Reads text (fields (slice x 2) (slice y 2) (slice z 4) no_slice no_slice no_slice) true
  day_first_date-Reads t =
      parse_fields-IsReadable text _ true t (parse_slice-two text x) (parse_slice-two text y)
        (parse_slice-four text z) (parse_slice-none text) (parse_slice-none text)
        (parse_slice-none text)

-- What a field's text is parsed to is a valid time whose parts fit the printed widths.
pub parse_exact_timestamp-IsReadable :
    (text : Text) (t : SnapshotTimestamp) → parse_exact_timestamp text ≡ some t → IsReadable t
unfolding parse_exact_timestamp parse_date_only
parse_exact_timestamp-IsReadable text t h = ground (
  arith,
  year_first-Reads text 0 5 8 11 14 17 t,
  day_first-Reads text 0 3 6 11 14 17 t,
  day_first-Reads text 3 0 6 11 14 17 t,
  minute-Reads text 0 3 6 11 14 0 t,
  date-Reads text 0 5 8 0 0 0 t,
  day_first_date-Reads text 0 3 6 0 0 0 t,
  day_first_date-Reads text 3 0 6 0 0 0 t,
)

-- The two and the four bytes of a printed field.
abbrev TwoCells : Text → Type 0
TwoCells s = (a : ℕ) × (b : ℕ) × (s ≡ a ∷ b ∷ []) × (is_space b ≡ false)

abbrev FourCells : Text → Type 0
FourCells s =
    (a : ℕ) × (b : ℕ) × (c : ℕ) × (d : ℕ) × (s ≡ a ∷ b ∷ c ∷ d ∷ []) × (is_space a ≡ false)

TwoCells-field2 : (z : ℤ) → TwoCells (field2 z)
unfolding field2 is_space
TwoCells-field2 (pos n) = (digit (n / 10), digit n, refl, ground arith)
TwoCells-field2 (negsuc n) = (b'-', digit (n + 1), refl, ground arith)

FourCells-field4 : (z : ℤ) → FourCells (field4 z)
unfolding field4 is_space
FourCells-field4 (pos n) =
    (digit (n / 1000), digit (n / 100), digit (n / 10), digit n, refl, ground arith)
FourCells-field4 (negsuc n) =
    (b'-', digit ((n + 1) / 100), digit ((n + 1) / 10), digit (n + 1), refl, refl)

abbrev iso_text : Text → Text → Text → Text → Text → Text → Text
iso_text y m d h i s =
    y ++ (b'-' ∷ (m ++ (b'-' ∷ (d ++ (b' ' ∷ (h ++ (b':' ∷ (i ++ (b':' ∷ s)))))))))

module _ (y m d h i s : Text) (fy : FourCells y) (fm : TwoCells m) (fd : TwoCells d)
    (fh : TwoCells h) (fi : TwoCells i) (fs : TwoCells s) where
  parse_iso_text : parse_exact_timestamp (iso_text y m d h i s) ≡ (do
    v0 ← parse_part y
    v1 ← parse_part m
    v2 ← parse_part d
    v3 ← parse_part h
    v4 ← parse_part i
    v5 ← parse_part s
    checked (ordered false v0 v1 v2 v3 v4 v5))
  unfolding parse_exact_timestamp is_iso_date_time parse_fields parse_slice
  parse_iso_text = rw (fy.4, fm.2, fd.2, fh.2, fi.2, fs.2) refl

  trim-iso_text : trim (iso_text y m d h i s) ≡ iso_text y m d h i s
  trim-iso_text = rw (fy.4, fm.2, fd.2, fh.2, fi.2, fs.2) (trim-eq_self _ (rw fy.5, rw fs.3))

-- The printed text of a readable timestamp is parsed to that timestamp.
pub parse_exact_timestamp-format_timestamp :
    (t : SnapshotTimestamp) → IsReadable t → parse_exact_timestamp (format_timestamp t) ≡ some t
unfolding format_timestamp
parse_exact_timestamp-format_timestamp t r =
    rw
      (
        parse_iso_text (field4 t.year) (field2 t.month) (field2 t.day) (field2 t.hour)
            (field2 t.minute) (field2 t.second) (FourCells-field4 t.year) (TwoCells-field2 t.month)
            (TwoCells-field2 t.day) (TwoCells-field2 t.hour) (TwoCells-field2 t.minute)
            (TwoCells-field2 t.second),
        parse_part-field4 t.year r.year_in,
        parse_part-field2 t.month r.month_in,
        parse_part-field2 t.day r.day_in,
        parse_part-field2 t.hour r.hour_in,
        parse_part-field2 t.minute r.minute_in,
        parse_part-field2 t.second r.second_in,
        r.valid,
      )
      refl

trim-format_timestamp : (t : SnapshotTimestamp) → trim (format_timestamp t) ≡ format_timestamp t
unfolding format_timestamp
trim-format_timestamp t =
    trim-iso_text (field4 t.year) (field2 t.month) (field2 t.day) (field2 t.hour) (field2 t.minute)
      (field2 t.second) (FourCells-field4 t.year) (TwoCells-field2 t.month) (TwoCells-field2 t.day)
      (TwoCells-field2 t.hour) (TwoCells-field2 t.minute) (TwoCells-field2 t.second)

parse_exact_timestamp-nil : parse_exact_timestamp [] ≡ none
unfolding parse_exact_timestamp is_iso_date_time is_slash_date_time is_slash_minute
parse_exact_timestamp-nil = refl

normalize-parsed :
    (o : Option SnapshotTimestamp)
    → ((t : SnapshotTimestamp) → o ≡ some t → IsReadable t)
    → normalize_snapshot_timestamp (format_or_empty o) ≡ format_or_empty o
unfolding normalize_snapshot_timestamp format_or_empty
normalize-parsed none r = rw (trim-nil, parse_exact_timestamp-nil) refl
normalize-parsed (some t) r =
    rw (trim-format_timestamp t, parse_exact_timestamp-format_timestamp t (r t refl)) refl

-- Normalizing a field's text twice is normalizing it once, whatever the text.
pub normalize_snapshot_timestamp_idem :
    (value : Text)
    → normalize_snapshot_timestamp (normalize_snapshot_timestamp value)
      ≡ normalize_snapshot_timestamp value
unfolding normalize_snapshot_timestamp
normalize_snapshot_timestamp_idem value =
    normalize-parsed (parse_exact_timestamp (trim value))
      (parse_exact_timestamp-IsReadable (trim value))
