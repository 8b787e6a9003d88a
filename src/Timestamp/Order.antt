-- ===== src/Timestamp/Order.antt =====
-- The snapshot keys of two timestamps, compared as texts, are ordered as the times they stand for.
use ssa_consulta_rapidacpp.Prelude.{ℕ, ◌<◌, ◌≡◌, ap, ◌∙◌, Bool, ◌&&◌, ◌||◌, [], arith, ltb, ◌==◌}
use ssa_consulta_rapidacpp.Prelude.Int.{pos}
use ssa_consulta_rapidacpp.Text.{text_lt}
use ssa_consulta_rapidacpp.Number.{field2, field4, pad2}
use ssa_consulta_rapidacpp.Number.Laws.{text_lt-pad2, text_lt-pad4}
use ssa_consulta_rapidacpp.Timestamp.{SnapshotTimestamp, timestamp_key}

-- A time of the years 0 to 9999 by its numbers.
pub record Moment : Type 0 where
  pub year : ℕ
  pub month : ℕ
  pub day : ℕ
  pub hour : ℕ
  pub minute : ℕ
  pub second : ℕ

abbrev pub stamp : Moment → SnapshotTimestamp
stamp m = record {
  year = pos m.year;
  month = pos m.month;
  day = pos m.day;
  hour = pos m.hour;
  minute = pos m.minute;
  second = pos m.second;
}

pub record IsPrintable (m : Moment) : Type 0 where
  pub year_in : m.year < 10000
  pub month_in : m.month < 100
  pub day_in : m.day < 100
  pub hour_in : m.hour < 100
  pub minute_in : m.minute < 100
  pub second_in : m.second < 100

abbrev then_by : ℕ → ℕ → Bool → Bool
then_by a b rest = ltb a b || a == b && rest

-- Earlier: by year, then month, day, hour, minute and second.
abbrev pub earlier : Moment → Moment → Bool
earlier a b =
    ltb a.year b.year
    || a.year == b.year
      && (ltb a.month b.month
          || a.month == b.month
            && (ltb a.day b.day
                || a.day == b.day
                  && (ltb a.hour b.hour
                      || a.hour == b.hour
                        && (ltb a.minute b.minute
                            || a.minute == b.minute && ltb a.second b.second))))

text_lt-pad2_last : (a b : ℕ) → a < 100 → b < 100 → text_lt (pad2 a) (pad2 b) ≡ ltb a b
unfolding text_lt
text_lt-pad2_last a b h k = ground (arith, text_lt-pad2 a b [] [])

-- For times of the years 0 to 9999, one snapshot key is before the other as a text exactly when the
-- one time is earlier than the other.
pub text_lt-timestamp_key :
    (a b : Moment)
    → IsPrintable a
    → IsPrintable b
    → text_lt (timestamp_key (stamp a)) (timestamp_key (stamp b)) ≡ earlier a b
unfolding timestamp_key field2 field4
text_lt-timestamp_key a b p q =
    text_lt-pad4 a.year b.year _ _ p.year_in q.year_in
    ∙ ap (then_by a.year b.year) (
        text_lt-pad2 a.month b.month _ _ p.month_in q.month_in
        ∙ ap (then_by a.month b.month) (
            text_lt-pad2 a.day b.day _ _ p.day_in q.day_in
            ∙ ap (then_by a.day b.day) (
                text_lt-pad2 a.hour b.hour _ _ p.hour_in q.hour_in
                ∙ ap (then_by a.hour b.hour) (
                    text_lt-pad2 a.minute b.minute _ _ p.minute_in q.minute_in
                    ∙ ap (then_by a.minute b.minute)
                        (text_lt-pad2_last a.second b.second p.second_in q.second_in)))))
