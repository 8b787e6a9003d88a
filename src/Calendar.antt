-- ===== src/Calendar.antt =====
-- The part of std::chrono's civil calendar that the code uses: leap years, the days of a month and
-- year_month_day::ok(), where month and day are kept as unsigned bytes.
use ssa_consulta_rapidacpp.Prelude.{
  ◌*◌, ◌/◌, ℕ, ◌+◌, ◌-◌, ◌%◌, Bool, not, ◌&&◌, ◌||◌, leb, ◌==◌, if◌then◌else◌,
}
use ssa_consulta_rapidacpp.Prelude.Int.{ℤ, pos, negsuc}

unfoldable pub is_leap : ℕ → Bool
is_leap y = y % 4 == 0 && (not (y % 100 == 0) || y % 400 == 0)

-- year{y}.is_leap() depends on divisibility alone.
unfoldable pub is_leap_year : ℤ → Bool
unfolding is_leap
is_leap_year (pos y) = is_leap y
is_leap_year (negsuc y) = is_leap (y + 1)

-- year::ok(): a value of short but its least.
unfoldable pub year_ok : ℤ → Bool
year_ok (pos y) = leb y 32767
year_ok (negsuc y) = leb (y + 1) 32767

unfoldable pub last_day : ℤ → ℕ → ℕ
unfolding is_leap_year
last_day y m =
    if m == 2
    then (if is_leap_year y then 29 else 28)
    else if m == 4 || m == 6 || m == 9 || m == 11
    then 30
    else 31

-- static_cast<unsigned char>(static_cast<unsigned>(value))
unfoldable pub to_byte : ℤ → ℕ
to_byte (pos n) = n % 256
to_byte (negsuc n) = 255 - n % 256

-- year_month_day{year{y}, month{m}, day{d}}.ok()
unfoldable pub date_ok : ℤ → ℤ → ℤ → Bool
unfolding year_ok last_day to_byte
date_ok y m d =
    let month = to_byte m in
    let day = to_byte d in
    year_ok y && (leb 1 month && leb month 12) && (leb 1 day && leb day (last_day y month))

-- std::chrono::sys_days as the number of days since the first day of year 1, a Monday.
unfoldable pub days_before_year : ℕ → ℕ
days_before_year y = let p = y - 1 in 365 * p + p / 4 - p / 100 + p / 400

unfoldable pub days_before_month : ℕ → ℕ → ℕ
unfolding is_leap
days_before_month y m = (367 * m - 362) / 12 - (if leb m 2 then 0 else if is_leap y then 1 else 2)

-- sys_days{year{y} / m / d} for a valid date.
unfoldable pub day_number : ℕ → ℕ → ℕ → ℕ
unfolding days_before_year days_before_month
day_number y m d = days_before_year y + days_before_month y m + d - 1

-- weekday{day}.iso_encoding(): Monday is 1 and Sunday is 7.
unfoldable pub iso_weekday : ℕ → ℕ
iso_weekday day = day % 7 + 1

pub record CivilDate : Type 0 where
  pub year : ℕ
  pub month : ℕ
  pub day : ℕ

-- year_month_day{day}: by eras of 400 years that begin in March.
unfoldable pub civil_date : ℕ → CivilDate
civil_date day_since_year_1 =
    let z = day_since_year_1 + 306 in
    let doe = z % 146097 in
    let yoe = (doe + doe / 36524 - doe / 1460 - doe / 146096) / 365 in
    let doy = doe - (365 * yoe + yoe / 4 - yoe / 100) in
    let mp = (5 * doy + 2) / 153 in
    let m : ℕ = if leb mp 9 then mp + 3 else mp - 9 in
    record {
      year = yoe + z / 146097 * 400 + (if leb m 2 then 1 else 0);
      month = m;
      day = doy - (153 * mp + 2) / 5 + 1;
    }
