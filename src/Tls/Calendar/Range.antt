-- ===== src/Tls/Calendar/Range.antt =====
-- `epoch_to_tm`: the range of each field, and of the instants that have a date.
use espbewi.Common.{
  ℕ, ◌+◌, ◌-◌, ◌*◌, ◌/◌, ◌%◌, ◌≤◌, ◌<◌, ◌==◌, ltb, leb, ◌≡◌, refl, ap, ◌∙◌, ◌⊎◌, inl, inr, Bool,
  true, false, ◌&&◌, ◌||◌, none, some, get_or, List, [], ◌∷◌, arith, Bool-cases, if◌then◌else◌,
}
use espbewi.Common.Bits.{holds_below, holds_below_sound}
use espbewi.Tls.{
  Tm, yoe_of, doy_of, day_of, month_of, year_of, is_leap, cumulative, yday_of, epoch_to_tm,
}
use espbewi.Tls.Calendar.{days_before_year, leap_day, year_starts, next_year, dated}

leap_february : (doe : ℕ) → doe < 146097 → doy_of doe ≡ 365 → is_leap (yoe_of doe + 1) ≡ true
leap_february doe h e = ground arith

leap_cycle : (y era : ℕ) → is_leap (y + era * 400) ≡ is_leap y
leap_cycle y era = ground arith

-- The days of a month, January first, in a year without a leap day.
abbrev pub month_lengths : List ℕ
month_lengths = 31 ∷ 28 ∷ 31 ∷ 30 ∷ 31 ∷ 30 ∷ 31 ∷ 31 ∷ 30 ∷ 31 ∷ 30 ∷ 31 ∷ []

abbrev pub days_in_month : ℕ → ℕ → ℕ
days_in_month month year = get_or month_lengths month 0 + (if month == 1 then leap_day year else 0)

-- A day of the year that starts in March, but its last.
abbrev fits : ℕ → Bool
fits doy =
    leb (month_of doy) 12
    && leb 1 (month_of doy)
    && leb 1 (day_of doy)
    && leb (day_of doy) (get_or month_lengths (month_of doy - 1) 0)

fits_table : holds_below fits 365 ≡ true
unfolding holds_below
fits_table = refl

-- Where the first day of the year falls in it.
abbrev starts : ℕ → Bool
starts doy =
    (leb (month_of doy) 2
      && leb 306 doy
      && (get_or cumulative (month_of doy - 1) 0 + day_of doy - 1 + 306 == doy))
    || (ltb 2 (month_of doy)
        && leb doy 305
        && (get_or cumulative (month_of doy - 1) 0 + day_of doy - 1 == 59 + doy))

starts_table : holds_below starts 366 ≡ true
unfolding holds_below
starts_table = refl

yday_small :
    (m x doy year : ℕ)
    → (leb m 2 && leb 306 doy && (x + 306 == doy)) || (ltb 2 m && leb doy 305 && (x == 59 + doy))
      ≡ true
    → doy ≤ 365
    → x + (if is_leap year && ltb 2 m then 1 else 0) < 365 + leap_day year
yday_small m x doy year h d = elim (Bool-cases (is_leap year)) [
  | inl leap ↦ rw leap (branch m x doy h d)
  | inr common ↦ rw common (plain m x doy h d)
]
  where
    branch :
        (m x doy : ℕ)
        → (leb m 2 && leb 306 doy && (x + 306 == doy))
            || (ltb 2 m && leb doy 305 && (x == 59 + doy))
          ≡ true
        → doy ≤ 365
        → x + (if ltb 2 m then 1 else 0) < 366
    branch m x doy h d = ground arith

    plain :
        (m x doy : ℕ)
        → (leb m 2 && leb 306 doy && (x + 306 == doy))
            || (ltb 2 m && leb doy 305 && (x == 59 + doy))
          ≡ true
        → doy ≤ 365
        → x + 0 < 365
    plain m x doy h d = ground arith

fits_parts :
    (m d n : ℕ)
    → leb m 12 && leb 1 m && leb 1 d && leb d n ≡ true
    → (m - 1 < 12) × (1 ≤ d) × (d ≤ n)
fits_parts m d n h = (ground arith, ground arith, ground arith)

pub day_fits :
    (era doe : ℕ)
    → doe < 146097
    → let doy = doy_of doe in
      (month_of doy - 1 < 12)
      × (1 ≤ day_of doy)
      × (day_of doy ≤ days_in_month (month_of doy - 1) (year_of era (yoe_of doe) doy))
day_fits era doe h =
    let (whole, small, short) = year_starts doe h in
    elim (last (doy_of doe) short) [
      | inl same ↦
          let leap = leap_cycle (yoe_of doe + 1) era ∙ leap_february doe h same in
          rw same (omega arith, omega arith, feb_29 (yoe_of doe) leap)
      | inr less ↦
          let (m, d, n) =
            fits_parts (month_of (doy_of doe)) (day_of (doy_of doe))
              (get_or month_lengths (month_of (doy_of doe) - 1) 0)
              (holds_below_sound fits (doy_of doe) 365 less fits_table) in
          (m, d, omega (arith, n))
    ]
  where
    feb_29 : (y : ℕ) → is_leap (y + 1 + era * 400) ≡ true → 29 ≤ 28 + leap_day (y + era * 400 + 1)
    feb_29 y e =
        let same : y + era * 400 + 1 ≡ y + 1 + era * 400 = omega arith in
        rw (ap is_leap same ∙ e) (omega arith)

    last : (d : ℕ) → d ≤ 365 → (d ≡ 365) ⊎ (d < 365)
    last d h = ground arith

-- The years 1970 to 9999, by the first day of each end.
year_inside :
    (z year yday : ℕ)
    → 1 ≤ year
    → days_before_year year + yday + 306 ≡ z
    → yday < 365 + leap_day year
    → 719468 ≤ z
    → (1970 ≤ year) × (year ≤ 9999 → z < 3652365) × (z < 3652365 → year ≤ 9999)
year_inside z year yday pos e small late =
    let ends : z < days_before_year (year + 1) + 306 = omega (arith, next_year year pos) in
    (omega arith, λ h. omega arith, λ h. omega arith)

-- The ranges of the fields.
pub record IsInRange (date : Tm) : Type 0 where
  pub sec : date.tm_sec < 60
  pub min : date.tm_min < 60
  pub hour : date.tm_hour < 24
  pub mon : date.tm_mon < 12
  pub mday : (1 ≤ date.tm_mday) × (date.tm_mday ≤ days_in_month date.tm_mon (date.tm_year + 1900))
  pub year : (70 ≤ date.tm_year) × (date.tm_year ≤ 8099)
  pub wday : date.tm_wday < 7
  pub yday : date.tm_yday < 365 + leap_day (date.tm_year + 1900)
  pub isdst : date.tm_isdst ≡ 0

-- The year and the day of the year of the day `z`, counted from the first of March of the year 0.
yday_inside :
    (z : ℕ)
    → let doe = z % 146097 in
      let year = year_of (z / 146097) (yoe_of doe) (doy_of doe) in
      yday_of year (doy_of doe) < 365 + leap_day year
yday_inside z =
    let doe = z % 146097 in
    let doy = doy_of doe in
    let (whole, small, short) = year_starts doe (omega arith) in
    yday_small (month_of doy) (get_or cumulative (month_of doy - 1) 0 + day_of doy - 1) doy
      (year_of (z / 146097) (yoe_of doe) doy)
      (holds_below_sound starts doy 366 (omega arith) starts_table) short

years :
    (z : ℕ)
    → 719468 ≤ z
    → let doe = z % 146097 in
      let year = year_of (z / 146097) (yoe_of doe) (doy_of doe) in
      (1970 ≤ year) × (year ≤ 9999 → z < 3652365) × (z < 3652365 → year ≤ 9999)
years z late =
    let doe = z % 146097 in
    let year = year_of (z / 146097) (yoe_of doe) (doy_of doe) in
    let pos : 1 ≤ year = omega arith in
    year_inside z year (yday_of year (doy_of doe)) pos (dated z pos) (yday_inside z) late

-- An instant has a date exactly if it lies before the end of the year 9999, and then every field of
-- the date is in its range, the day of the month in that of its month.
pub epoch_to_tm-IsInRange :
    (epoch : ℕ)
    → ((253402300800 ≤ epoch) × (epoch_to_tm epoch ≡ none))
      ⊎ ((epoch < 253402300800) × (date : Tm) × (epoch_to_tm epoch ≡ some date) × IsInRange date)
unfolding epoch_to_tm
epoch_to_tm-IsInRange epoch =
    let z = epoch / 86400 + 719468 in
    let doe = z % 146097 in
    let doy = doy_of doe in
    let year = year_of (z / 146097) (yoe_of doe) doy in
    let (recent, before, after) = years z (omega arith) in
    elim (Bool-cases (ltb year 1970 || ltb 9999 year)) [
      | inl outside ↦ inl (late_of year epoch recent after outside, rw outside refl)
      | inr inside ↦
          let (m, d, n) = day_fits (z / 146097) doe (omega arith) in
          let (soon, low, high, back) = inside_of year epoch recent before inside in
          let date : Tm = record {
            tm_sec = epoch % 86400 % 60;
            tm_min = epoch % 86400 / 60 % 60;
            tm_hour = epoch % 86400 / 3600;
            tm_mday = day_of doy;
            tm_mon = month_of doy - 1;
            tm_year = year - 1900;
            tm_wday = (epoch / 86400 + 4) % 7;
            tm_yday = yday_of year doy;
            tm_isdst = 0;
          } in
          inr (
            soon,
            date,
            rw inside refl,
            record {
              sec = omega arith;
              min = omega arith;
              hour = omega arith;
              mon = m;
              mday = (d, rw back n);
              year = (low, high);
              wday = omega arith;
              yday = rw back (yday_inside z);
              isdst = refl;
            },
          )
    ]
  where
    late_of :
        (year epoch : ℕ)
        → 1970 ≤ year
        → (epoch / 86400 + 719468 < 3652365 → year ≤ 9999)
        → ltb year 1970 || ltb 9999 year ≡ true
        → 253402300800 ≤ epoch
    late_of year epoch recent after h = ground arith

    inside_of :
        (year epoch : ℕ)
        → 1970 ≤ year
        → (year ≤ 9999 → epoch / 86400 + 719468 < 3652365)
        → ltb year 1970 || ltb 9999 year ≡ false
        → (epoch < 253402300800)
          × (70 ≤ year - 1900)
          × (year - 1900 ≤ 8099)
          × (year - 1900 + 1900 ≡ year)
    inside_of year epoch recent before h = (ground arith, ground arith, ground arith, ground arith)
