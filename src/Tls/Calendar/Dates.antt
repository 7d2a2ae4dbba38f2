-- ===== src/Tls/Calendar/Dates.antt =====
-- `epoch_to_tm`: every field of the date of an instant.
use espbewi.Common.{
  ℕ, zero, suc, ◌+◌, ◌-◌, ◌*◌, ◌/◌, ◌%◌, ◌≤◌, ◌<◌, ◌==◌, ltb, ◌≡◌, refl, sym, ap, subst, inl, inr,
  Bool, true, false, ◌&&◌, ◌||◌, Option, none, some, get_or, arith, Bool-cases, if◌then◌else◌,
}
use espbewi.Common.Bits.{holds_below, holds_below_sound}
use espbewi.Tls.{Tm, yoe_of, doy_of, day_of, month_of, year_of, is_leap, cumulative, epoch_to_tm}
use espbewi.Tls.Calendar.{days_before_year, epoch_to_tm-days}
use espbewi.Tls.Calendar.Range.{month_lengths, day_fits, IsInRange, epoch_to_tm-IsInRange}

-- The days before a month, January being 0, in a leap year or in another: the lengths of the months
-- before, and the leap day behind February.
unfoldable pub days_before_month : Bool → ℕ → ℕ
days_before_month leap zero = 0
days_before_month leap (suc month) =
    days_before_month leap month
    + get_or month_lengths month 0
    + (if leap && (month == 1) then 1 else 0)

abbrev is_start : Bool → ℕ → Bool
is_start leap month =
    get_or cumulative month 0 + (if leap && ltb 1 month then 1 else 0)
    == days_before_month leap month

start_table : (leap : Bool) → holds_below (is_start leap) 12 ≡ true
unfolding holds_below days_before_month
start_table true = refl
start_table false = refl

month_start :
    (leap : Bool) (month day : ℕ)
    → month - 1 < 12
    → 1 ≤ day
    → get_or cumulative (month - 1) 0 + day - 1 + (if leap && ltb 2 month then 1 else 0) + 1
      ≡ days_before_month leap (month - 1) + day
month_start leap month day small pos =
    let starts = holds_below_sound (is_start leap) (month - 1) 12 small (start_table leap) in
    let same : ltb 2 month ≡ ltb 1 (month - 1) = later month in
    rw same (
      count (get_or cumulative (month - 1) 0) (if leap && ltb 1 (month - 1) then 1 else 0)
        (days_before_month leap (month - 1)) day pos starts)
  where
    later : (m : ℕ) → ltb 2 m ≡ ltb 1 (m - 1)
    later m = elim (Bool-cases (ltb 2 m)) [ inl e ↦ ground arith | inr e ↦ ground arith ]

    count : (x l b d : ℕ) → 1 ≤ d → (x + l == b) ≡ true → x + d - 1 + l + 1 ≡ b + d
    count x l b d pos e = ground arith

-- The date of an instant in the Gregorian calendar, of which the first of January of the year 1 was
-- a Monday.
pub record IsDateOf (epoch : ℕ) (date : Tm) : Type 0 where
  pub day_of_year : days_before_year (date.tm_year + 1900) + date.tm_yday ≡ epoch / 86400 + 719162
  pub day_of_month :
      date.tm_yday + 1
      ≡ days_before_month (is_leap (date.tm_year + 1900)) date.tm_mon + date.tm_mday
  pub weekday : date.tm_wday ≡ (days_before_year (date.tm_year + 1900) + date.tm_yday + 1) % 7
  pub clock : date.tm_hour * 3600 + date.tm_min * 60 + date.tm_sec ≡ epoch % 86400
  pub ranges : IsInRange date

restored : (y : ℕ) → ltb y 1970 || ltb 9999 y ≡ false → y - 1900 + 1900 ≡ y
restored y h = ground arith

fields :
    (epoch : ℕ) (date : Tm)
    → epoch_to_tm epoch ≡ some date
    → (date.tm_yday + 1
        ≡ days_before_month (is_leap (date.tm_year + 1900)) date.tm_mon + date.tm_mday)
      × (date.tm_wday ≡ (epoch / 86400 + 4) % 7)
unfolding epoch_to_tm
fields epoch date e =
    let z = epoch / 86400 + 719468 in
    let doe = z % 146097 in
    let doy = doy_of doe in
    let year = year_of (z / 146097) (yoe_of doe) doy in
    elim (Bool-cases (ltb year 1970 || ltb 9999 year)) [
      | inl outside ↦ let e' = rw outside at e in absurd (cc)
      | inr inside ↦
          let e' = rw inside at e in
          let made = ap (found_or date) e' in
          let (small, pos, within) = day_fits (z / 146097) doe (omega arith) in
          let back : year - 1900 + 1900 ≡ year = restored year inside in
          let month = month_start (is_leap year) (month_of doy) (day_of doy) small pos in
          (
            subst
                (λ (d : Tm).
                  d.tm_yday + 1
                  ≡ days_before_month (is_leap (d.tm_year + 1900)) d.tm_mon + d.tm_mday)
                made (rw back month),
            sym (ap (λ d. d.tm_wday) made),
          )
    ]
  where
    found_or : Tm → Option Tm → Tm
    found_or d (some t) = t
    found_or d none = d

-- If `epoch_to_tm` answers a date, it is the date of the instant in the Gregorian calendar, with every
-- field: the days before its year, with a leap day in every leap year, and its day of the year add up
-- to the days since the first of January of the year 1; the month and the day of the month give that
-- day of the year by the lengths of the months; the weekday is the one so many days after a Monday;
-- hour, minute and second add up to the rest of the day; and every field is in its range.
pub epoch_to_tm-IsDateOf :
    (epoch : ℕ) (date : Tm) → epoch_to_tm epoch ≡ some date → IsDateOf epoch date
epoch_to_tm-IsDateOf epoch date e =
    let (days, rest) = epoch_to_tm-days epoch date e in
    let (month, wday) = fields epoch date e in
    record {
      day_of_year = days;
      day_of_month = month;
      weekday = omega (arith, days, wday);
      clock = rest;
      ranges = elim (epoch_to_tm-IsInRange epoch) [
        | inl (late, nothing) ↦ absurd (cc)
        | inr (soon, found, there, inside) ↦
            let same : found ≡ date = cc in subst IsInRange same inside
      ];
    }
