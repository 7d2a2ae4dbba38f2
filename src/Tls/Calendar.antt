-- ===== src/Tls/Calendar.antt =====
-- `epoch_to_tm` against the rules of the Gregorian calendar.
pub mod Range
pub mod Dates
use espbewi.Common.{
  ℕ, ◌+◌, ◌-◌, ◌*◌, ◌/◌, ◌%◌, ◌≤◌, ◌<◌, ◌==◌, ltb, leb, ◌≡◌, refl, ap, ◌∙◌, ◌⊎◌, inl, inr, Bool,
  true, false, ◌&&◌, ◌||◌, Option, none, some, get_or, arith, Bool-cases, if◌then◌else◌,
}
use espbewi.Common.Bits.{holds_below, holds_below_sound}
use espbewi.Tls.{
  Tm, yoe_of, doy_of, day_of, month_of, year_of, is_leap, cumulative, yday_of, epoch_to_tm,
}

-- The days before the first of January of a year from 1 on, counted from the year 1: every year has
-- 365 and each leap year one more.
abbrev pub days_before_year : ℕ → ℕ
days_before_year year = 365 * (year - 1) + (year - 1) / 4 + (year - 1) / 400 - (year - 1) / 100

abbrev pub leap_day : ℕ → ℕ
leap_day year = if is_leap year then 1 else 0

pub year_starts :
    (doe : ℕ)
    → doe < 146097
    → (365 * yoe_of doe + yoe_of doe / 4 - yoe_of doe / 100 + doy_of doe ≡ doe)
      × (yoe_of doe ≤ 399)
      × (doy_of doe ≤ 365)
year_starts doe h = (omega arith, omega arith, omega arith)

pub next_year :
    (year : ℕ)
    → 1 ≤ year
    → days_before_year (year + 1) ≡ days_before_year year + 365 + leap_day year
next_year year pos = ground arith

-- A day of the year that starts in March: from March on, or in January or February of the next.
abbrev is_march_day : ℕ → Bool
is_march_day doy =
    leb 3 (month_of doy) && (get_or cumulative (month_of doy - 1) 0 + day_of doy - 1 == 59 + doy)

abbrev is_january_day : ℕ → Bool
is_january_day doy =
    leb (month_of doy) 2 && (get_or cumulative (month_of doy - 1) 0 + day_of doy - 1 + 306 == doy)

day_table : holds_below (λ doy. is_march_day doy || is_january_day doy) 366 ≡ true
unfolding holds_below
day_table = refl

day_cases : (doy : ℕ) → doy ≤ 365 → (is_march_day doy ≡ true) ⊎ (is_january_day doy ≡ true)
day_cases doy h =
    or_cases (is_march_day doy) (is_january_day doy)
      (holds_below_sound (λ d. is_march_day d || is_january_day d) doy 366 (omega arith) day_table)
  where
    or_cases : (a b : Bool) → a || b ≡ true → (a ≡ true) ⊎ (b ≡ true)
    or_cases true b e = inl refl
    or_cases false b e = inr e

pub march_parts :
    (m x doy : ℕ)
    → leb 3 m && (x == 59 + doy) ≡ true
    → (leb m 2 ≡ false) × (ltb 2 m ≡ true) × (x ≡ 59 + doy)
march_parts m x doy h = (ground arith, ground arith, ground arith)

january_parts :
    (m x doy : ℕ)
    → leb m 2 && (x + 306 == doy) ≡ true
    → (leb m 2 ≡ true) × (ltb 2 m ≡ false) × (x + 306 ≡ doy)
january_parts m x doy h = (ground arith, ground arith, ground arith)

march_yday :
    (m x doy year : ℕ)
    → ltb 2 m ≡ true
    → x ≡ 59 + doy
    → x + (if is_leap year && ltb 2 m then 1 else 0) ≡ 59 + doy + leap_day year
march_yday m x doy year late e = elim (Bool-cases (is_leap year)) [
  | inl leap ↦ rw (leap, late) (omega arith)
  | inr common ↦ rw common (omega arith)
]

january_yday :
    (m x doy year : ℕ)
    → ltb 2 m ≡ false
    → x + 306 ≡ doy
    → x + (if is_leap year && ltb 2 m then 1 else 0) + 306 ≡ doy
january_yday m x doy year early e = elim (Bool-cases (is_leap year)) [
  | inl leap ↦ rw (leap, early) (omega arith)
  | inr common ↦ rw common (omega arith)
]

-- The year that starts in March, counted by the years before.
march_year :
    (era yoe doy : ℕ)
    → yoe ≤ 399
    → 1 ≤ yoe + era * 400
    → days_before_year (yoe + era * 400) + (59 + doy + leap_day (yoe + era * 400)) + 306
      ≡ era * 146097 + (365 * yoe + yoe / 4 - yoe / 100 + doy)
march_year era yoe doy h pos = omega (arith, next_year (yoe + era * 400) pos)

january_year :
    (era yoe doy yday : ℕ)
    → yoe ≤ 399
    → yday + 306 ≡ doy
    → days_before_year (yoe + era * 400 + 1) + yday + 306
      ≡ era * 146097 + (365 * yoe + yoe / 4 - yoe / 100 + doy)
january_year era yoe doy yday h e = omega arith

dated_march :
    (era yoe doy : ℕ)
    → yoe ≤ 399
    → is_march_day doy ≡ true
    → 1 ≤ year_of era yoe doy
    → days_before_year (year_of era yoe doy) + yday_of (year_of era yoe doy) doy + 306
      ≡ era * 146097 + (365 * yoe + yoe / 4 - yoe / 100 + doy)
dated_march era yoe doy small h pos =
    let x = get_or cumulative (month_of doy - 1) 0 + day_of doy - 1 in
    let (short, late, placed) = march_parts (month_of doy) x doy h in
    let same = year_march (month_of doy) (yoe + era * 400) short in
    let yday = march_yday (month_of doy) x doy (year_of era yoe doy) late placed in
    (λ i. days_before_year (year_of era yoe doy) + yday i + 306)
    ∙ (λ i. days_before_year (same i) + (59 + doy + leap_day (same i)) + 306)
    ∙ march_year era yoe doy small (omega (arith, same, pos))
  where
    year_march : (m y : ℕ) → leb m 2 ≡ false → y + (if leb m 2 then 1 else 0) ≡ y
    year_march m y e = rw e (omega arith)

dated_january :
    (era yoe doy : ℕ)
    → yoe ≤ 399
    → is_january_day doy ≡ true
    → days_before_year (year_of era yoe doy) + yday_of (year_of era yoe doy) doy + 306
      ≡ era * 146097 + (365 * yoe + yoe / 4 - yoe / 100 + doy)
dated_january era yoe doy small h =
    let x = get_or cumulative (month_of doy - 1) 0 + day_of doy - 1 in
    let (short, early, placed) = january_parts (month_of doy) x doy h in
    let same = year_january (month_of doy) (yoe + era * 400) short in
    let yday = january_yday (month_of doy) x doy (year_of era yoe doy) early placed in
    (λ i. days_before_year (same i) + yday_of (year_of era yoe doy) doy + 306)
    ∙ january_year era yoe doy (yday_of (year_of era yoe doy) doy) small yday
  where
    year_january : (m y : ℕ) → leb m 2 ≡ true → y + (if leb m 2 then 1 else 0) ≡ y + 1
    year_january m y e = rw e refl

-- The date that belongs to the day `z`, counted from the first of March of the year 0.
pub dated :
    (z : ℕ)
    → let doe = z % 146097 in
      let doy = doy_of doe in
      let year = year_of (z / 146097) (yoe_of doe) doy in
      1 ≤ year → days_before_year year + yday_of year doy + 306 ≡ z
dated z pos =
    let doe = z % 146097 in
    let (whole, small, short) = year_starts doe (omega arith) in
    let placed : z / 146097 * 146097
          + (365 * yoe_of doe + yoe_of doe / 4 - yoe_of doe / 100 + doy_of doe)
        ≡ z =
      ap (λ d. z / 146097 * 146097 + d) whole ∙ back z in
    elim (day_cases (doy_of doe) short) [
      | inl march ↦ dated_march (z / 146097) (yoe_of doe) (doy_of doe) small march pos ∙ placed
      | inr january ↦ dated_january (z / 146097) (yoe_of doe) (doy_of doe) small january ∙ placed
    ]
  where
    back : (z : ℕ) → z / 146097 * 146097 + z % 146097 ≡ z
    back z = omega arith

-- If `epoch_to_tm` answers a date, then it is the date of the instant in the Gregorian calendar: the
-- days before its year, counted from the year 1 with a leap day in every leap year, and its day in
-- the year add up to the days since the epoch and the 719162 days before it, and hour, minute and
-- second add up to the rest of the day.
pub epoch_to_tm-days :
    (epoch : ℕ) (date : Tm)
    → epoch_to_tm epoch ≡ some date
    → (days_before_year (date.tm_year + 1900) + date.tm_yday ≡ epoch / 86400 + 719162)
      × (date.tm_hour * 3600 + date.tm_min * 60 + date.tm_sec ≡ epoch % 86400)
unfolding epoch_to_tm
epoch_to_tm-days epoch date e =
    let z = epoch / 86400 + 719468 in
    let doe = z % 146097 in
    let year = year_of (z / 146097) (yoe_of doe) (doy_of doe) in
    elim (Bool-cases (ltb year 1970 || ltb 9999 year)) [
      | inl outside ↦ let e' = rw outside at e in absurd (cc)
      | inr inside ↦
          let e' = rw inside at e in
          let made = ap (found_or date) e' in
          let recent : 1970 ≤ year = since_1970 year inside in
          let counted = dated z (omega (arith, recent)) in
          let same_year = ap (λ d. d.tm_year) made in
          let same_yday = ap (λ d. d.tm_yday) made in
          let year_back : date.tm_year + 1900 ≡ year =
            restored year date.tm_year recent same_year in
          (
            days_back year date.tm_yday (date.tm_year + 1900) (yday_of year (doy_of doe))
                (epoch / 86400) year_back same_yday counted,
            clock (epoch % 86400) date.tm_hour date.tm_min date.tm_sec (ap (λ d. d.tm_hour) made)
                (ap (λ d. d.tm_min) made) (ap (λ d. d.tm_sec) made),
          )
    ]
  where
    found_or : Tm → Option Tm → Tm
    found_or d (some t) = t
    found_or d none = d

    since_1970 : (y : ℕ) → ltb y 1970 || ltb 9999 y ≡ false → 1970 ≤ y
    since_1970 y h = ground arith

    restored : (y t : ℕ) → 1970 ≤ y → y - 1900 ≡ t → t + 1900 ≡ y
    restored y t h e = omega arith

    days_back :
        (y d y' d' days : ℕ)
        → y' ≡ y
        → d' ≡ d
        → days_before_year y + d' + 306 ≡ days + 719468
        → days_before_year y' + d ≡ days + 719162
    days_back y d y' d' days e f g = omega (arith, ap days_before_year e)

    clock : (s h m c : ℕ) → s / 3600 ≡ h → s / 60 % 60 ≡ m → s % 60 ≡ c → h * 3600 + m * 60 + c ≡ s
    clock s h m c e f g = omega arith
