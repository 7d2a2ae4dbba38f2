-- ===== src/Tls.antt =====
-- services/tls/src/lib.rs: `epoch_to_tm`, the calendar that certificates are checked against. The
-- rest of the service is in the child modules. All numbers of the source are at least 0 here, so
-- `div_euclid` and `rem_euclid` are the division of naturals.
pub mod Calendar
pub mod Pem
pub mod Identity
pub mod Client
pub mod Socket
pub mod Entropy
pub mod Init
use espbewi.Common.{
  ℕ, ◌+◌, ◌-◌, ◌*◌, ◌/◌, ◌%◌, ◌==◌, ltb, leb, Bool, not, ◌&&◌, ◌||◌, Option, none, some, List, [],
  ◌∷◌, get_or, if◌then◌else◌,
}

pub record Tm : Type 0 where
  pub tm_sec : ℕ
  pub tm_min : ℕ
  pub tm_hour : ℕ
  pub tm_mday : ℕ
  pub tm_mon : ℕ
  pub tm_year : ℕ
  pub tm_wday : ℕ
  pub tm_yday : ℕ
  pub tm_isdst : ℕ

abbrev pub yoe_of : ℕ → ℕ
yoe_of doe = (doe - doe / 1460 + doe / 36524 - doe / 146096) / 365

abbrev pub doy_of : ℕ → ℕ
doy_of doe = doe - (365 * yoe_of doe + yoe_of doe / 4 - yoe_of doe / 100)

abbrev pub mp_of : ℕ → ℕ
mp_of doy = (5 * doy + 2) / 153

abbrev pub day_of : ℕ → ℕ
day_of doy = doy - (153 * mp_of doy + 2) / 5 + 1

abbrev pub month_of : ℕ → ℕ
month_of doy = if ltb (mp_of doy) 10 then mp_of doy + 3 else mp_of doy - 9

abbrev pub year_of : ℕ → ℕ → ℕ → ℕ
year_of era yoe doy = yoe + era * 400 + (if leb (month_of doy) 2 then 1 else 0)

abbrev pub is_leap : ℕ → Bool
is_leap year = year % 4 == 0 && (not (year % 100 == 0) || year % 400 == 0)

abbrev pub cumulative : List ℕ
cumulative = 0 ∷ 31 ∷ 59 ∷ 90 ∷ 120 ∷ 151 ∷ 181 ∷ 212 ∷ 243 ∷ 273 ∷ 304 ∷ 334 ∷ []

abbrev pub yday_of : ℕ → ℕ → ℕ
yday_of year doy =
    get_or cumulative (month_of doy - 1) 0
    + day_of doy
    - 1
    + (if is_leap year && ltb 2 (month_of doy) then 1 else 0)

unfoldable pub epoch_to_tm : ℕ → Option Tm
epoch_to_tm epoch =
    let days = epoch / 86400 in
    let secs = epoch % 86400 in
    let z = days + 719468 in
    let era = z / 146097 in
    let doe = z % 146097 in
    let doy = doy_of doe in
    let year = year_of era (yoe_of doe) doy in
    if ltb year 1970 || ltb 9999 year
    then none
    else some (record {
      tm_sec = secs % 60;
      tm_min = secs / 60 % 60;
      tm_hour = secs / 3600;
      tm_mday = day_of doy;
      tm_mon = month_of doy - 1;
      tm_year = year - 1900;
      tm_wday = (days + 4) % 7;
      tm_yday = yday_of year doy;
      tm_isdst = 0;
    })
