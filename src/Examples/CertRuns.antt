-- ===== src/Examples/CertRuns.antt =====
-- The calendar on a leap day.
use espbewi.Common.{◌+◌, ◌*◌, ◌/◌, ◌%◌, ◌≡◌, refl}
use espbewi.Tls.{Tm, epoch_to_tm}
use espbewi.Tls.Calendar.{days_before_year, epoch_to_tm-days}
use espbewi.Tls.Calendar.Dates.{IsDateOf, epoch_to_tm-IsDateOf}

-- 2024-02-29, 12:34:56, a Thursday.
abbrev leap_date : Tm
leap_date = record {
  tm_sec = 56;
  tm_min = 34;
  tm_hour = 12;
  tm_mday = 29;
  tm_mon = 1;
  tm_year = 124;
  tm_wday = 4;
  tm_yday = 59;
  tm_isdst = 0;
}

leap_day_run :
    (days_before_year (124 + 1900) + 59 ≡ 1709210096 / 86400 + 719162)
    × (12 * 3600 + 34 * 60 + 56 ≡ 1709210096 % 86400)
unfolding epoch_to_tm
leap_day_run = epoch_to_tm-days 1709210096 leap_date refl

epoch_to_tm-IsDateOf_example : IsDateOf 1709210096 leap_date
unfolding epoch_to_tm
epoch_to_tm-IsDateOf_example = epoch_to_tm-IsDateOf 1709210096 leap_date refl
