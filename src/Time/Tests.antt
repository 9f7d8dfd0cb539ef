-- ===== src/Time/Tests.antt =====
-- Dates at single times.
use nocturne_os_base.Prelude.{◌<◌, some, get_or, ◌≡◌, refl, arith}
use nocturne_os_base.Time.{
  FsmTime, month_days, fsm_date_convert_to_unix, fsm_convert_unix, split_years, split_months,
  add_years, add_months,
}
use nocturne_os_base.Time.RoundTrip.{from_one, date_convert-convert_unix}

-- 2024-02-29 12:34:56 with month and day counted from 0.
leap_day :
    fsm_convert_unix 140 1709210096
    ≡ some (record { year = 2024; month = 1; day = 28; hour = 12; minute = 34; second = 56 })
unfolding fsm_convert_unix split_years split_months
leap_day = refl

-- The date of the first day, written back as it was given.
first_day_back :
    fsm_date_convert_to_unix
      (record { year = 1970; month = 0; day = 0; hour = 0; minute = 0; second = 0 })
    ≡ 4294880896
unfolding fsm_date_convert_to_unix add_years add_months
first_day_back = refl

date_convert-convert_unix_example :
    (t : FsmTime) × (fsm_convert_unix 140 1709210096 ≡ some t)
    × (t.month < 12)
    × (t.day < get_or (month_days t.year) t.month 0)
    × (fsm_date_convert_to_unix (from_one t) ≡ 1709210096)
date_convert-convert_unix_example =
    date_convert-convert_unix 140 1709210096 (omega arith) (omega arith)
