-- ===== src/Time/RoundTrip.antt =====
-- `fsm_DateConvertToUnix` undoes `fsm_convertUnix`, once month and day are counted from 1.
use nocturne_os_base.Prelude.{
  ℕ, ◌+◌, ◌-◌, ◌*◌, ◌/◌, ◌%◌, ◌^◌, ◌≤◌, ◌<◌, some, get_or, u8, u16, ◌≡◌, arith, ap, ◌∙◌,
}
use nocturne_os_base.Time.{
  FsmTime, month_days, seconds_per_day, add_years, add_months, fsm_date_convert_to_unix,
  fsm_convert_unix,
}
use nocturne_os_base.Time.Calendar.{
  days_of_years, days_of_months, months_of_year, month_bound, add_years_lem, add_months_lem,
  split_years-Years, split_months-Months,
}

-- A date as `fsm_DateConvertToUnix` reads it, from one that counts month and day from 0.
abbrev pub from_one : FsmTime → FsmTime
from_one t = record t { month = t.month + 1; day = t.day + 1 }

-- The seconds of a date that is far enough from the end of the counter.
pub date_sum :
    (t : FsmTime)
    → let days =
        days_of_years (t.year - 1970) 1970 + days_of_months (month_days t.year) t.month 0 + t.day in
      let seconds = t.hour * 3600 + t.minute * 60 + t.second in
      days * seconds_per_day + seconds < 2 ^ 32
      → fsm_date_convert_to_unix (from_one t) ≡ days * seconds_per_day + seconds
unfolding fsm_date_convert_to_unix
date_sum t fits =
    let years = days_of_years (t.year - 1970) 1970 in
    let months = days_of_months (month_days t.year) t.month 0 in
    let month : t.month + 1 - 1 ≡ t.month = omega arith in
    let first : add_years (t.year - 1970) 1970 0 ≡ years * seconds_per_day =
      add_years_lem (t.year - 1970) 1970 0 (omega arith) ∙ omega arith in
    let second : add_months (month_days t.year) t.month 0 (years * seconds_per_day)
        ≡ years * seconds_per_day + months * seconds_per_day =
      add_months_lem (month_days t.year) t.month 0 (years * seconds_per_day) (omega arith) in
    rw month (rw first (rw second (omega arith)))

-- For every 32-bit time, `fsm_convertUnix` with 140 rounds or more gives a date whose month, counted
-- from 0, is one of twelve and whose day, counted from 0, is one of that month; with both counted
-- from 1, `fsm_DateConvertToUnix` gives the time back.
pub date_convert-convert_unix :
    (fuel u : ℕ)
    → u < 2 ^ 32
    → 140 ≤ fuel
    → (t : FsmTime) × (fsm_convert_unix fuel u ≡ some t)
      × (t.month < 12)
      × (t.day < get_or (month_days t.year) t.month 0)
      × (fsm_date_convert_to_unix (from_one t) ≡ u)
unfolding fsm_convert_unix
date_convert-convert_unix fuel u fits enough =
    let days = u / seconds_per_day in
    let (n, r, e, y) = split_years-Years fuel days 1970 (omega arith) in
    let year = 1970 + n in
    let (k, d, lt, e', s) =
      split_months-Months (month_days year) 12 0 r (omega (arith, y.short, months_of_year year)) in
    let rest = u % seconds_per_day in
    let t : FsmTime = record {
      year = year;
      month = k;
      day = d;
      hour = rest / 3600;
      minute = rest % 3600 / 60;
      second = rest % 60;
    } in
    let small_year : u16 (1970 + n) ≡ 1970 + n = omega (arith, y.long) in
    let small_month : u8 (0 + k) ≡ k = omega arith in
    let small_day : u8 d ≡ d = omega (arith, s.short, month_bound year (0 + k)) in
    let small_hour : u8 (rest / 3600) ≡ rest / 3600 = omega arith in
    let small_minute : u8 (rest % 3600 / 60) ≡ rest % 3600 / 60 = omega arith in
    let small_second : u8 (rest % 60) ≡ rest % 60 = omega arith in
    let years : year - 1970 ≡ n = omega arith in
    let from_start : 0 + k ≡ k = omega arith in
    let sum_years : days_of_years (year - 1970) 1970 + r ≡ days =
      ap (λ (j : ℕ). days_of_years j 1970 + r) years ∙ y.sum in
    (
      t,
      ground (
        arith, e, e', small_year, small_month, small_day, small_hour, small_minute, small_second,
      ),
      lt,
      ground (arith, s.short, ap (λ (j : ℕ). get_or (month_days year) j 0) from_start),
      date_sum t (omega (arith, sum_years, s.sum)) ∙ omega (arith, sum_years, s.sum),
    )
