-- ===== src/Time.antt =====
-- The dates of kernel/src/lib/time_conversion.c: `fsm_DateConvertToUnix` and `fsm_convertUnix`.
--
-- The loop over the years of `fsm_convertUnix` has no bound in the code: it takes the number of rounds
-- that it may make, and is `none` when they do not reach. `fsm_timePrintable` formats text and is
-- left out.
pub mod Calendar
pub mod RoundTrip
mod Tests
use nocturne_os_base.Prelude.{
  ℕ, zero, suc, ◌+◌, ◌-◌, ◌*◌, ◌/◌, ◌%◌, ◌^◌, Bool, not, ◌&&◌, ◌||◌, Option, none, some, List, [],
  ◌∷◌, ltb, ◌==◌, if◌then◌else◌, get_or, u8, u16, u32, sub32,
}

-- `FSM_TIME`.
pub record FsmTime : Type 0 where
  pub year : ℕ
  pub month : ℕ
  pub day : ℕ
  pub hour : ℕ
  pub minute : ℕ
  pub second : ℕ

abbrev pub seconds_per_day : ℕ
seconds_per_day = 86400

abbrev pub is_leap : ℕ → Bool
is_leap year = (year % 4 == 0) && (not (year % 100 == 0) || (year % 400 == 0))

abbrev pub days_in_year : ℕ → ℕ
days_in_year year = if is_leap year then 366 else 365

abbrev pub month_days : ℕ → List ℕ
month_days year =
    31 ∷ (if is_leap year then 29 else 28) ∷ 31 ∷ 30 ∷ 31 ∷ 30 ∷ 31 ∷ 31 ∷ 30 ∷ 31 ∷ 30 ∷ 31 ∷ []

-- The rounds from `year` on, `n` of them.
pub add_years : ℕ → ℕ → ℕ → ℕ
add_years zero year unix_time = unix_time
add_years (suc n) year unix_time =
    add_years n (year + 1) (u32 (unix_time + days_in_year year * seconds_per_day))

pub add_months : List ℕ → ℕ → ℕ → ℕ → ℕ
add_months days zero month unix_time = unix_time
add_months days (suc n) month unix_time =
    add_months days n (month + 1) (u32 (unix_time + get_or days month 0 * seconds_per_day))

pub fsm_date_convert_to_unix : FsmTime → ℕ
fsm_date_convert_to_unix time =
    let years = add_years (time.year - 1970) 1970 0 in
    let months = add_months (month_days time.year) (time.month - 1) 0 years in
    let days = u32 (months + sub32 time.day 1 * seconds_per_day) in
    u32 (days + (time.hour * 3600 + time.minute * 60 + time.second))

-- The years and the days left.
pub split_years : ℕ → ℕ → ℕ → Option (ℕ × ℕ)
split_years zero days years = none
split_years (suc fuel) days years =
    let rest = split_years fuel (days - days_in_year years) (years + 1) in
    if ltb days (days_in_year years) then some (years, days) else rest

-- The rounds from `month` on, `n` of them left: the month and the days left.
pub split_months : List ℕ → ℕ → ℕ → ℕ → ℕ × ℕ
split_months table zero month days = (month, days)
split_months table (suc n) month days =
    let rest = split_months table n (month + 1) (days - get_or table month 0) in
    if ltb days (get_or table month 0) then (month, days) else rest

pub fsm_convert_unix : ℕ → ℕ → Option FsmTime
fsm_convert_unix fuel unix_time = elim (split_years fuel (unix_time / seconds_per_day) 1970) [
  | none ↦ none
  | some (years, days) ↦
      let (month, day) = split_months (month_days years) 12 0 days in
      let seconds = unix_time % seconds_per_day in
      some (record {
        year = u16 years;
        month = u8 month;
        day = u8 day;
        hour = u8 (seconds / 3600);
        minute = u8 (seconds % 3600 / 60);
        second = u8 (seconds % 60);
      })
]
