-- ===== src/Time/Calendar.antt =====
-- The loops of kernel/src/lib/time_conversion.c as sums of days.
use nocturne_os_base.Prelude.{
  ℕ, zero, suc, ◌+◌, ◌-◌, ◌*◌, ◌^◌, ◌≤◌, ◌<◌, some, List, if◌then◌else◌, get_or, All-get_or, u32,
  ◌≡◌, arith, ap, dec_lt, ◌∙◌,
}
use nocturne_os_base.Time.{
  is_leap, days_in_year, month_days, seconds_per_day, add_years, add_months, split_years,
  split_months,
}

-- The days of `n` years from `year` on.
abbrev pub days_of_years : ℕ → ℕ → ℕ
days_of_years zero year = 0
days_of_years (suc n) year = days_in_year year + days_of_years n (year + 1)

-- The days of `n` months from `month` on.
abbrev pub days_of_months : List ℕ → ℕ → ℕ → ℕ
days_of_months table zero month = 0
days_of_months table (suc n) month = get_or table month 0 + days_of_months table n (month + 1)

year_bounds : (year : ℕ) → (365 ≤ days_in_year year) × (days_in_year year ≤ 366)
year_bounds year = (ground arith, ground arith)

-- The twelve months of a year are the year.
pub months_of_year : (year : ℕ) → days_of_months (month_days year) 12 0 ≡ days_in_year year
months_of_year year = ground arith

pub month_bound : (year month : ℕ) → get_or (month_days year) month 0 ≤ 31
month_bound year month =
    let february : (if is_leap year then 29 else 28) ≤ 31 = ground arith in
    All-get_or (λ d. d ≤ 31) (month_days year) month 0
      (
        omega arith,
        (
          february,
          (
            omega arith,
            (
              omega arith,
              (
                omega arith,
                (
                  omega arith,
                  (
                    omega arith,
                    (omega arith, (omega arith, (omega arith, (omega arith, (omega arith, tt))))),
                  ),
                ),
              ),
            ),
          ),
        ),
      )
      (omega arith)

pub add_years_lem :
    (n year t : ℕ)
    → t + days_of_years n year * seconds_per_day < 2 ^ 32
    → add_years n year t ≡ t + days_of_years n year * seconds_per_day
unfolding add_years
add_years_lem zero year t fits = omega arith
add_years_lem (suc n) year t fits =
    let d = days_in_year year in
    let first : u32 (t + d * seconds_per_day) ≡ t + d * seconds_per_day = omega arith in
    rw first (add_years_lem n (year + 1) (t + d * seconds_per_day) (omega arith) ∙ omega arith)

pub add_months_lem :
    (table : List ℕ) (n month t : ℕ)
    → t + days_of_months table n month * seconds_per_day < 2 ^ 32
    → add_months table n month t ≡ t + days_of_months table n month * seconds_per_day
unfolding add_months
add_months_lem table zero month t fits = omega arith
add_months_lem table (suc n) month t fits =
    let d = get_or table month 0 in
    let first : u32 (t + d * seconds_per_day) ≡ t + d * seconds_per_day = omega arith in
    rw first
      (add_months_lem table n (month + 1) (t + d * seconds_per_day) (omega arith) ∙ omega arith)

-- Where the loop over the years stops: in year `year + n`, with `r` days left.
pub record Years (days year n r : ℕ) : Type 0 where
  pub sum : days_of_years n year + r ≡ days
  pub short : r < days_in_year (year + n)
  pub long : 365 * n ≤ days

pub split_years-Years :
    (fuel days year : ℕ)
    → days < 365 * fuel
    → (n : ℕ) × (r : ℕ) × (split_years fuel days year ≡ some (year + n, r)) × Years days year n r
unfolding split_years
split_years-Years zero days year enough = absurd (omega arith)
split_years-Years (suc fuel) days year enough = elim (dec_lt days (days_in_year year)) [
  | yes here ↦
      let at : year ≡ year + 0 = omega arith in
      (
        0,
        days,
        ground (arith, at),
        record {
          sum = omega arith;
          short = ground (arith, ap days_in_year at);
          long = omega arith;
        },
      )
  | no later ↦
      let (n, r, e, y) =
        split_years-Years fuel (days - days_in_year year) (year + 1)
          (omega (arith, year_bounds year)) in
      let at : year + 1 + n ≡ year + suc n = omega arith in
      (
        suc n,
        r,
        ground (arith, e, at),
        record {
          sum = omega (arith, y.sum);
          short = ground (arith, y.short, ap days_in_year at);
          long = omega (arith, y.long, year_bounds year);
        },
      )
]

pub record Months (table : List ℕ) (days month k r : ℕ) : Type 0 where
  pub sum : days_of_months table k month + r ≡ days
  pub short : r < get_or table (month + k) 0

pub split_months-Months :
    (table : List ℕ) (n month days : ℕ)
    → days < days_of_months table n month
    → (k : ℕ) × (r : ℕ) × (k < n)
      × (split_months table n month days ≡ (month + k, r))
      × Months table days month k r
unfolding split_months
split_months-Months table zero month days enough = absurd (omega arith)
split_months-Months table (suc n) month days enough = elim (dec_lt days (get_or table month 0)) [
  | yes here ↦
      let at : month ≡ month + 0 = omega arith in
      (
        0,
        days,
        omega arith,
        ground (arith, at),
        record { sum = omega arith; short = ground (arith, ap (λ (j : ℕ). get_or table j 0) at) },
      )
  | no later ↦
      let (k, r, lt, e, s) =
        split_months-Months table n (month + 1) (days - get_or table month 0) (omega arith) in
      let at : month + 1 + k ≡ month + suc k = omega arith in
      (
        suc k,
        r,
        omega arith,
        ground (arith, e, at),
        record {
          sum = omega (arith, s.sum);
          short = ground (arith, s.short, ap (λ (j : ℕ). get_or table j 0) at);
        },
      )
]
