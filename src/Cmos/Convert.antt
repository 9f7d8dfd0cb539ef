-- ===== src/Cmos/Convert.antt =====
-- The conversion of kernel/src/drv/cmos.c undoes the formats of the clock.
use nocturne_os_base.Prelude.{
  ℕ, ◌+◌, ◌*◌, ◌/◌, ◌%◌, ◌<◌, Bool, true, not, ◌==◌, if◌then◌else◌, u16, bit_and, ◌≡◌, refl, arith,
  Bool-cases, inl, inr, ==_iff,
}
use nocturne_os_base.Prelude.Bits.{bit_and_mask}
use nocturne_os_base.Prelude.Bytes.{each_under, each_under-lt}
use nocturne_os_base.Cmos.{Reading, bcd_value, bcd_hour, afternoon, convert}

-- How the clock shows a number: in binary, or as two decimal digits.
abbrev pub shown_number : Bool → ℕ → ℕ
shown_number binary n = if binary then n else n / 10 * 16 + n % 10

-- How it shows an hour: from 0 to 23, or from 1 to 12 with the highest bit for the afternoon.
abbrev pub shown_hour : Bool → Bool → ℕ → ℕ
shown_hour binary whole_day h =
    if whole_day
    then shown_number binary h
    else shown_number binary (if h % 12 == 0 then 12 else h % 12) + h / 12 * 128

-- A moment as the clock shows it.
abbrev pub shown_reading : Bool → Bool → Reading → Reading
shown_reading binary whole_day t = record {
  second = shown_number binary t.second;
  minute = shown_number binary t.minute;
  hour = shown_hour binary whole_day t.hour;
  day = shown_number binary t.day;
  month = shown_number binary t.month;
  year = shown_number binary t.year;
  century = shown_number binary t.century;
}

-- The fields of a date are in their ranges.
pub record IsMoment (t : Reading) : Type 0 where
  pub seconds : t.second < 60
  pub minutes : t.minute < 60
  pub hours : t.hour < 24
  pub days : t.day < 32
  pub months : t.month < 13
  pub years : t.year < 100
  pub centuries : t.century < 100

bcd_value-shown : (n : ℕ) → n < 100 → bcd_value (n / 10 * 16 + n % 10) ≡ n
bcd_value-shown n small = omega (arith, bit_and_mask 4 (n / 10 * 16 + n % 10))

-- The hour that comes out: noon and midnight change places in the twelve-hour format.
abbrev pub hour_read : Bool → ℕ → ℕ
hour_read whole_day h = if whole_day then h else if h == 0 then 12 else if h == 12 then 0 else h

hour_law : ℕ → ℕ → Bool
hour_law b h =
    let out : Bool → ℕ → ℕ = λ binary x. afternoon b (if binary then x else bcd_hour x) in
    let binary = not (bit_and b 4 == 0) in
    let whole_day = not (bit_and b 2 == 0) in
    out binary (shown_hour binary whole_day h) == hour_read whole_day h

hour_table : each_under (λ b. each_under (hour_law b) 24) 256 ≡ true
unfolding hour_law each_under
hour_table = refl

hour_at : (b h : ℕ) → b < 256 → h < 24 → hour_law b h ≡ true
hour_at b h hb hh =
    each_under-lt (hour_law b) 24 h hh
      (each_under-lt (λ b'. each_under (hour_law b') 24) 256 b hb hour_table)

hour_lem :
    (b h : ℕ)
    → b < 256
    → h < 24
    → let binary = not (bit_and b 4 == 0) in
      let whole_day = not (bit_and b 2 == 0) in
      let x = shown_hour binary whole_day h in
      afternoon b (if binary then x else bcd_hour x) ≡ hour_read whole_day h
unfolding hour_law
hour_lem b h hb hh = (==_iff _ _).0 (hour_at b h hb hh)

year_lem' :
    (century_register year century : ℕ)
    → year < 100
    → century < 100
    → u16 (year + (if century_register == 0 then 20 else century) * 100)
      ≡ year + (if century_register == 0 then 20 else century) * 100
year_lem' century_register year century hy hc = ground arith

year_lem :
    (century_register x : ℕ) {y c year century : ℕ}
    → y ≡ year
    → c ≡ century
    → year < 100
    → century < 100
    → u16 (y + (if century_register == 0 then 20 else if century_register == 0 then x else c) * 100)
      ≡ year + (if century_register == 0 then 20 else century) * 100
year_lem century_register x same_y same_c hy hc = ground (arith, same_y, same_c)

-- The conversion of what the clock shows, in any of its four formats, gives the moment back with the full year, except that the
-- twelve-hour format turns noon into 0 and midnight into 12. The century is 20 if it has no register.
pub convert-shown_reading :
    (century_register register_b : ℕ) (t : Reading)
    → IsMoment t
    → register_b < 256
    → let binary = not (bit_and register_b 4 == 0) in
      let whole_day = not (bit_and register_b 2 == 0) in
      let r = convert century_register register_b (shown_reading binary whole_day t) in
      (r.second ≡ t.second)
      × (r.minute ≡ t.minute)
      × (r.hour ≡ hour_read whole_day t.hour)
      × (r.day ≡ t.day)
      × (r.month ≡ t.month)
      × (r.year ≡ t.year + (if century_register == 0 then 20 else t.century) * 100)
unfolding convert
convert-shown_reading century_register register_b t moment byte =
    let field : (n : ℕ) → n < 100 → bcd_value (n / 10 * 16 + n % 10) ≡ n = bcd_value-shown in
    let hours = hour_lem register_b t.hour byte moment.hours in
    elim (Bool-cases (bit_and register_b 4 == 0)) [
      | inl bcd ↦ rw bcd (
        field t.second (omega (arith, moment.seconds)),
        field t.minute (omega (arith, moment.minutes)),
        (rw bcd at hours),
        field t.day (omega (arith, moment.days)),
        field t.month (omega (arith, moment.months)),
        year_lem century_register _ (field t.year moment.years) (field t.century moment.centuries)
            moment.years moment.centuries,
      )
      | inr binary ↦ rw binary (
        refl,
        refl,
        (rw binary at hours),
        refl,
        refl,
        year_lem' century_register t.year t.century moment.years moment.centuries,
      )
    ]
