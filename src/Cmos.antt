-- ===== src/Cmos.antt =====
-- The clock of kernel/src/drv/cmos.c. The child modules prove what holds of it.
--
-- What the registers show after each wait for the end of an update is a parameter: a sequence of
-- readings. The waits themselves are taken to end.
pub mod Sample
pub mod Convert
mod Tests
use nocturne_os_base.Prelude.{
  ℕ, zero, suc, ◌+◌, ◌*◌, ◌/◌, ◌%◌, ◌^◌, Bool, true, false, ◌&&◌, not, ◌==◌, if◌then◌else◌, u8, u16,
  bit_and, bit_or, ◌>>>◌, Outcome, ret, hang, ◌>>=◌,
}

-- `cmos_second` to `cmos_century`.
pub record Reading : Type 0 where
  pub second : ℕ
  pub minute : ℕ
  pub hour : ℕ
  pub day : ℕ
  pub month : ℕ
  pub year : ℕ
  pub century : ℕ

-- The century is read if ACPI has given its register.
abbrev pub take_reading : ℕ → Reading → Reading → Reading
take_reading century_register old r = record r {
  century = if century_register == 0 then old.century else r.century;
}

pub same_reading : Reading → Reading → Bool
same_reading a b =
    a.second == b.second
    && a.minute == b.minute
    && a.hour == b.hour
    && a.day == b.day
    && a.month == b.month
    && a.year == b.year
    && a.century == b.century

-- The `do` loop from reading `i` on, with the reading before it, on fuel.
pub read_rounds : ℕ → ℕ → (ℕ → Reading) → ℕ → Reading → Outcome Reading
read_rounds zero century_register shown i last = hang
read_rounds (suc fuel) century_register shown i last =
    let current = take_reading century_register last (shown i) in
    let rest = read_rounds fuel century_register shown (i + 1) current in
    if same_reading last current then ret current else rest

abbrev pub bcd_value : ℕ → ℕ
bcd_value x = u8 (bit_and x 0x0f + (x >>> 4) * 10)

abbrev pub bcd_hour : ℕ → ℕ
bcd_hour h = u8 (bit_or (bit_and h 0x0f + (bit_and h 0x70 >>> 4) * 10) (bit_and h 0x80))

abbrev pub from_bcd : ℕ → Reading → Reading
from_bcd century_register r = record {
  second = bcd_value r.second;
  minute = bcd_value r.minute;
  hour = bcd_hour r.hour;
  day = bcd_value r.day;
  month = bcd_value r.month;
  year = bcd_value r.year;
  century = if century_register == 0 then r.century else bcd_value r.century;
}

abbrev pub afternoon : ℕ → ℕ → ℕ
afternoon register_b hour =
    if bit_and register_b 0x02 == 0 && not (bit_and hour 0x80 == 0)
    then (bit_and hour 0x7f + 12) % 24
    else hour

-- What `read_rtc` does with the last reading. The year is an `unsigned short`.
pub convert : ℕ → ℕ → Reading → Reading
convert century_register register_b reading =
    let r = if bit_and register_b 0x04 == 0 then from_bcd century_register reading else reading in
    record r {
      hour = afternoon register_b r.hour;
      year = u16 (r.year + (if century_register == 0 then 20 else r.century) * 100);
    }

-- `read_rtc`, with `old` in the variables at the start; its result is what `get_time` gives.
pub read_rtc : ℕ → ℕ → ℕ → (ℕ → Reading) → Reading → Outcome Reading
read_rtc fuel century_register register_b shown old =
    read_rounds fuel century_register shown 1 (take_reading century_register old (shown 0)) >>= λ r.
    ret (convert century_register register_b r)
