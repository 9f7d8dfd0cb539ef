-- ===== src/Cmos/Tests.antt =====
-- The clock at a moment.
use nocturne_os_base.Prelude.{ℕ, suc, ◌≤◌, false, ◌≡◌, refl, arith, ret}
use nocturne_os_base.Cmos.{Reading, convert, read_rtc}
use nocturne_os_base.Cmos.Sample.{taken, read_rtc-stops}
use nocturne_os_base.Cmos.Convert.{IsMoment, shown_reading, convert-shown_reading}

abbrev moment : Reading
moment = record {
  second = 59;
  minute = 30;
  hour = 12;
  day = 31;
  month = 12;
  year = 26;
  century = 20;
}

moment-IsMoment : IsMoment moment
moment-IsMoment = record {
  seconds = omega arith;
  minutes = omega arith;
  hours = omega arith;
  days = omega arith;
  months = omega arith;
  years = omega arith;
  centuries = omega arith;
}

-- Noon in the twelve-hour format.
convert-shown_reading_example :
    let r = convert 0 0 (shown_reading false false moment) in
    (r.second ≡ 59)
    × (r.minute ≡ 30)
    × (r.hour ≡ 0)
    × (r.day ≡ 31)
    × (r.month ≡ 12)
    × (r.year ≡ 2026)
convert-shown_reading_example = convert-shown_reading 0 0 moment moment-IsMoment (omega arith)

read_rtc-stops_example :
    (n : ℕ) × (n ≤ 0)
    × (taken 0 (λ i. moment) moment n ≡ taken 0 (λ i. moment) moment (suc n))
    × (read_rtc 1 0 0 (λ i. moment) moment
        ≡ ret (convert 0 0 (taken 0 (λ i. moment) moment (suc n))))
read_rtc-stops_example = read_rtc-stops 1 0 0 (λ i. moment) moment 0 (omega arith) refl
