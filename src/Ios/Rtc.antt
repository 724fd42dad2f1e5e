-- ===== src/Ios/Rtc.antt =====
-- The RTC module routines of S220718-R290823_IOS-Z80-MBC2.ino, with the DS3231 behind `Wire`.
pub mod Change
pub mod ReadBack
pub mod AutoSet
use wi_fi_virt_disk.Base.{
  ℕ, ◌+◌, ◌-◌, ◌*◌, ◌/◌, ◌%◌, Bool, true, false, List, [], ◌∷◌, if◌then◌else◌, ◌==◌, ltb, u8,
  get_or,
}
use wi_fi_virt_disk.Ios.Wire.{Ports, ds3231_rtc, ds3231_secrg, wire_read}

-- The globals of the date and the time
pub record DateTime : Type 0 where
  pub seconds : ℕ
  pub minutes : ℕ
  pub hours : ℕ
  pub day : ℕ
  pub month : ℕ
  pub year : ℕ
  pub temp_c : ℕ

unfoldable pub dec_to_bcd : ℕ → ℕ
dec_to_bcd val = u8 (val / 10 * 16 + val % 10)

unfoldable pub bcd_to_dec : ℕ → ℕ
bcd_to_dec val = u8 (val / 16 * 10 + val % 16)

-- `daysOfMonth`, by the month less 1
abbrev pub days_of_month : List ℕ
days_of_month = 31 ∷ 28 ∷ 31 ∷ 30 ∷ 31 ∷ 30 ∷ 31 ∷ 31 ∷ 30 ∷ 31 ∷ 30 ∷ 31 ∷ []

unfoldable pub is_leap_year : ℕ → ℕ
is_leap_year year = if (2000 + year) % 4 == 0 then 1 else 0

module _ (P : Ports) where
  open P use {Bus, transmit, request}

  -- What `readRTC` makes of the 18 registers
  unfoldable pub from_registers : List ℕ → DateTime
  from_registers bytes = record {
    seconds = bcd_to_dec (wire_read P bytes 0 % 128);
    minutes = bcd_to_dec (wire_read P bytes 1);
    hours = bcd_to_dec (wire_read P bytes 2 % 64);
    day = bcd_to_dec (wire_read P bytes 4);
    month = bcd_to_dec (wire_read P bytes 5);
    year = bcd_to_dec (wire_read P bytes 6);
    temp_c = wire_read P bytes 17;
  }

  unfoldable pub read_rtc : Bus → Bus × DateTime
  read_rtc bus =
      let (pointed, _) = transmit bus ds3231_rtc (ds3231_secrg ∷ []) in
      let (bus', bytes) = request pointed ds3231_rtc 18 in (bus', from_registers bytes)

  -- `writeRTC`, which is always called with the globals
  unfoldable pub write_rtc : DateTime → Bus → Bus
  write_rtc t bus =
      (transmit bus ds3231_rtc (
        ds3231_secrg
        ∷ dec_to_bcd t.seconds
        ∷ dec_to_bcd t.minutes
        ∷ dec_to_bcd t.hours
        ∷ 1
        ∷ dec_to_bcd t.day
        ∷ dec_to_bcd t.month
        ∷ dec_to_bcd t.year
        ∷ [])).0
