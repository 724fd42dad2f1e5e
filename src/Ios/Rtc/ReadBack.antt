-- ===== src/Ios/Rtc/ReadBack.antt =====
-- What `writeRTC` gives the DS3231, `readRTC` reads (S220718-R290823_IOS-Z80-MBC2.ino).
use wi_fi_virt_disk.Base.{ℕ, ◌%◌, ◌<◌, ◌≡◌, refl, ap, ◌∙◌, List, [], ◌∷◌, get_or, length, arith}
use wi_fi_virt_disk.Ios.Wire.{Ports, ds3231_rtc, ds3231_secrg}
use wi_fi_virt_disk.Ios.Rtc.{DateTime, dec_to_bcd, bcd_to_dec, read_rtc, from_registers, write_rtc}
use wi_fi_virt_disk.Ios.Rtc.Change.Range.{IsDateTime}

pub bcd_to_dec-dec_to_bcd : (x : ℕ) → x < 100 → bcd_to_dec (dec_to_bcd x) ≡ x
unfolding bcd_to_dec dec_to_bcd
bcd_to_dec-dec_to_bcd x small = omega arith

masked_seconds : (x : ℕ) → x < 60 → bcd_to_dec (dec_to_bcd x % 128) ≡ x
unfolding bcd_to_dec dec_to_bcd
masked_seconds x small = omega arith

masked_hours : (x : ℕ) → x < 24 → bcd_to_dec (dec_to_bcd x % 64) ≡ x
unfolding bcd_to_dec dec_to_bcd
masked_hours x small = omega arith

-- The device keeps the seven bytes that are written to it from register 0 on, as long as it does not count.
abbrev pub KeepsRegisters : (P : Ports) → P.Bus → Type 0
KeepsRegisters P bus =
    (r : List ℕ) (i : ℕ)
    → i < 7
    → length r ≡ 7
    → let written = (P.transmit bus ds3231_rtc (ds3231_secrg ∷ r)).0 in
      let pointed = (P.transmit written ds3231_rtc (ds3231_secrg ∷ [])).0 in
      get_or (P.request pointed ds3231_rtc 18).1 i 255 ≡ get_or r i 255

-- A date and a time that `writeRTC` has written is what `readRTC` reads, where the DS3231 keeps its
-- registers in between. Every number has two digits and is in its range.
pub read_rtc-write_rtc :
    (P : Ports) (t : DateTime) (bus : P.Bus)
    → IsDateTime t
    → KeepsRegisters P bus
    → let got = (read_rtc P (write_rtc P t bus)).1 in
      (got.seconds ≡ t.seconds)
      × (got.minutes ≡ t.minutes)
      × (got.hours ≡ t.hours)
      × (got.day ≡ t.day)
      × (got.month ≡ t.month)
      × (got.year ≡ t.year)
unfolding read_rtc write_rtc from_registers
read_rtc-write_rtc P t bus (s, m, h, d1, d32, m1, m12, y) keeps =
    let r : List ℕ =
      dec_to_bcd t.seconds
      ∷ dec_to_bcd t.minutes
      ∷ dec_to_bcd t.hours
      ∷ 1
      ∷ dec_to_bcd t.day
      ∷ dec_to_bcd t.month
      ∷ dec_to_bcd t.year
      ∷ [] in
    (
      ap (λ k. bcd_to_dec (k % 128)) (keeps r 0 (omega arith) refl) ∙ masked_seconds t.seconds s,
      ap bcd_to_dec (keeps r 1 (omega arith) refl) ∙ bcd_to_dec-dec_to_bcd t.minutes (omega arith),
      ap (λ k. bcd_to_dec (k % 64)) (keeps r 2 (omega arith) refl) ∙ masked_hours t.hours h,
      ap bcd_to_dec (keeps r 4 (omega arith) refl) ∙ bcd_to_dec-dec_to_bcd t.day (omega arith),
      ap bcd_to_dec (keeps r 5 (omega arith) refl) ∙ bcd_to_dec-dec_to_bcd t.month (omega arith),
      ap bcd_to_dec (keeps r 6 (omega arith) refl) ∙ bcd_to_dec-dec_to_bcd t.year y,
    )
