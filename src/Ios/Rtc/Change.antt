-- ===== src/Ios/Rtc/Change.antt =====
-- The change of the date and the time from the keyboard (`ChangeRTC` in
-- S220718-R290823_IOS-Z80-MBC2.ino).
pub mod Range
use wi_fi_virt_disk.Base.{
  ℕ, zero, suc, ◌+◌, ◌-◌, ◌*◌, ◌/◌, ◌<◌, ◌≤◌, ◌⊎◌, inr, ◌≡◌, refl, ap, ◌∙◌, Bool, true, false, ◌||◌,
  ◌&&◌, length, List, [], ◌∷◌, Option, none, some, if◌then◌else◌, if-cases, ◌==◌, ==→eq, ltb, leb,
  u8, get_or, arith,
}
use wi_fi_virt_disk.Ios.Wire.{Ports}
use wi_fi_virt_disk.Ios.Rtc.{DateTime, days_of_month, is_leap_year, read_rtc, write_rtc}

-- `daysOfMonth[ month - 1 ]`, for a month of the array
abbrev pub days_in : ℕ → ℕ
days_in month = get_or days_of_month (month - 1) 0

-- A number without its tens
abbrev pub units : ℕ → ℕ
units x = x - x / 10 * 10

-- The key U: `tempByte` selects year, month, day, hours, minutes or seconds.
unfoldable pub change_units : ℕ → DateTime → DateTime
change_units field t =
    let year = u8 (t.year + 1) in
    let month = u8 (t.month + 1) in
    let day = u8 (t.day + 1) in
    let hours = u8 (t.hours + 1) in
    let minutes = u8 (t.minutes + 1) in
    let seconds = u8 (t.seconds + 1) in
    let last = if t.month == 2 then days_in t.month + is_leap_year t.year else days_in t.month in
    if field == 0
    then record t { year = if ltb 99 year then 0 else year }
    else if field == 1
    then record t { month = if ltb 12 month then 1 else month }
    else if field == 2
    then record t { day = if ltb last day then 1 else day }
    else if field == 3
    then record t { hours = if ltb 23 hours then 0 else hours }
    else if field == 4
    then record t { minutes = if ltb 59 minutes then 0 else minutes }
    else if field == 5
    then record t { seconds = if ltb 59 seconds then 0 else seconds }
    else t

-- The key T
unfoldable pub change_tens : ℕ → DateTime → DateTime
change_tens field t =
    let year = u8 (t.year + 10) in
    let day = u8 (t.day + 10) in
    let day' = if ltb (days_in t.month + is_leap_year t.year) day then units day else day in
    let hours = u8 (t.hours + 10) in
    let minutes = u8 (t.minutes + 10) in
    let seconds = u8 (t.seconds + 10) in
    if field == 0
    then record t { year = if ltb 99 year then units year else year }
    else if field == 1
    then record t {
      month =
          if ltb 10 t.month
          then t.month - 10
          else if ltb t.month 3
          then u8 (t.month + 10)
          else t.month;
    }
    else if field == 2
    then record t { day = if day' == 0 then 1 else day' }
    else if field == 3
    then record t { hours = if ltb 23 hours then units hours else hours }
    else if field == 4
    then record t { minutes = if ltb 59 minutes then units minutes else minutes }
    else if field == 5
    then record t { seconds = if ltb 59 seconds then units seconds else seconds }
    else t

-- A key but for CR; the others are not taken.
unfoldable pub press : ℕ → ℕ → DateTime → DateTime
press field key t =
    if (key == b'u') || (key == b'U')
    then change_units field t
    else if (key == b't') || (key == b'T')
    then change_tens field t
    else t

-- The two loops over the keys: `none` while they wait for another one, and else the keys that are left
unfoldable pub change_keys : List ℕ → ℕ → DateTime → Option (DateTime × List ℕ)
change_keys [] field t = if leb 6 field then some (t, []) else none
change_keys (key ∷ keys) field t =
    let accept = key == 13 in
    let rest =
      change_keys keys (if accept then field + 1 else field)
        (if accept then t else press field key t) in
    if leb 6 field then some (t, key ∷ keys) else rest

-- `ChangeRTC`: the new date and time goes to the RTC, and is read again for its print.
unfoldable pub change_rtc : (P : Ports) → List ℕ → P.Bus → Option (P.Bus × DateTime × List ℕ)
change_rtc P keys bus =
    let (bus', t) = read_rtc P bus in
    elim (change_keys keys 0 t) [
      | none ↦ none
      | some (changed, left) ↦
          let (done, now) = read_rtc P (write_rtc P changed bus') in some (done, now, left)
    ]
