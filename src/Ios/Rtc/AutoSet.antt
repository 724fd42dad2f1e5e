-- ===== src/Ios/Rtc/AutoSet.antt =====
-- The setting of the RTC to the time of the compilation (`autoSetRTC` in
-- S220718-R290823_IOS-Z80-MBC2.ino).
pub mod Strings
use wi_fi_virt_disk.Base.{
  ℕ, zero, suc, ◌+◌, ◌-◌, ◌*◌, ◌/◌, ◌%◌, ◌<◌, ◌≤◌, ◌≡◌, refl, ap, ◌∙◌, Bool, true, false, ◌||◌, not,
  List, [], ◌∷◌, ◌++◌, Option, none, some, if◌then◌else◌, if-cases, ◌==◌, ltb, leb, u8, ℤ, pos,
  negsuc, get_or, take, drop, drop-drop, drop-append, take-append, length, sym, arith,
}
use wi_fi_virt_disk.Decimal.{
  atoi, parse_signed, skip_spaces, take_digits, take_digits-step, parsed-digits,
}
use wi_fi_virt_disk.Ios.Wire.{Ports, ds3231_rtc, ds3231_statrg, wire_read}
use wi_fi_virt_disk.Ios.Rtc.{DateTime, read_rtc, write_rtc}

-- A number that is stored in a byte
abbrev pub to_byte : ℤ → ℕ
to_byte (pos n) = u8 n
to_byte (negsuc n) = 255 - u8 n

-- `s.substring( from, to ).toInt()`
abbrev part : List ℕ → ℕ → ℕ → ℕ
part s from to = to_byte (atoi (take (to - from) (drop from s)))

-- The month by the letters of its name
unfoldable pub month_of : List ℕ → ℕ → ℕ
month_of date old =
    let first = get_or date 0 0 in
    let third = get_or date 2 0 in
    if first == b'J'
    then if get_or date 1 0 == b'a' then 1 else if third == b'n' then 6 else 7
    else if first == b'F'
    then 2
    else if first == b'A'
    then if third == b'r' then 4 else 8
    else if first == b'M'
    then if third == b'r' then 3 else 5
    else if first == b'S'
    then 9
    else if first == b'O'
    then 10
    else if first == b'N'
    then 11
    else if first == b'D'
    then 12
    else old

-- The numbers of `compTimeStr` and `compDateStr`
unfoldable pub compile_time : List ℕ → List ℕ → DateTime → DateTime
compile_time time date t = record t {
  seconds = part time 6 8;
  minutes = part time 3 5;
  hours = part time 0 2;
  day = part date 4 6;
  month = month_of date t.month;
  year = part date 9 11;
}

-- The first key that is an answer, and the keys behind it
unfoldable ask : List ℕ → Option (ℕ × List ℕ)
ask [] = none
ask (key ∷ keys) =
    let rest = ask keys in
    if (key == b'y') || ((key == b'Y') || ((key == b'n') || (key == b'N')))
    then some (key, keys)
    else rest

-- The answer yes sets the RTC, and then it is read again; both answers reset the flag.
abbrev answered :
    (P : Ports) → P.Bus → DateTime → Option (ℕ × List ℕ) → Option (P.Bus × DateTime × Bool × List ℕ)
answered P bus t none = none
answered P bus t (some (key, left)) =
    let yes = (key == b'y') || (key == b'Y') in
    let (written, now) = read_rtc P (write_rtc P t bus) in
    let before = if yes then written else bus in
    let reset = (P.transmit before ds3231_rtc (ds3231_statrg ∷ 0x08 ∷ [])).0 in
    some (reset, if yes then now else t, true, left)

-- `autoSetRTC`: the bus, the globals, whether there is an RTC, and the keys left
unfoldable auto_set_rtc :
    (P : Ports)
    → List ℕ
    → List ℕ
    → List ℕ
    → P.Bus
    → DateTime
    → Option (P.Bus × DateTime × Bool × List ℕ)
auto_set_rtc P time date keys bus old =
    let (asked, missing) = P.transmit bus ds3231_rtc [] in
    let (clocked, t) = read_rtc P asked in
    let (pointed, _) = P.transmit clocked ds3231_rtc (ds3231_statrg ∷ []) in
    let (ready, status) = P.request pointed ds3231_rtc 1 in
    if not (missing == 0)
    then some (asked, old, false, keys)
    else if wire_read P status 0 / 128 % 2 == 1
    then answered P ready (compile_time time date t) (ask keys)
    else some (ready, t, true, keys)
