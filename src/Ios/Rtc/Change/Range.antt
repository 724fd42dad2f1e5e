-- ===== src/Ios/Rtc/Change/Range.antt =====
-- The ranges of the date and the time that `ChangeRTC` leaves (S220718-R290823_IOS-Z80-MBC2.ino).
use wi_fi_virt_disk.Base.{
  ℕ, zero, suc, ◌+◌, ◌-◌, ◌<◌, ◌≤◌, ◌≡◌, refl, ap, Bool, true, ◌||◌, ◌&&◌, length, List, [], ◌∷◌,
  Option, some, if◌then◌else◌, if-cases, ◌==◌, ==→eq, ltb, leb, u8, get_or, arith,
}
use wi_fi_virt_disk.Ios.Rtc.{DateTime, days_of_month, is_leap_year}
use wi_fi_virt_disk.Ios.Rtc.Change.{days_in, units, change_units, change_tens, press, change_keys}

-- A date and a time; a day of 32 comes from the key T in a leap year.
abbrev pub IsDateTime : DateTime → Type 0
IsDateTime t =
    (t.seconds < 60)
    × (t.minutes < 60)
    × (t.hours < 24)
    × (1 ≤ t.day)
    × (t.day ≤ 32)
    × (1 ≤ t.month)
    × (t.month ≤ 12)
    × (t.year < 100)

abbrev all_days : List ℕ → Bool
all_days [] = true
all_days (x ∷ xs) = leb 28 x && (leb x 31 && all_days xs)

-- Each element of the array is a number of days.
get-days :
    (xs : List ℕ) (i : ℕ)
    → all_days xs ≡ true
    → i < length xs
    → (28 ≤ get_or xs i 0) × (get_or xs i 0 ≤ 31)
get-days (x ∷ xs) zero h l = (ground (arith, h), ground (arith, h))
get-days (x ∷ xs) (suc i) h l = get-days xs i (ground (arith, h)) (omega arith)
get-days [] i h l = absurd (omega arith)

month_days : (month : ℕ) → 1 ≤ month → month ≤ 12 → (28 ≤ days_in month) × (days_in month ≤ 31)
month_days month l h = get-days days_of_month (month - 1) refl (omega arith)

leap_day : (year : ℕ) → is_leap_year year ≤ 1
unfolding is_leap_year
leap_day year = ground arith

units_small : (x : ℕ) → units x < 10
units_small x = omega arith

-- A number that is stepped, and starts again behind its last value
wrap_lt :
    (x last : ℕ)
    → last < 200
    → x ≤ last
    → (if ltb last (u8 (x + 1)) then 0 else u8 (x + 1)) < last + 1
wrap_lt x last b h = ground arith

wrap_day :
    (x last : ℕ)
    → last ≤ 31
    → 1 ≤ last
    → x ≤ 32
    → let y = if ltb last (u8 (x + 1)) then 1 else u8 (x + 1) in (1 ≤ y) × (y ≤ 32)
wrap_day x last l p h = (ground arith, ground arith)

tens_lt :
    (x last : ℕ)
    → 9 < last
    → last < 200
    → x ≤ last
    → (if ltb last (u8 (x + 10)) then units (u8 (x + 10)) else u8 (x + 10)) < last + 1
tens_lt x last a b h =
    if-cases (λ k. k < last + 1) (ltb last (u8 (x + 10))) (units (u8 (x + 10))) (u8 (x + 10))
      (λ t. omega (arith, units_small (u8 (x + 10)))) (λ f. ground arith)

tens_day :
    (x last : ℕ)
    → 9 < last
    → last ≤ 32
    → x ≤ 32
    → let day = if ltb last (u8 (x + 10)) then units (u8 (x + 10)) else u8 (x + 10) in
      let y = if day == 0 then 1 else day in (1 ≤ y) × (y ≤ 32)
tens_day x last a b h =
    let bound =
      if-cases (λ k. k ≤ 32) (ltb last (u8 (x + 10))) (units (u8 (x + 10))) (u8 (x + 10))
        (λ t. omega (arith, units_small (u8 (x + 10)))) (λ f. ground arith) in
    let day = if ltb last (u8 (x + 10)) then units (u8 (x + 10)) else u8 (x + 10) in
    if-cases (λ k. (1 ≤ k) × (k ≤ 32)) (day == 0) 1 day (λ t. (omega arith, omega arith))
      (λ f. (ground (arith, f), bound))

last_day :
    (month year : ℕ)
    → 1 ≤ month
    → month ≤ 12
    → let last = if month == 2 then days_in month + is_leap_year year else days_in month in
      (1 ≤ last) × (last ≤ 31)
last_day month year l h =
    let (lo, hi) = month_days month l h in
    let leap = leap_day year in
    if-cases (λ k. (1 ≤ k) × (k ≤ 31)) (month == 2) (days_in month + is_leap_year year)
      (days_in month)
      (λ t.
        let feb : days_in month ≡ 28 = ap days_in (==→eq month 2 t) in
        (omega (arith, lo), omega (arith, feb, leap)))
      (λ f. (omega (arith, lo), hi))

-- What holds of each change and of no change holds of the switch on the field.
switch-IsDateTime :
    (field : ℕ) (a b c d e f t : DateTime)
    → IsDateTime a
    → IsDateTime b
    → IsDateTime c
    → IsDateTime d
    → IsDateTime e
    → IsDateTime f
    → IsDateTime t
    → IsDateTime (
        if field == 0
        then a
        else if field == 1
        then b
        else if field == 2
        then c
        else if field == 3
        then d
        else if field == 4
        then e
        else if field == 5
        then f
        else t)
switch-IsDateTime field a b c d e f t ha hb hc hd he hf ht =
    let at5 = if-cases IsDateTime (field == 5) f t (λ _. hf) (λ _. ht) in
    let at4 = if-cases IsDateTime (field == 4) e _ (λ _. he) (λ _. at5) in
    let at3 = if-cases IsDateTime (field == 3) d _ (λ _. hd) (λ _. at4) in
    let at2 = if-cases IsDateTime (field == 2) c _ (λ _. hc) (λ _. at3) in
    let at1 = if-cases IsDateTime (field == 1) b _ (λ _. hb) (λ _. at2) in
    if-cases IsDateTime (field == 0) a _ (λ _. ha) (λ _. at1)

units-IsDateTime : (field : ℕ) (t : DateTime) → IsDateTime t → IsDateTime (change_units field t)
unfolding change_units
units-IsDateTime field t (s, m, h, d1, d32, m1, m12, y) =
    let (p, q) = last_day t.month t.year m1 m12 in
    let (low, up) = wrap_day t.day _ q p d32 in
    switch-IsDateTime field _ _ _ _ _ _ t
      (s, m, h, d1, d32, m1, m12, wrap_lt t.year 99 (omega arith) (omega arith))
      (s, m, h, d1, d32, ground arith, ground arith, y) (s, m, h, low, up, m1, m12, y)
      (s, m, wrap_lt t.hours 23 (omega arith) (omega arith), d1, d32, m1, m12, y)
      (s, wrap_lt t.minutes 59 (omega arith) (omega arith), h, d1, d32, m1, m12, y)
      (wrap_lt t.seconds 59 (omega arith) (omega arith), m, h, d1, d32, m1, m12, y)
      (s, m, h, d1, d32, m1, m12, y)

tens-IsDateTime : (field : ℕ) (t : DateTime) → IsDateTime t → IsDateTime (change_tens field t)
unfolding change_tens
tens-IsDateTime field t (s, m, h, d1, d32, m1, m12, y) =
    let (lo, hi) = month_days t.month m1 m12 in
    let leap = leap_day t.year in
    let (low, up) =
      tens_day t.day (days_in t.month + is_leap_year t.year) (omega (arith, lo))
        (omega (arith, hi, leap)) d32 in
    switch-IsDateTime field _ _ _ _ _ _ t
      (s, m, h, d1, d32, m1, m12, tens_lt t.year 99 (omega arith) (omega arith) (omega arith))
      (s, m, h, d1, d32, ground arith, ground arith, y) (s, m, h, low, up, m1, m12, y)
      (s, m, tens_lt t.hours 23 (omega arith) (omega arith) (omega arith), d1, d32, m1, m12, y)
      (s, tens_lt t.minutes 59 (omega arith) (omega arith) (omega arith), h, d1, d32, m1, m12, y)
      (tens_lt t.seconds 59 (omega arith) (omega arith) (omega arith), m, h, d1, d32, m1, m12, y)
      (s, m, h, d1, d32, m1, m12, y)

press-IsDateTime : (field key : ℕ) (t : DateTime) → IsDateTime t → IsDateTime (press field key t)
unfolding press
press-IsDateTime field key t v =
    if-cases IsDateTime ((key == b'u') || (key == b'U')) (change_units field t) _
      (λ u. units-IsDateTime field t v)
      (λ n.
        if-cases IsDateTime ((key == b't') || (key == b'T')) (change_tens field t) t
          (λ u. tens-IsDateTime field t v) (λ n. v))

-- The CR keys
unfoldable pub accepts : List ℕ → ℕ
accepts [] = 0
accepts (key ∷ keys) = (if key == 13 then 1 else 0) + accepts keys

-- Any keys change a date and a time into one: each number stays in its range, but for a day of 32.
-- The change ends as soon as CR has come for each of the six numbers still left, from `field` on.
pub change_keys-IsDateTime :
    (keys : List ℕ) (field : ℕ) (t : DateTime)
    → IsDateTime t
    → 6 ≤ field + accepts keys
    → (t' : DateTime) × (left : List ℕ) × (change_keys keys field t ≡ some (t', left))
      × IsDateTime t'
unfolding change_keys accepts
change_keys-IsDateTime [] field t v enough = (t, [], ground arith, v)
change_keys-IsDateTime (key ∷ keys) field t v enough =
    let accept = key == 13 in
    let rest =
      change_keys keys (if accept then field + 1 else field)
        (if accept then t else press field key t) in
    if-cases {A = Option (DateTime × List ℕ)}
      (λ o. (t' : DateTime) × (left : List ℕ) × (o ≡ some (t', left)) × IsDateTime t') (leb 6 field)
      (some (t, key ∷ keys)) rest (λ over. (t, key ∷ keys, refl, v))
      (λ more.
        change_keys-IsDateTime keys (if accept then field + 1 else field)
          (if accept then t else press field key t)
          (if-cases IsDateTime accept t (press field key t) (λ y. v)
            (λ n. press-IsDateTime field key t v))
          (ground arith))
