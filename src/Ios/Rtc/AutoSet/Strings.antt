-- ===== src/Ios/Rtc/AutoSet/Strings.antt =====
-- The strings of the compiler for `autoSetRTC` (S220718-R290823_IOS-Z80-MBC2.ino).
use wi_fi_virt_disk.Base.{
  ℕ, zero, suc, ◌+◌, ◌-◌, ◌*◌, ◌/◌, ◌%◌, ◌<◌, ◌≤◌, ◌≡◌, refl, ap, ◌∙◌, List, [], ◌∷◌, ◌++◌, none,
  some, if◌then◌else◌, if-cases, ltb, u8, ℤ, pos, get_or, take, drop, drop-drop, drop-append,
  take-append, length, sym, arith,
}
use wi_fi_virt_disk.Decimal.{atoi, take_digits, take_digits-step, parsed-digits}
use wi_fi_virt_disk.Ios.Rtc.{DateTime}
use wi_fi_virt_disk.Ios.Rtc.AutoSet.{to_byte, month_of, compile_time}

-- The strings of the compiler: "hh:mm:ss" and "Mmm dd yyyy", with a space for the first digit of a day
-- below 10
abbrev two : ℕ → List ℕ
two n = (48 + n / 10) ∷ (48 + n % 10) ∷ []

abbrev month_names : List (List ℕ)
month_names =
    (b'J' ∷ b'a' ∷ b'n' ∷ [])
    ∷ (b'F' ∷ b'e' ∷ b'b' ∷ [])
    ∷ (b'M' ∷ b'a' ∷ b'r' ∷ [])
    ∷ (b'A' ∷ b'p' ∷ b'r' ∷ [])
    ∷ (b'M' ∷ b'a' ∷ b'y' ∷ [])
    ∷ (b'J' ∷ b'u' ∷ b'n' ∷ [])
    ∷ (b'J' ∷ b'u' ∷ b'l' ∷ [])
    ∷ (b'A' ∷ b'u' ∷ b'g' ∷ [])
    ∷ (b'S' ∷ b'e' ∷ b'p' ∷ [])
    ∷ (b'O' ∷ b'c' ∷ b't' ∷ [])
    ∷ (b'N' ∷ b'o' ∷ b'v' ∷ [])
    ∷ (b'D' ∷ b'e' ∷ b'c' ∷ [])
    ∷ []

abbrev month_name : ℕ → List ℕ
month_name m = get_or month_names (m - 1) []

unfoldable pub time_string : ℕ → ℕ → ℕ → List ℕ
time_string h m s = two h ++ (b':' ∷ (two m ++ (b':' ∷ two s)))

abbrev day_digits : ℕ → List ℕ
day_digits d = if ltb d 10 then b' ' ∷ (48 + d) ∷ [] else two d

-- The year is 2000 + `y`.
unfoldable pub date_string : ℕ → ℕ → ℕ → List ℕ
date_string m d y = month_name m ++ (b' ' ∷ (day_digits d ++ (b' ' ∷ b'2' ∷ b'0' ∷ two y)))

month_of-name :
    (rest : List ℕ) (old m : ℕ) → 1 ≤ m → m ≤ 12 → month_of (month_name m ++ rest) old ≡ m
unfolding month_of
month_of-name rest old (suc zero) l h = refl
month_of-name rest old (suc (suc zero)) l h = refl
month_of-name rest old (suc (suc (suc zero))) l h = refl
month_of-name rest old (suc (suc (suc (suc zero)))) l h = refl
month_of-name rest old (suc (suc (suc (suc (suc zero))))) l h = refl
month_of-name rest old (suc (suc (suc (suc (suc (suc zero)))))) l h = refl
month_of-name rest old (suc (suc (suc (suc (suc (suc (suc zero))))))) l h = refl
month_of-name rest old (suc (suc (suc (suc (suc (suc (suc (suc zero)))))))) l h = refl
month_of-name rest old (suc (suc (suc (suc (suc (suc (suc (suc (suc zero))))))))) l h = refl
month_of-name rest old (suc (suc (suc (suc (suc (suc (suc (suc (suc (suc zero)))))))))) l h = refl
month_of-name rest old (suc (suc (suc (suc (suc (suc (suc (suc (suc (suc (suc zero))))))))))) l h =
    refl
month_of-name rest old (suc (suc (suc (suc (suc (suc (suc (suc (suc (suc (suc (suc zero))))))))))))
      l h =
    refl
month_of-name rest old zero l h = absurd (omega arith)
month_of-name rest old
      (suc (suc (suc (suc (suc (suc (suc (suc (suc (suc (suc (suc (suc (m)))))))))))))) l h =
    absurd (omega arith)

-- Each name has three letters.
length-month_name : (m : ℕ) → 1 ≤ m → m ≤ 12 → length (month_name m) ≡ 3
length-month_name (suc zero) l h = refl
length-month_name (suc (suc zero)) l h = refl
length-month_name (suc (suc (suc zero))) l h = refl
length-month_name (suc (suc (suc (suc zero)))) l h = refl
length-month_name (suc (suc (suc (suc (suc zero))))) l h = refl
length-month_name (suc (suc (suc (suc (suc (suc zero)))))) l h = refl
length-month_name (suc (suc (suc (suc (suc (suc (suc zero))))))) l h = refl
length-month_name (suc (suc (suc (suc (suc (suc (suc (suc zero)))))))) l h = refl
length-month_name (suc (suc (suc (suc (suc (suc (suc (suc (suc zero))))))))) l h = refl
length-month_name (suc (suc (suc (suc (suc (suc (suc (suc (suc (suc zero)))))))))) l h = refl
length-month_name (suc (suc (suc (suc (suc (suc (suc (suc (suc (suc (suc zero))))))))))) l h = refl
length-month_name (suc (suc (suc (suc (suc (suc (suc (suc (suc (suc (suc (suc zero)))))))))))) l h =
    refl
length-month_name zero l h = absurd (omega arith)
length-month_name (suc (suc (suc (suc (suc (suc (suc (suc (suc (suc (suc (suc (suc (m))))))))))))))
      l h =
    absurd (omega arith)

length-day_digits : (d : ℕ) → length (day_digits d) ≡ 2
length-day_digits d = if-cases (λ ds. length ds ≡ 2) (ltb d 10) _ _ (λ t. refl) (λ f. refl)

-- The day and the year in the string of the date
date_parts :
    (m d y : ℕ)
    → 1 ≤ m
    → m ≤ 12
    → (take 2 (drop 4 (date_string m d y)) ≡ day_digits d)
      × (take 2 (drop 9 (date_string m d y)) ≡ two y)
unfolding date_string
date_parts m d y l h =
    let year = b' ' ∷ b'2' ∷ b'0' ∷ two y in
    let rest = day_digits d ++ year in
    let behind : drop 4 (month_name m ++ (b' ' ∷ rest)) ≡ rest =
      sym (drop-drop 3 1 (month_name m ++ (b' ' ∷ rest)))
      ∙ ap (drop 1) (drop-append 3 (month_name m) (b' ' ∷ rest) (length-month_name m l h)) in
    let size = length-day_digits d in
    (
      ap (take 2) behind ∙ take-append 2 (day_digits d) year size,
      ap (take 2) (
          sym (drop-drop 4 5 (month_name m ++ (b' ' ∷ rest)))
          ∙ (ap (drop 5) behind
              ∙ (sym (drop-drop 2 3 rest) ∙ ap (drop 3) (drop-append 2 (day_digits d) year size)))),
    )

atoi-parsed :
    (c : ℕ) (cs : List ℕ) → 48 ≤ c → c < 58 → to_byte (atoi (c ∷ cs)) ≡ u8 (take_digits 0 (c ∷ cs))
unfolding atoi
atoi-parsed c cs low high =
    ap (λ o. to_byte (elim o as (λ _. ℤ) [ none ↦ pos 0 | some z ↦ z ]))
      (parsed-digits c cs low high)

atoi-two : (n : ℕ) → n < 100 → to_byte (atoi (two n)) ≡ n
atoi-two n small =
    let ones = (48 + n % 10) ∷ [] in
    let whole : take_digits 0 (two n) ≡ n / 10 * 10 + n % 10 =
      take_digits-step 0 (n / 10) ones (omega arith)
      ∙ ap (λ k. take_digits k ones) (omega arith)
      ∙ take_digits-step (n / 10) (n % 10) [] (omega arith) in
    atoi-parsed (48 + n / 10) ones (omega arith) (omega arith) ∙ (ap u8 whole ∙ omega arith)

atoi-day : (d : ℕ) → d < 100 → to_byte (atoi (day_digits d)) ≡ d
unfolding atoi
atoi-day d small =
    if-cases (λ ds. to_byte (atoi ds) ≡ d) (ltb d 10) (b' ' ∷ (48 + d) ∷ []) (two d)
      (λ t.
        let one : d < 10 = ground arith in
        atoi-parsed (48 + d) [] (omega arith) (omega arith)
        ∙ (ap u8 (take_digits-step 0 d [] one) ∙ omega arith))
      (λ f. atoi-two d small)

-- The strings that the compiler makes of a date and a time give its numbers back: an hour, a minute, a
-- second, a day and a year of two digits, and a month of the twelve, with the year 2000 and up.
pub compile_time-time_string :
    (h m s d n y : ℕ) (t : DateTime)
    → h < 100
    → m < 100
    → s < 100
    → d < 100
    → 1 ≤ n
    → n ≤ 12
    → y < 100
    → let c = compile_time (time_string h m s) (date_string n d y) t in
      (c.hours ≡ h) × (c.minutes ≡ m) × (c.seconds ≡ s) × (c.day ≡ d) × (c.month ≡ n) × (c.year ≡ y)
unfolding compile_time time_string date_string
compile_time-time_string h m s d n y t hh hm hs hd n1 n12 hy =
    let (at_day, at_year) = date_parts n d y n1 n12 in
    (
      atoi-two h hh,
      atoi-two m hm,
      atoi-two s hs,
      ap (λ ds. to_byte (atoi ds)) at_day ∙ atoi-day d hd,
      month_of-name _ t.month n n1 n12,
      ap (λ ds. to_byte (atoi ds)) at_year ∙ atoi-two y hy,
    )
