-- ===== src/Decimal.antt =====
-- Numbers in decimal: `std::to_string`, `std::stoi` and `atoi` of C and C++.
use wi_fi_virt_disk.Base.{
  ℕ, zero, suc, ◌+◌, ◌-◌, ◌*◌, ◌/◌, ◌%◌, ◌^◌, ◌<◌, ◌≤◌, ◌≡◌, refl, ap, ◌∙◌, sym, Bool, true, false,
  ◌&&◌, ◌||◌, List, [], ◌∷◌, ◌++◌, append_assoc, append-nil, Option, none, some, if◌then◌else◌,
  ◌==◌, ltb, leb, ℤ, pos, negsuc, arith, if-cases,
}

-- The digits of a number, with one round for each behind the first
unfoldable pub digits : ℕ → ℕ → List ℕ
digits zero n = (48 + n) ∷ []
digits (suc rounds) n =
    let front = digits rounds (n / 10) in
    if ltb n 10 then (48 + n) ∷ [] else front ++ ((48 + n % 10) ∷ [])

-- `std::to_string` of an `int` that is not negative
unfoldable pub to_string : ℕ → List ℕ
to_string n = digits 9 n

abbrev is_digit : ℕ → Bool
is_digit c = leb b'0' c && leb c b'9'

abbrev is_space : ℕ → Bool
is_space c = c == b' ' || (leb 9 c && leb c 13)

-- The number that the digits at the front continue
abbrev pub take_digits : ℕ → List ℕ → ℕ
take_digits n [] = n
take_digits n (c ∷ cs) =
    let more = take_digits (n * 10 + (c - 48)) cs in if is_digit c then more else n

abbrev pub skip_spaces : List ℕ → List ℕ
skip_spaces [] = []
skip_spaces (c ∷ cs) = let rest = skip_spaces cs in if is_space c then rest else c ∷ cs

abbrev starts_with_digit : List ℕ → Bool
starts_with_digit [] = false
starts_with_digit (c ∷ cs) = is_digit c

abbrev negated : ℕ → ℤ
negated zero = pos 0
negated (suc n) = negsuc n

-- A number behind spaces and a sign, or `none` without a digit
abbrev parse_unsigned : Bool → List ℕ → Option ℤ
parse_unsigned minus cs =
    if starts_with_digit cs
    then some (if minus then negated (take_digits 0 cs) else pos (take_digits 0 cs))
    else none

abbrev pub parse_signed : List ℕ → Option ℤ
parse_signed [] = none
parse_signed (c ∷ cs) =
    if c == b'-'
    then parse_unsigned true cs
    else if c == b'+'
    then parse_unsigned false cs
    else parse_unsigned false (c ∷ cs)

abbrev fits_int : ℤ → Bool
fits_int (pos n) = ltb n (2 ^ 31)
fits_int (negsuc n) = ltb n (2 ^ 31)

abbrev checked : Option ℤ → Option ℤ
checked none = none
checked (some z) = if fits_int z then some z else none

-- `std::stoi`; `none` is an exception.
unfoldable pub stoi : List ℕ → Option ℤ
stoi cs = checked (parse_signed (skip_spaces cs))

-- `atoi`, whose result C leaves open for numbers that do not fit
unfoldable pub atoi : List ℕ → ℤ
atoi cs = elim (parse_signed (skip_spaces cs)) [ none ↦ pos 0 | some z ↦ z ]

-- the numbers with that many rounds
abbrev limit : ℕ → ℕ
limit zero = 10
limit (suc rounds) = 10 * limit rounds

pub take_digits-step :
    (n c : ℕ) (ys : List ℕ) → c < 10 → take_digits n ((48 + c) ∷ ys) ≡ take_digits (n * 10 + c) ys
take_digits-step n c ys h = ground arith

take_digits-digits :
    (rounds n : ℕ) (ys : List ℕ)
    → n < limit rounds
    → take_digits 0 (digits rounds n ++ ys) ≡ take_digits n ys
unfolding digits
take_digits-digits zero n ys h =
    take_digits-step 0 n ys h ∙ ap (λ k. take_digits k ys) (omega arith)
take_digits-digits (suc rounds) n ys h =
    let front = digits rounds (n / 10) in
    let last = (48 + n % 10) ∷ ys in
    if-cases (λ r. take_digits 0 (r ++ ys) ≡ take_digits n ys) (ltb n 10) ((48 + n) ∷ [])
      (front ++ ((48 + n % 10) ∷ []))
      (λ t.
        let small : n < 10 = ground arith in
        take_digits-step 0 n ys small ∙ ap (λ k. take_digits k ys) (omega arith))
      (λ f.
        ap (take_digits 0) (append_assoc front ((48 + n % 10) ∷ []) ys)
        ∙ take_digits-digits rounds (n / 10) last (omega arith)
        ∙ take_digits-step (n / 10) (n % 10) ys (omega arith)
        ∙ ap (λ k. take_digits k ys) (omega arith))

-- The first digit
Starts : List ℕ → Type 0
Starts ds = (c : ℕ) × (cs : List ℕ) × (ds ≡ c ∷ cs) × (48 ≤ c) × (c < 58)

digits-Starts : (rounds n : ℕ) → n < limit rounds → Starts (digits rounds n)
unfolding digits Starts
digits-Starts zero n h = (48 + n, [], refl, omega arith, omega arith)
digits-Starts (suc rounds) n h =
    let (c, cs, e, low, high) = digits-Starts rounds (n / 10) (omega arith) in
    let last = (48 + n % 10) ∷ [] in
    if-cases Starts (ltb n 10) ((48 + n) ∷ []) (digits rounds (n / 10) ++ last)
      (λ t. (48 + n, [], refl, omega arith, ground arith))
      (λ f. (c, cs ++ last, ap (λ r. r ++ last) e, low, high))

pub parsed-digits :
    (c : ℕ) (cs : List ℕ)
    → 48 ≤ c
    → c < 58
    → parse_signed (skip_spaces (c ∷ cs)) ≡ some (pos (take_digits 0 (c ∷ cs)))
parsed-digits c cs low high =
    let digit : is_digit c ≡ true = ground arith in
    let solid : is_space c ≡ false = ground arith in
    let no_minus : (c == b'-') ≡ false = ground arith in
    let no_plus : (c == b'+') ≡ false = ground arith in rw (solid, no_minus, no_plus, digit) refl

-- A number that fits into an `int` is read back from its decimal form.
pub stoi-to_string : (n : ℕ) → n < 2 ^ 31 → stoi (to_string n) ≡ some (pos n)
unfolding stoi to_string Starts
stoi-to_string n h =
    let (c, cs, e, low, high) = digits-Starts 9 n (omega arith) in
    let whole : take_digits 0 (digits 9 n) ≡ n =
      ap (take_digits 0) (sym (append-nil (digits 9 n)))
      ∙ take_digits-digits 9 n [] (omega arith) in
    let small : ltb n (2 ^ 31) ≡ true = ground arith in
    ap (λ ds. checked (parse_signed (skip_spaces ds))) e
    ∙ ap checked (parsed-digits c cs low high)
    ∙ ap (λ k. checked (some (pos k))) (ap (take_digits 0) (sym e) ∙ whole)
    ∙ rw small refl
