-- ===== src/Ios/Input.antt =====
-- The input of a line in the menu (`input` in S220718-R290823_IOS-Z80-MBC2.ino).
pub mod Text
use wi_fi_virt_disk.Base.{
  ℕ, zero, suc, ◌+◌, ◌-◌, ◌<◌, ◌≤◌, ◌≡◌, ◌≢◌, ◌⊎◌, inl, inr, refl, ap, ◌∙◌, sym, subst, Bool, true,
  false, ◌||◌, ◌&&◌, List, [], ◌∷◌, Option, none, some, if◌then◌else◌, if-cases, ◌==◌, ltb, leb,
  get_or, set, length, length-set, arith, lt_or_ge, Option-cases, get_or-set_self, get_or-set_ne,
}

-- `inBuf` and the static `ndx`
pub record Line : Type 0 where
  pub buf : List ℕ
  pub ndx : ℕ

-- `toUpperCase` and `toLowerCase`
abbrev pub to_upper : ℕ → ℕ
to_upper c = if leb b'a' c && leb c b'z' then c - 32 else c

abbrev pub to_lower : ℕ → ℕ
to_lower c = if leb b'A' c && leb c b'Z' then c + 32 else c

abbrev pub is_digit : ℕ → Bool
is_digit c = leb b'0' c && leb c b'9'

-- The character that a key stores in a mode: 1 is for numbers, 2 for hex numbers, others take all.
unfoldable pub accepted : ℕ → ℕ → Option ℕ
accepted mode c =
    let up = to_upper c in
    if mode == 1
    then if is_digit c then some c else none
    else if mode == 2
    then if is_digit up || ((leb b'A' up && leb up b'F') || (up == b'X'))
      then some (if up == b'X' then to_lower up else up)
      else none
    else some c

-- The place of the next character: the last one again in a full buffer
abbrev pub place : ℕ → ℕ → ℕ
place cnt ndx = if leb (cnt - 1) ndx then cnt - 1 else ndx

-- Save the character
abbrev pub store_key : ℕ → Option ℕ → Line → Line
store_key at none l = record l { ndx = at }
store_key at (some x) l = record { buf = set l.buf at x; ndx = at + 1 }

-- A key other than CR and ESC, with the Backspace; then the end of the string
unfoldable pub edit : ℕ → ℕ → ℕ → Line → Line
edit cnt mode c l =
    let stored = store_key (place cnt l.ndx) (accepted mode c) l in
    let next = if (c == 8) && ltb 0 l.ndx then record l { ndx = l.ndx - 1 } else stored in
    record next { buf = set next.buf next.ndx 0 }

-- The loop over the keys, which waits where they end; the result is false for ESC. The keys behind it
-- are those that are left.
unfoldable pub input_loop : ℕ → ℕ → List ℕ → Line → Option (Line × Bool × List ℕ)
input_loop cnt mode [] l = none
input_loop cnt mode (c ∷ cs) l =
    let rest = input_loop cnt mode cs (edit cnt mode c l) in
    let done = record l { ndx = 0 } in
    if c == 13 then some (done, true, cs) else if c == 27 then some (done, false, cs) else rest

-- `input`
unfoldable pub input : ℕ → ℕ → List ℕ → Line → Option (Line × Bool × List ℕ)
input cnt mode cs l = input_loop cnt mode cs (record l { buf = set l.buf 0 0 })
