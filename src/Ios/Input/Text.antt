-- ===== src/Ios/Input/Text.antt =====
-- The string that an input leaves, for any keys (`input` in S220718-R290823_IOS-Z80-MBC2.ino).
use wi_fi_virt_disk.Base.{
  ℕ, ◌+◌, ◌-◌, ◌<◌, ◌≤◌, ◌≡◌, inl, inr, refl, ap, ◌∙◌, sym, subst, Bool, true, false, ◌||◌, ◌&&◌,
  List, [], ◌∷◌, Option, none, some, if◌then◌else◌, if-cases, ◌==◌, ltb, get_or, set, length,
  length-set, arith, lt_or_ge, get_or-set_self, get_or-set_ne,
}
use wi_fi_virt_disk.Ios.Input.{Line, accepted, place, store_key, edit, input_loop, input}

-- A character that a key can store
abbrev Stored : ℕ → ℕ → Type 0
Stored mode x = (c : ℕ) × (accepted mode c ≡ some x)

-- A buffer of its size, with stored characters before an index of it
abbrev Ready : ℕ → ℕ → Line → Type 0
Ready cnt mode l =
    (length l.buf ≡ cnt + 1)
    × (l.ndx ≤ cnt)
    × ((i : ℕ) → i < l.ndx → Stored mode (get_or l.buf i 0))

-- The buffer is a string of at most `cnt` such characters.
abbrev pub IsString : ℕ → ℕ → List ℕ → Type 0
IsString cnt mode buf =
    (length buf ≡ cnt + 1)
    × (n : ℕ) × (n ≤ cnt)
    × (get_or buf n 1 ≡ 0)
    × ((i : ℕ) → i < n → Stored mode (get_or buf i 0))

place_le : (cnt ndx : ℕ) → 0 < cnt → (place cnt ndx ≤ cnt - 1) × (place cnt ndx ≤ ndx)
place_le cnt ndx p = (ground arith, ground arith)

store_key-Ready :
    (cnt mode at : ℕ) (o : Option ℕ) (l : Line)
    → ((x : ℕ) → o ≡ some x → Stored mode x)
    → at < cnt
    → at ≤ l.ndx
    → Ready cnt mode l
    → Ready cnt mode (store_key at o l)
store_key-Ready cnt mode at none l takes a b (size, bound, h) =
    (size, omega arith, λ i j. h i (omega arith))
store_key-Ready cnt mode at (some x) l takes a b (size, bound, h) = (
  length-set l.buf at x ∙ size,
  omega arith,
  λ i j. elim (lt_or_ge i at) [
    | inl before ↦
        subst (Stored mode) (sym (get_or-set_ne l.buf x 0 (λ e. omega arith))) (h i (omega arith))
    | inr behind ↦
        let here : at ≡ i = omega arith in
        subst (Stored mode)
          (sym (get_or-set_self l.buf at x 0 (omega arith))
            ∙ ap (λ k. get_or (set l.buf at x) k 0) here)
          (takes x refl)
  ],
)

-- The end of the string leaves what is before it.
end-Ready :
    (cnt mode : ℕ) (l : Line)
    → Ready cnt mode l
    → Ready cnt mode (record l { buf = set l.buf l.ndx 0 }) × IsString cnt mode (set l.buf l.ndx 0)
end-Ready cnt mode l (size, bound, h) =
    let size' = length-set l.buf l.ndx 0 ∙ size in
    let kept : (i : ℕ) → i < l.ndx → Stored mode (get_or (set l.buf l.ndx 0) i 0) =
      λ i j. subst (Stored mode) (sym (get_or-set_ne l.buf 0 0 (λ e. omega arith))) (h i j) in
    let end = get_or-set_self l.buf l.ndx 0 1 (omega arith) in
    ((size', bound, kept), (size', l.ndx, bound, end, kept))

edit-Ready :
    (cnt mode c : ℕ) (l : Line)
    → 0 < cnt
    → Ready cnt mode l
    → Ready cnt mode (edit cnt mode c l) × IsString cnt mode (edit cnt mode c l).buf
unfolding edit
edit-Ready cnt mode c l p (size, bound, h) =
    let (under, below) = place_le cnt l.ndx p in
    let stored = store_key (place cnt l.ndx) (accepted mode c) l in
    let ready : Ready cnt mode stored =
      store_key-Ready cnt mode (place cnt l.ndx) (accepted mode c) l (λ x e. (c, e)) (omega arith)
        below (size, bound, h) in
    let back = record l { ndx = l.ndx - 1 } in
    end-Ready cnt mode (if (c == 8) && ltb 0 l.ndx then back else stored) (
      if-cases (Ready cnt mode) ((c == 8) && ltb 0 l.ndx) back stored
        (λ t. (size, omega arith, λ i j. h i (omega arith))) (λ f. ready))

-- CR or ESC is among the keys.
unfoldable pub ends_input : List ℕ → Bool
ends_input [] = false
ends_input (c ∷ cs) = (c == 13) || ((c == 27) || ends_input cs)

loop-IsString :
    (cnt mode : ℕ) (cs : List ℕ) (l : Line)
    → 0 < cnt
    → Ready cnt mode l
    → IsString cnt mode l.buf
    → ends_input cs ≡ true
    → (l' : Line) × (ok : Bool) × (left : List ℕ) × (input_loop cnt mode cs l ≡ some (l', ok, left))
      × IsString cnt mode l'.buf
unfolding input_loop ends_input
loop-IsString cnt mode [] l p v w e = absurd (cc)
loop-IsString cnt mode (c ∷ cs) l p v w e =
    let rest = input_loop cnt mode cs (edit cnt mode c l) in
    let done : Line = record l { ndx = 0 } in
    let Result : Option (Line × Bool × List ℕ) → Type 0 = λ o.
      (l' : Line) × (ok : Bool) × (left : List ℕ) × (o ≡ some (l', ok, left))
      × IsString cnt mode l'.buf in
    let (v', w') = edit-Ready cnt mode c l p v in
    if-cases Result (c == 13) (some (done, true, cs)) _ (λ t. (done, true, cs, refl, w))
      (λ f.
        if-cases Result (c == 27) (some (done, false, cs)) rest (λ t. (done, false, cs, refl, w))
          (λ g. loop-IsString cnt mode cs (edit cnt mode c l) p v' w' (ground (arith, e, f, g))))

-- A line is input as soon as CR or ESC comes, whatever keys come before: the buffer of `cnt` + 1 bytes
-- keeps its size, and holds a string of at most `cnt` characters, each one that the mode takes. `cnt`
-- is not 0, and the input begins with `ndx` at 0, as each input leaves it.
pub input-IsString :
    (cnt mode : ℕ) (cs : List ℕ) (l : Line)
    → 0 < cnt
    → length l.buf ≡ cnt + 1
    → l.ndx ≡ 0
    → ends_input cs ≡ true
    → (l' : Line) × (ok : Bool) × (left : List ℕ) × (input cnt mode cs l ≡ some (l', ok, left))
      × IsString cnt mode l'.buf
unfolding input
input-IsString cnt mode cs l p size start e =
    let none_yet : (i : ℕ) → i < l.ndx → Stored mode (get_or l.buf i 0) =
      λ i j. absurd (omega arith) in
    let (v, w) = end-Ready cnt mode l (size, omega arith, none_yet) in
    let at : set l.buf l.ndx 0 ≡ set l.buf 0 0 = ap (λ k. set l.buf k 0) start in
    loop-IsString cnt mode cs (record l { buf = set l.buf 0 0 }) p
      (subst (λ b. Ready cnt mode (record l { buf = b })) at v) (subst (IsString cnt mode) at w) e
