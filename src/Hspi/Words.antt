-- ===== src/Hspi/Words.antt =====
-- What the data registers carry: four bytes a word, in order.
use wi_fi_virt_disk.Base.{
  ℕ, zero, suc, ◌+◌, ◌*◌, ◌/◌, ◌%◌, ◌<◌, ◌≡◌, refl, ap, ◌∙◌, List, ◌∷◌, arith, if◌then◌else◌, ltb,
  get_or, min,
}
use wi_fi_virt_disk.Hspi.{out_byte, set_data_loop, set_data, unpack, padded}

abbrev pub Bytes : List ℕ → Type 0
Bytes xs = (i : ℕ) → get_or xs i 0 < 256

-- the number of rounds that fill `m` words
rounds : ℕ → ℕ
rounds zero = 0
rounds (suc m) = suc (suc (suc (suc (rounds m))))

cons_eq : {x y : ℕ} {xs ys : List ℕ} → x ≡ y → xs ≡ ys → x ∷ xs ≡ y ∷ ys
cons_eq p q = λ i. p i ∷ q i

out_byte-lt : (bytes : List ℕ) (len i : ℕ) → Bytes bytes → out_byte bytes len i < 256
out_byte-lt bytes len i h = ground (arith, h i)

word_bytes :
    {a b c d : ℕ} {xs ys : List ℕ}
    → xs ≡ ys
    → a < 256
    → b < 256
    → c < 256
    → d < 256
    → let w = 0 + a * 1 + b * 256 + c * 65536 + d * 16777216 in
      w % 256 ∷ w / 256 % 256 ∷ w / 65536 % 256 ∷ w / 16777216 % 256 ∷ xs ≡ a ∷ b ∷ c ∷ d ∷ ys
word_bytes {a} {b} {c} {d} e ha hb hc hd =
    cons_eq (omega arith) (cons_eq (omega arith) (cons_eq (omega arith) (cons_eq (omega arith) e)))

unpack-loop :
    (bytes : List ℕ) (len m i : ℕ)
    → Bytes bytes
    → unpack (set_data_loop bytes len (rounds m) i 0 0) ≡ padded bytes len i (rounds m)
unfolding unpack set_data_loop padded rounds
unpack-loop bytes len zero i h = refl
unpack-loop bytes len (suc m) i h =
    word_bytes (unpack-loop bytes len m (i + 1 + 1 + 1 + 1) h) (out_byte-lt bytes len i h)
      (out_byte-lt bytes len (i + 1) h) (out_byte-lt bytes len (i + 1 + 1) h)
      (out_byte-lt bytes len (i + 1 + 1 + 1) h)

-- What `setData` stores, read from the registers byte by byte, is the first `len` bytes and then
-- zeros, 32 in all; a longer length counts as 32. The data are bytes.
pub unpack-set_data :
    (bytes : List ℕ) (len : ℕ)
    → Bytes bytes
    → unpack (set_data bytes len) ≡ padded bytes (min 32 len) 0 32
unfolding set_data unpack padded rounds
unpack-set_data bytes len h =
    unpack-loop bytes (if ltb 32 len then 32 else len) 8 0 h
    ∙ ap (λ l. padded bytes l 0 32) (ground arith)

pub get_or-padded :
    (bytes : List ℕ) (len i n j : ℕ)
    → j < n
    → get_or (padded bytes len i n) j 0 ≡ out_byte bytes len (i + j)
unfolding padded
get_or-padded bytes len i zero j h = elim h [ ]
get_or-padded bytes len i (suc n) zero h = ap (out_byte bytes len) (omega arith)
get_or-padded bytes len i (suc n) (suc j) h =
    get_or-padded bytes len (i + 1) n j (omega arith) ∙ ap (out_byte bytes len) (omega arith)

-- Byte `j` of the registers is byte `j` of the data, for `j` below both the length and 32.
pub register_byte :
    (bytes : List ℕ) (len j : ℕ)
    → Bytes bytes
    → j < len
    → j < 32
    → get_or (unpack (set_data bytes len)) j 0 ≡ get_or bytes j 0
register_byte bytes len j h jl j32 =
    ap (λ xs. get_or xs j 0) (unpack-set_data bytes len h)
    ∙ get_or-padded bytes (min 32 len) 0 32 j j32
    ∙ ground arith
