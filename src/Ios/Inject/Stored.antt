-- ===== src/Ios/Inject/Stored.antt =====
-- What is in the memory of the Z80 after the load of a program
-- (S220718-R290823_IOS-Z80-MBC2.ino).
use wi_fi_virt_disk.Base.{
  sym, append_assoc, ℕ, zero, suc, ◌+◌, ◌*◌, ◌/◌, ◌%◌, ◌<◌, ◌≤◌, ◌≡◌, ◌⊎◌, inl, inr, refl, ap, ◌∙◌,
  true, List, [], ◌∷◌, ◌++◌, none, if◌then◌else◌, ◌==◌, ltb, u16, get_or, length, arith, ==_refl,
  ne→==_false, lt→ltb, Bool-cases,
}
use wi_fi_virt_disk.Ios.Inject.{
  jp_nn, load_byte_to_ram, load_hl, load_bytes, inject_jump, load_program,
}
use wi_fi_virt_disk.Ios.Inject.Cpu.{Z80, fetch, steps, steps-append, t_cycles}

-- Between two instructions: the IOS does not drive the bus, and the RAM is on.
abbrev pub idle : ℕ → (ℕ → ℕ) → ℕ → Z80
idle hl memory clock = record {
  cycle = fetch;
  over = 0;
  hl = hl;
  memory = memory;
  clock = clock;
  bus = none;
  ram = true;
  safe = true;
}

abbrev put : (ℕ → ℕ) → ℕ → ℕ → ℕ → ℕ
put memory hl b a = if a == hl then b else memory a

byte_stored :
    (b h c : ℕ) (m : ℕ → ℕ)
    → steps (load_byte_to_ram b) (idle h m c) ≡ idle (u16 (h + 1)) (put m h b) (c + 16)
unfolding steps t_cycles load_byte_to_ram
byte_stored b h c m =
    let sum : c + 1 + 2 + 2 + 2 + 3 + 1 + 2 + 3 ≡ c + 16 = omega arith in
    ap (idle (u16 (h + 1)) (put m h b)) sum

hl_set : (v h c : ℕ) (m : ℕ → ℕ) → steps (load_hl v) (idle h m c) ≡ idle v m (c + 10)
unfolding steps t_cycles load_hl
hl_set v h c m =
    let sum : c + 1 + 2 + 2 + 3 + 2 ≡ c + 10 = omega arith in
    let word : v / 256 * 256 + v % 256 ≡ v = omega arith in λ i. idle (word i) m (sum i)

pub load_bytes-append : (xs ys : List ℕ) → load_bytes (xs ++ ys) ≡ load_bytes xs ++ load_bytes ys
unfolding load_bytes
load_bytes-append [] ys = refl
load_bytes-append (x ∷ xs) ys =
    ap (λ rest. load_byte_to_ram x ++ rest) (load_bytes-append xs ys)
    ∙ sym (append_assoc (load_byte_to_ram x) (load_bytes xs) (load_bytes ys))

-- The bytes of a list from an address on
unfoldable pub overlay : (ℕ → ℕ) → ℕ → List ℕ → ℕ → ℕ
overlay m h [] = m
overlay m h (b ∷ bs) = overlay (put m h b) (h + 1) bs

bytes_stored :
    (bs : List ℕ) (h k c : ℕ) (m : ℕ → ℕ)
    → (0 < length bs → h ≡ k)
    → k + length bs ≤ 65536
    → (h' : ℕ) × (steps (load_bytes bs) (idle h m c)
        ≡ idle h' (overlay m k bs) (c + 16 * length bs))
unfolding load_bytes overlay steps
bytes_stored [] h k c m at fits = (h, ap (idle h m) (omega arith))
bytes_stored (b ∷ bs) h k c m at fits =
    let here : h ≡ k = at (omega arith) in
    let next : 0 < length bs → u16 (h + 1) ≡ k + 1 = λ more. omega arith in
    let (h', rest) =
      bytes_stored bs (u16 (h + 1)) (k + 1) (c + 16) (put m k b) next (omega arith) in
    let sum : c + 16 + 16 * length bs ≡ c + 16 * suc (length bs) = omega arith in
    (
      h',
      steps-append (load_byte_to_ram b) (load_bytes bs) (idle h m c)
          ∙ (ap (steps (load_bytes bs)) (byte_stored b h c m)
              ∙ (ap (λ a. steps (load_bytes bs) (idle (u16 (h + 1)) (put m a b) (c + 16))) here
                  ∙ (rest ∙ ap (idle h' (overlay (put m k b) (k + 1) bs)) sum))),
    )

overlay-before : (bs : List ℕ) (m : ℕ → ℕ) (h a : ℕ) → a < h → overlay m h bs a ≡ m a
unfolding overlay
overlay-before [] m h a l = refl
overlay-before (b ∷ bs) m h a l =
    overlay-before bs (put m h b) (h + 1) a (omega arith)
    ∙ ap (λ t. if t then b else m a) (ne→==_false a h (λ e. omega arith))

overlay-get :
    (bs : List ℕ) (m : ℕ → ℕ) (h i : ℕ) → i < length bs → overlay m h bs (h + i) ≡ get_or bs i 0
unfolding overlay
overlay-get [] m h i l = absurd (omega arith)
overlay-get (b ∷ bs) m h zero l =
    let at : h + 0 ≡ h = omega arith in
    ap (overlay (put m h b) (h + 1) bs) at
    ∙ (overlay-before bs (put m h b) (h + 1) h (omega arith)
        ∙ ap (λ t. if t then b else m h) (==_refl h))
overlay-get (b ∷ bs) m h (suc i) l =
    let at : h + suc i ≡ h + 1 + i = omega arith in
    ap (overlay (put m h b) (h + 1) bs) at ∙ overlay-get bs (put m h b) (h + 1) i (omega arith)

-- The memory with the jump
abbrev jumped : ℕ → (ℕ → ℕ) → ℕ → ℕ
jumped start m = overlay m 0 (jp_nn ∷ start % 256 ∷ start / 256 ∷ [])

jump_stored :
    (start h c : ℕ) (m : ℕ → ℕ)
    → (h' : ℕ) × (steps (inject_jump start) (idle h m c)
        ≡ idle h' (if ltb 0 start then jumped start m else m) (c + (if ltb 0 start then 58 else 0)))
unfolding inject_jump steps
jump_stored start h c m =
    let code : List ℕ = jp_nn ∷ start % 256 ∷ start / 256 ∷ [] in
    let (h', three) = bytes_stored code 0 0 (c + 10) m (λ more. refl) (omega arith) in
    let sum : c + 10 + 16 * 3 ≡ c + 58 = omega arith in
    let all : steps (load_hl 0 ++ load_bytes code) (idle h m c)
        ≡ idle h' (jumped start m) (c + 58) =
      steps-append (load_hl 0) (load_bytes code) (idle h m c)
      ∙ (ap (steps (load_bytes code)) (hl_set 0 h c m)
          ∙ (three ∙ ap (idle h' (jumped start m)) sum)) in
    elim (Bool-cases (ltb 0 start)) [
      | inl t ↦ (h', rw t all)
      | inr f ↦ let same : c ≡ c + 0 = omega arith in (h, rw f (ap (idle h m) same))
    ]

program_stored :
    (image : List ℕ) (start h c : ℕ) (m : ℕ → ℕ)
    → start + length image ≤ 65536
    → let jump = ltb 0 start in
      (h' : ℕ) × (steps (load_program start image) (idle h m c)
        ≡ idle h'
            (overlay (if jump then jumped start m else m) start image)
            (c + (if jump then 58 else 0) + 10 + 16 * length image))
unfolding load_program
program_stored image start h c m fits =
    let rest = load_hl start ++ load_bytes image in
    let m1 : ℕ → ℕ = if ltb 0 start then jumped start m else m in
    let c1 = c + (if ltb 0 start then 58 else 0) in
    let (h1, first) = jump_stored start h c m in
    let (h', last) = bytes_stored image start start (c1 + 10) m1 (λ more. refl) fits in
    (
      h',
      steps-append (inject_jump start) rest (idle h m c)
          ∙ (ap (steps rest) first
              ∙ (steps-append (load_hl start) (load_bytes image) (idle h1 m1 c1)
                  ∙ (ap (steps (load_bytes image)) (hl_set start h1 c1 m1) ∙ last))),
    )

jumped-get :
    (start : ℕ) (m : ℕ → ℕ)
    → (jumped start m 0 ≡ 0xC3) × (jumped start m 1 + 256 * jumped start m 2 ≡ start)
unfolding overlay
jumped-get start m = (refl, omega arith)

-- A program of at most 64 KB behind its address is in the memory of the Z80 after the load, from
-- that address on, and if the address is not 0, the jump to it is at 0: the address must not be 1
-- or 2. The Z80 counts the clocks of its machine cycles: it reads only in the third one, a byte that
-- the IOS drives there with the RAM off the bus, and a byte that it writes reaches the RAM only if
-- RAM_CE2 is on in the third clock of the write. The IOS drives the bus in no clock that ends a
-- write and never with the RAM on, and leaves it between two instructions. Each byte takes 16
-- clocks, the address 10 and the jump 58.
pub load_program-steps :
    (image : List ℕ) (start h c : ℕ) (m : ℕ → ℕ)
    → start + length image ≤ 65536
    → (start ≡ 0) ⊎ (3 ≤ start)
    → let z = steps (load_program start image) (idle h m c) in
      ((i : ℕ) → i < length image → z.memory (start + i) ≡ get_or image i 0)
      × (0 < start → (z.memory 0 ≡ 0xC3) × (z.memory 1 + 256 * z.memory 2 ≡ start))
      × (z.safe ≡ true)
      × (z.bus ≡ none)
      × (z.ram ≡ true)
      × (z.cycle ≡ fetch)
      × (z.over ≡ 0)
      × (z.clock ≡ c + (if ltb 0 start then 68 else 10) + 16 * length image)
unfolding load_program inject_jump
load_program-steps image start h c m fits at =
    let jump = ltb 0 start in
    let (h', all) = program_stored image start h c m fits in
    let m1 : ℕ → ℕ = if jump then jumped start m else m in
    let kept : (a : ℕ) → a < 3 → 0 < start → overlay m1 start image a ≡ jumped start m a = λ a l p.
      overlay-before image m1 start a (omega arith)
      ∙ ap (λ t. (if t then jumped start m else m) a) (lt→ltb 0 start p) in
    let at_0 : 0 < start
        → (steps (load_program start image) (idle h m c)).memory 0 ≡ jumped start m 0 =
      λ p. ap (λ z. z.memory 0) all ∙ kept 0 (omega arith) p in
    let at_1 : 0 < start
        → (steps (load_program start image) (idle h m c)).memory 1 ≡ jumped start m 1 =
      λ p. ap (λ z. z.memory 1) all ∙ kept 1 (omega arith) p in
    let at_2 : 0 < start
        → (steps (load_program start image) (idle h m c)).memory 2 ≡ jumped start m 2 =
      λ p. ap (λ z. z.memory 2) all ∙ kept 2 (omega arith) p in
    (
      λ i l. ap (λ z. z.memory (start + i)) all ∙ overlay-get image m1 start i l,
      λ p. (at_0 p ∙ (jumped-get start m).0, omega (arith, at_1 p, at_2 p, (jumped-get start m).1)),
      ap (λ z. z.safe) all,
      ap (λ z. z.bus) all,
      ap (λ z. z.ram) all,
      ap (λ z. z.cycle) all,
      ap (λ z. z.over) all,
      ap (λ z. z.clock) all ∙ ground arith,
    )
