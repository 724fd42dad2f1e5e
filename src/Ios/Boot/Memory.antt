-- ===== src/Ios/Boot/Memory.antt =====
-- The boot program from the SD card in the memory of the Z80 (`setup` of
-- S220718-R290823_IOS-Z80-MBC2.ino).
use wi_fi_virt_disk.Base.{
  ℕ, zero, suc, ◌+◌, ◌*◌, ◌<◌, ◌≤◌, ◌≡◌, ◌≢◌, ◌⊎◌, refl, sym, ap, ◌∙◌, true, false, List, [], ◌∷◌,
  ◌++◌, some, arith, length, get_or, length-append, append_assoc,
}
use wi_fi_virt_disk.Ios.Link.{SpiLink}
use wi_fi_virt_disk.Ios.Sd.{PetitFs, sd, seek_sd}
use wi_fi_virt_disk.Ios.Inject.{LoadStep, load_bytes, load_hl, inject_jump, load_program}
use wi_fi_virt_disk.Ios.Inject.Cpu.{fetch, steps}
use wi_fi_virt_disk.Ios.Inject.Stored.{idle, load_program-steps, load_bytes-append}
use wi_fi_virt_disk.Ios.Boot.{Boot, load_segments, load_file, rewind}
use wi_fi_virt_disk.Ios.Boot.Load.{boot_loaded, boot_repeats}
use wi_fi_virt_disk.Ios.Boot.Card.{ReadsFile, OnCard, sd-IsFile}

get_or-append_left :
    (xs ys : List ℕ) (i : ℕ) → i < length xs → get_or (xs ++ ys) i 0 ≡ get_or xs i 0
get_or-append_left [] ys i l = absurd (omega arith)
get_or-append_left (x ∷ xs) ys zero l = refl
get_or-append_left (x ∷ xs) ys (suc i) l = get_or-append_left xs ys i (omega arith)

get_or-append_right : (xs ys : List ℕ) (i : ℕ) → get_or (xs ++ ys) (length xs + i) 0 ≡ get_or ys i 0
get_or-append_right [] ys i = let e : 0 + i ≡ i = omega arith in ap (λ k. get_or ys k 0) e
get_or-append_right (x ∷ xs) ys i =
    let e : suc (length xs) + i ≡ suc (length xs + i) = omega arith in
    ap (λ k. get_or (x ∷ (xs ++ ys)) k 0) e ∙ get_or-append_right xs ys i

-- What `setup` does to the bus before the load of the file
abbrev pub before_load : ℕ → List LoadStep
before_load start = inject_jump start ++ load_hl start

as_program :
    (start : ℕ) (image : List ℕ) → before_load start ++ load_bytes image ≡ load_program start image
unfolding load_program
as_program start image = append_assoc (inject_jump start) (load_hl start) (load_bytes image)

module _ {L : SpiLink} {F : PetitFs} (fuel stray : ℕ) (image : List ℕ) (Pos : ℕ → F.Fat → Type 0)
    (file : ReadsFile F image Pos) (start rounds tries h c : ℕ) (m : ℕ → ℕ)
    (b : Boot (sd L F fuel stray)) where
  -- A file on the SD card of at most 64 KB behind its address is in the memory of the Z80 after the
  -- load, from that address on, and if the address is not 0, the jump to it is at 0: the address
  -- must not be 1 or 2. The load ends in the first round without an error, and the Z80 is at the
  -- fetch of an instruction. The card works; before the load the IOS has put the jump into the RAM and
  -- the address into HL. A round of the inner loop for each 32 bytes and one more is enough.
  pub boot_in_memory :
      b.ram_steps ≡ before_load start
      → b.storage.virt_disk_flag ≡ false
      → Pos 0 b.storage.fat
      → length image < 32 * rounds
      → start + length image ≤ 65536
      → (start ≡ 0) ⊎ (3 ≤ start)
      → (d : Boot (sd L F fuel stray)) × (load_file rounds (suc tries) b ≡ some d)
        × (d.err_code_sd ≡ 0)
        × let z = steps d.ram_steps (idle h m c) in
          ((i : ℕ) → i < length image → z.memory (start + i) ≡ get_or image i 0)
          × (0 < start → (z.memory 0 ≡ 0xC3) × (z.memory 1 + 256 * z.memory 2 ≡ start))
          × (z.safe ≡ true)
          × (z.cycle ≡ fetch)
  boot_in_memory before card pos enough fits at =
      let law = sd-IsFile L F fuel stray image Pos file in
      let (d, done, bus, fine) =
        boot_loaded image (OnCard Pos) law rounds tries b (card, pos) enough in
      let whole : d.ram_steps ≡ load_program start image =
        bus ∙ ap (λ xs. xs ++ load_bytes image) before ∙ as_program start image in
      let (stored, jump, safe, _, _, cycle, _, _) = load_program-steps image start h c m fits at in
      (
        d,
        done,
        fine,
        (
          λ i l. ap (λ xs. (steps xs (idle h m c)).memory (start + i)) whole ∙ stored i l,
          λ p. (
            ap (λ xs. (steps xs (idle h m c)).memory 0) whole ∙ (jump p).0,
            ap (λ xs. let z = steps xs (idle h m c) in z.memory 1 + 256 * z.memory 2) whole
                ∙ (jump p).1,
          ),
          ap (λ xs. (steps xs (idle h m c)).safe) whole ∙ safe,
          ap (λ xs. (steps xs (idle h m c)).cycle) whole ∙ cycle,
        ),
      )

  rewind-OnCard :
      (first : Boot (sd L F fuel stray))
      → first.storage.virt_disk_flag ≡ false
      → Pos 0 (F.pf_lseek first.storage.fat 0).0
      → OnCard Pos 0 (rewind first).storage
  unfolding rewind seek_sd
  rewind-OnCard first card pos = rw card (refl, pos)

  -- If the first round of the load breaks off with an error and the card works after the seek to 0, the
  -- second round ends the load without an error, but the file is in the memory behind the `got`
  -- bytes of the first round, which stand at the address where the Z80 starts.
  pub boot_misplaced :
      (first : Boot (sd L F fuel stray)) (got : List ℕ)
      → b.ram_steps ≡ before_load start
      → load_segments rounds b ≡ some first
      → first.err_code_sd ≢ 0
      → first.ram_steps ≡ b.ram_steps ++ load_bytes got
      → first.storage.virt_disk_flag ≡ false
      → Pos 0 (F.pf_lseek first.storage.fat 0).0
      → length image < 32 * rounds
      → start + length got + length image ≤ 65536
      → (start ≡ 0) ⊎ (3 ≤ start)
      → (d : Boot (sd L F fuel stray)) × (load_file rounds (suc (suc tries)) b ≡ some d)
        × (d.err_code_sd ≡ 0)
        × let z = steps d.ram_steps (idle h m c) in
          ((i : ℕ) → i < length got → z.memory (start + i) ≡ get_or got i 0)
          × ((i : ℕ) → i < length image → z.memory (start + (length got + i)) ≡ get_or image i 0)
  boot_misplaced first got before broken error gave card pos enough fits at =
      let law = sd-IsFile L F fuel stray image Pos file in
      let (d, done, bus, fine) =
        boot_repeats image (OnCard Pos) law rounds tries b first broken error
          (rewind-OnCard first card pos) enough in
      let both = got ++ image in
      let size = length-append got image in
      let whole : d.ram_steps ≡ load_program start both =
        bus
        ∙ ap (λ xs. xs ++ load_bytes image) (gave ∙ ap (λ xs. xs ++ load_bytes got) before)
        ∙ append_assoc (before_load start) (load_bytes got) (load_bytes image)
        ∙ ap (λ xs. before_load start ++ xs) (sym (load_bytes-append got image))
        ∙ as_program start both in
      let (stored, _, _, _, _, _, _, _) =
        load_program-steps both start h c m (omega (arith, fits, size)) at in
      (
        d,
        done,
        fine,
        (
          λ i l.
              ap (λ xs. (steps xs (idle h m c)).memory (start + i)) whole
              ∙ stored i (omega (arith, size, l))
              ∙ get_or-append_left got image i l,
          λ i l.
              ap (λ xs. (steps xs (idle h m c)).memory (start + (length got + i))) whole
              ∙ stored (length got + i) (omega (arith, size, l))
              ∙ get_or-append_right got image i,
        ),
      )
