-- ===== src/Ios/Boot/Load.antt =====
-- What the load of the boot program gives to the RAM (`setup` of S220718-R290823_IOS-Z80-MBC2.ino).
use wi_fi_virt_disk.Base.{
  ℕ, zero, suc, ◌+◌, ◌-◌, ◌*◌, ◌<◌, ◌≤◌, ◌≡◌, ◌≢◌, refl, ap, ◌∙◌, sym, List, ◌++◌, Option, some,
  if◌then◌else◌, ◌==◌, arith, length, take, drop, min, ne→==_false, append_assoc, take-append-drop,
  take_all, length-drop, drop-drop, lt_or_ge, inl, inr,
}
use wi_fi_virt_disk.Ios.Disk.{Storage}
use wi_fi_virt_disk.Ios.Inject.{LoadStep, load_bytes}
use wi_fi_virt_disk.Ios.Inject.Stored.{load_bytes-append}
use wi_fi_virt_disk.Ios.Boot.{
  Boot, load_segment, load_segments, load_file, rewind, segments-last, segments-next,
  load_file-ended,
}

-- A file in a storage, with `At k` where the next byte read is byte `k`: reads give the bytes in order
-- up to the end of the file, and no error.
pub record IsFile (S : Storage) (image : List ℕ) (At : ℕ → S.State → Type 0) : Type 0 where
  pub no_error : (k : ℕ) (st : S.State) (buff : List ℕ) → At k st → (S.read_sd st buff).1 ≡ 0
  pub count :
      (k : ℕ) (st : S.State) (buff : List ℕ)
      → At k st
      → (S.read_sd st buff).3 ≡ min 32 (length image - k)
  pub bytes :
      (k : ℕ) (st : S.State) (buff : List ℕ)
      → At k st
      → let (_, _, buffer, n) = S.read_sd st buff in take n buffer ≡ take 32 (drop k image)
  pub moves :
      (k : ℕ) (st : S.State) (buff : List ℕ)
      → At k st
      → At (k + (S.read_sd st buff).3) (S.read_sd st buff).0

module _ {S : Storage} (image : List ℕ) (At : ℕ → S.State → Type 0) (file : IsFile S image At) where
  -- A load that ends without an error, behind these steps
  abbrev pub Loads : Option (Boot S) → List LoadStep → Type 0
  Loads o done = (b : Boot S) × (o ≡ some b) × (b.ram_steps ≡ done) × (b.err_code_sd ≡ 0)

  segment_lem :
      (k : ℕ) (b : Boot S)
      → At k b.storage
      → let (b', n) = load_segment b in
        (n ≡ min 32 (length image - k))
        × (b'.ram_steps ≡ b.ram_steps ++ load_bytes (take 32 (drop k image)))
        × (b'.err_code_sd ≡ 0)
        × At (k + n) b'.storage
  unfolding load_segment
  segment_lem k b at = (
    file.count k b.storage b.buffer_sd at,
    ap (λ xs. b.ram_steps ++ load_bytes xs) (file.bytes k b.storage b.buffer_sd at),
    file.no_error k b.storage b.buffer_sd at,
    file.moves k b.storage b.buffer_sd at,
  )

  segments-Loads :
      (fuel k : ℕ) (b : Boot S)
      → At k b.storage
      → k ≤ length image
      → length image - k < 32 * fuel
      → Loads (load_segments fuel b) (b.ram_steps ++ load_bytes (drop k image))
  segments-Loads zero k b at inside enough = absurd (omega arith)
  segments-Loads (suc fuel) k b at inside enough =
      let (b', n) = load_segment b in
      let (count, loaded, fine, at') = segment_lem k b at in
      let rest = drop k image in
      elim (lt_or_ge (length image - k) 32) [
        | inl short ↦
            let all : take 32 rest ≡ rest = take_all 32 rest (omega (arith, length-drop k image)) in
            (
              b',
              segments-last fuel n b b' refl (λ e. omega (arith, count, e)),
              loaded ∙ ap (λ xs. b.ram_steps ++ load_bytes xs) all,
              fine,
            )
        | inr long ↦
            let full : n ≡ 32 = omega (arith, count) in
            let (d, done, got, ok) =
              segments-Loads fuel (k + n) b' at' (omega (arith, full)) (omega (arith, full)) in
            let parts : take 32 rest ++ drop (k + n) image ≡ rest =
              ap (λ xs. take 32 rest ++ xs) (sym (drop-drop k n image) ∙ ap (λ x. drop x rest) full)
              ∙ take-append-drop 32 rest in
            (
              d,
              segments-next fuel n b b' refl full fine ∙ done,
              got
                  ∙ ap (λ xs. xs ++ load_bytes (drop (k + n) image)) loaded
                  ∙ append_assoc b.ram_steps (load_bytes (take 32 rest))
                      (load_bytes (drop (k + n) image))
                  ∙ ap (λ xs. b.ram_steps ++ xs)
                      (sym (load_bytes-append (take 32 rest) (drop (k + n) image))
                        ∙ ap load_bytes parts),
              ok,
            )
      ]

  pub boot_loaded :
      (fuel tries : ℕ) (b : Boot S)
      → At 0 b.storage
      → length image < 32 * fuel
      → Loads (load_file fuel (suc tries) b) (b.ram_steps ++ load_bytes image)
  boot_loaded fuel tries b at enough =
      let (d, done, got, fine) = segments-Loads fuel 0 b at (omega arith) (omega arith) in
      (
        d,
        load_file-ended fuel tries b d done
            ∙ ap (λ e. if e == 0 then some d else load_file fuel tries (rewind d)) fine,
        got,
        fine,
      )

  rewind-steps : (b : Boot S) → (rewind b).ram_steps ≡ b.ram_steps
  unfolding rewind
  rewind-steps b = refl

  pub boot_repeats :
      (fuel tries : ℕ) (b first : Boot S)
      → load_segments fuel b ≡ some first
      → first.err_code_sd ≢ 0
      → At 0 (rewind first).storage
      → length image < 32 * fuel
      → Loads (load_file fuel (suc (suc tries)) b) (first.ram_steps ++ load_bytes image)
  boot_repeats fuel tries b first broken error at enough =
      let (d, done, got, fine) = boot_loaded fuel tries (rewind first) at enough in
      (
        d,
        load_file-ended fuel (suc tries) b first broken
            ∙ ap (λ c. if c then some first else load_file fuel (suc tries) (rewind first))
                (ne→==_false first.err_code_sd 0 error)
            ∙ done,
        got ∙ ap (λ xs. xs ++ load_bytes image) (rewind-steps first),
        fine,
      )
