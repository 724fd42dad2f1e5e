-- ===== src/Ios/Boot/Card.antt =====
-- A file on the SD card as the boot program reads it (`readSD` of S220718-R290823_IOS-Z80-MBC2.ino).
use wi_fi_virt_disk.Base.{
  refl, ℕ, ◌+◌, ◌-◌, ◌≡◌, sym, ap, ◌∙◌, false, List, some, arith, length, take, drop, min, u8,
  subst,
}
use wi_fi_virt_disk.Ios.Link.{SpiLink}
use wi_fi_virt_disk.Ios.Sd.{PetitFs, SdState, sd, read_sd}
use wi_fi_virt_disk.Ios.Boot.Load.{IsFile}

-- What Petit FatFs documents of `pf_read` while the card works, with `Pos k` where the file is open
-- and its read pointer is at byte `k`: FR_OK; the number of bytes is that asked for, or what is left
-- to the end of the file; they are in the buffer; and the pointer is behind them.
pub record ReadsFile (F : PetitFs) (image : List ℕ) (Pos : ℕ → F.Fat → Type 0) : Type 0 where
  pub reads_ok :
      (k : ℕ) (fat : F.Fat) (buff : List ℕ) (n : ℕ) → Pos k fat → (F.pf_read fat buff n).1 ≡ 0
  pub reads_count :
      (k : ℕ) (fat : F.Fat) (buff : List ℕ) (n : ℕ)
      → Pos k fat
      → (F.pf_read fat buff n).3 ≡ some (min n (length image - k))
  pub reads_bytes :
      (k : ℕ) (fat : F.Fat) (buff : List ℕ) (n : ℕ)
      → Pos k fat
      → take (min n (length image - k)) (F.pf_read fat buff n).2 ≡ take n (drop k image)
  pub reads_move :
      (k : ℕ) (fat : F.Fat) (buff : List ℕ) (n : ℕ)
      → Pos k fat
      → Pos (k + min n (length image - k)) (F.pf_read fat buff n).0

-- The card is in use, with the file open at byte `k`.
abbrev pub OnCard : {L : SpiLink} {F : PetitFs} → (ℕ → F.Fat → Type 0) → ℕ → SdState L F → Type 0
OnCard Pos k st = (st.virt_disk_flag ≡ false) × Pos k st.fat

module _ (L : SpiLink) (F : PetitFs) (fuel stray : ℕ) (image : List ℕ) (Pos : ℕ → F.Fat → Type 0)
    (file : ReadsFile F image Pos) where
  card_read :
      (st : SdState L F) (buff : List ℕ) (n : ℕ)
      → st.virt_disk_flag ≡ false
      → (F.pf_read st.fat buff 32).3 ≡ some n
      → let got = F.pf_read st.fat buff 32 in
        read_sd fuel stray st buff ≡ (record st { fat = got.0 }, got.1, got.2, u8 n)
  unfolding read_sd
  card_read st buff n card count = rw (card, count) refl

  file_read :
      (k : ℕ) (st : SdState L F) (buff : List ℕ)
      → OnCard Pos k st
      → let got = F.pf_read st.fat buff 32 in
        read_sd fuel stray st buff
        ≡ (record st { fat = got.0 }, got.1, got.2, min 32 (length image - k))
  file_read k st buff (card, pos) =
      let n = min 32 (length image - k) in
      let small : u8 n ≡ n = omega arith in
      let got = F.pf_read st.fat buff 32 in
      card_read st buff n card (file.reads_count k st.fat buff 32 pos) ∙ λ i.
      (record st { fat = got.0 }, got.1, got.2, small i)

  pub sd-IsFile : IsFile (sd L F fuel stray) image (OnCard Pos)
  sd-IsFile = record {
    no_error = λ k st buff at.
        ap (λ r. r.1) (file_read k st buff at) ∙ file.reads_ok k st.fat buff 32 at.1;
    count = λ k st buff at. ap (λ r. r.3) (file_read k st buff at);
    bytes = λ k st buff at.
        ap (λ r. take r.3 r.2) (file_read k st buff at) ∙ file.reads_bytes k st.fat buff 32 at.1;
    moves = λ k st buff at.
        subst (λ r. OnCard Pos (k + r.3) r.0) (sym (file_read k st buff at))
          (at.0, file.reads_move k st.fat buff 32 at.1);
  }
