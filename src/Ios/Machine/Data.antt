-- ===== src/Ios/Machine/Data.antt =====
-- READSECT and the value that `ioData` has before it.
use wi_fi_virt_disk.Base.{
  ℕ, zero, suc, ◌+◌, ◌%◌, ◌≡◌, ◌≢◌, refl, ap, ◌∙◌, sym, subst, Bool, true, false, arith,
  if◌then◌else◌, ◌==◌, leb, ◌&&◌, get_or, ==→eq, Bool-cases, inl, inr, u16,
}
use wi_fi_virt_disk.Ios.Disk.{
  Storage, DiskState, first_seek, next_segment, read_byte, read_sect, no_operation, valid_address,
  logical_sector,
}
use wi_fi_virt_disk.Ios.Segments.{reads}

-- A function on the branches of a test
if-ap {ℓ κ} :
    {A : Type ℓ} {B : Type κ} (f : A → B) (b : Bool) (x y : A)
    → f (if b then x else y) ≡ (if b then f x else f y)
if-ap f true x y = refl
if-ap f false x y = refl

-- What holds of the two first branches and of the two others holds of the tests.
if-both {ℓ κ} :
    {A : Type ℓ} (R : A → A → Type κ) (b : Bool) (x y x' y' : A)
    → R x x'
    → (b ≡ false → R y y')
    → R (if b then x else y) (if b then x' else y')
if-both R true x y x' y' t f = t
if-both R false x y x' y' t f = f refl

zero_test {ℓ} : {A : Type ℓ} (k : ℕ) → k ≡ 0 → (k == 0) ≡ false → A
zero_test k e f = absurd (ground arith)

module _ {S : Storage} where
  -- The same state but for `ioData`, and that too if there is no error
  abbrev pub SameResult : DiskState S → DiskState S → Type 0
  SameResult e d = (e ≡ record d { io_data = e.io_data }) × (d.disk_err ≡ 0 → e.io_data ≡ d.io_data)

  abbrev pub given : ℕ → DiskState S → DiskState S
  given x d = record d { io_data = x }

  abbrev inner : ℕ → DiskState S → DiskState S
  inner at filled =
      if filled.disk_err == 0
      then record filled { io_data = get_or filled.buffer_sd at 0 }
      else filled

  inner_same : (at x : ℕ) (d : DiskState S) → SameResult (inner at (given x d)) (inner at d)
  inner_same at x d =
      let v = get_or d.buffer_sd at 0 in
      if-both SameResult (d.disk_err == 0) (given v d) (given x d) (given v d) d (refl, λ ok. refl)
        (λ f. (refl, λ ok. zero_test d.disk_err ok f))

  byte_same : (x : ℕ) (d : DiskState S) → SameResult (read_byte (given x d)) (read_byte d)
  unfolding read_byte next_segment
  byte_same x d =
      let at = d.io_byte_cnt % 32 in
      let fill : DiskState S → DiskState S = λ e. if at == 0 then next_segment e else e in
      let moved : fill (given x d) ≡ given x (fill d) =
        sym (if-ap (given x) (at == 0) (next_segment d) d) in
      let filled : SameResult (inner at (fill (given x d))) (inner at (fill d)) =
        subst (λ e. SameResult (inner at e) (inner at (fill d))) (sym moved)
          (inner_same at x (fill d)) in
      if-both SameResult (d.disk_err == 0) (inner at (fill (given x d))) (given x d)
        (inner at (fill d)) d filled (λ f. (refl, λ ok. zero_test d.disk_err ok f))

  pub sect_same : (x : ℕ) (d : DiskState S) → SameResult (read_sect (given x d)) (read_sect d)
  unfolding read_sect first_seek
  sect_same x d =
      let (storage', e) = S.seek_sd d.storage (logical_sector d.track_sel d.sect_sel) in
      let moved : first_seek (given x d) ≡ given x (first_seek d) = sym (
        if-ap (given x)
          ((d.io_byte_cnt == 0) && (valid_address d.track_sel d.sect_sel && (d.disk_err == 0)))
          (record d { storage = storage'; disk_err = e }) d) in
      let (same, value) =
        subst (λ e. SameResult (read_byte e) (read_byte (first_seek d))) (sym moved)
          (byte_same x (first_seek d)) in
      let close : DiskState S → DiskState S = λ done. record done {
        io_opcode = if leb 511 d.io_byte_cnt then no_operation else done.io_opcode;
        io_byte_cnt = u16 (d.io_byte_cnt + 1);
      } in
      (ap close same, value)

  -- An error stays, and there is no byte.
  pub failed_sect :
      (d : DiskState S)
      → d.disk_err ≢ 0
      → ((read_sect d).disk_err ≡ d.disk_err) × ((read_sect d).io_data ≡ d.io_data)
  unfolding read_sect read_byte first_seek
  failed_sect d bad = (ground arith, ground arith)

  -- Where there is no error in the end, there was none.
  pub no_error : (n : ℕ) (d : DiskState S) → (reads n d).0.disk_err ≡ 0 → d.disk_err ≡ 0
  unfolding reads
  no_error zero d ok = ok
  no_error (suc n) d ok =
      let first = no_error n (read_sect d) ok in
      elim (Bool-cases (d.disk_err == 0)) [
        | inl t ↦ ==→eq d.disk_err 0 t
        | inr f ↦
            let bad : d.disk_err ≢ 0 = λ e. zero_test d.disk_err e f in
            sym (failed_sect d bad).0 ∙ first
      ]
