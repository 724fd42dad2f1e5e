-- ===== src/Ios/Machine/Outputs.antt =====
-- WRITESECT as accesses of the Z80 (S220718-R290823_IOS-Z80-MBC2.ino).
use wi_fi_virt_disk.Base.{
  ℕ, suc, ◌+◌, ◌%◌, ◌<◌, ◌≤◌, ◌≡◌, ◌⊎◌, inl, inr, refl, ap, ◌∙◌, sym, false, List, [], ◌∷◌, ◌++◌,
  arith, if-cases, Bool-cases, if◌then◌else◌, ◌==◌, ◌||◌, length, set, length-set, leb,
}
use wi_fi_virt_disk.Ios.Disk.{
  Storage, DiskState, first_seek, flush_segment, write_byte, write_sect, no_operation,
}
use wi_fi_virt_disk.Ios.SectorWrite.{writes}
use wi_fi_virt_disk.Ios.Wire.{Ports}
use wi_fi_virt_disk.Ios.Machine.{Machine}
use wi_fi_virt_disk.Ios.Machine.Write.{write_opcode, execute_write}
use wi_fi_virt_disk.Ios.Machine.Pass.{Signals}
use wi_fi_virt_disk.Ios.Machine.Data.{given}
use wi_fi_virt_disk.Ios.Machine.Exchange.{Access, out, access, exchange}
use wi_fi_virt_disk.Ios.Machine.Select.{write_ended, disk_access}

-- OUT instructions of bytes
unfoldable pub outs : List ℕ → List Access
outs [] = []
outs (b ∷ bs) = out false b ∷ outs bs

module _ {S : Storage} where
  flush_kept :
      (d : DiskState S)
      → ((flush_segment d).io_opcode
          ≡ (if leb 511 d.io_byte_cnt then no_operation else d.io_opcode))
        × (length (flush_segment d).buffer_sd ≡ length d.buffer_sd)
        × ((flush_segment d).io_byte_cnt ≡ d.io_byte_cnt)
  unfolding flush_segment
  flush_kept d = (ground arith, ground arith, ground arith)

  seek_kept :
      (d : DiskState S)
      → ((first_seek d).io_opcode ≡ d.io_opcode)
        × (length (first_seek d).buffer_sd ≡ length d.buffer_sd)
        × ((first_seek d).io_byte_cnt ≡ d.io_byte_cnt)
  unfolding first_seek
  seek_kept d = (ground arith, ground arith, ground arith)

  -- The opcode stays or is done with the last byte, and the buffer keeps its size.
  abbrev Behind : DiskState S → DiskState S → Type 0
  Behind e d =
      ((e.io_opcode ≡ d.io_opcode) ⊎ ((e.io_opcode ≡ no_operation) × (511 ≤ d.io_byte_cnt)))
      × (length e.buffer_sd ≡ length d.buffer_sd)

  flush_segment-Behind : (d : DiskState S) → Behind (flush_segment d) d
  flush_segment-Behind d =
      let (code, size, _) = flush_kept d in
      (
        elim (Bool-cases (leb 511 d.io_byte_cnt)) [
          | inl t ↦ inr (code ∙ ap (λ b. if b then no_operation else d.io_opcode) t, ground arith)
          | inr f ↦ inl (code ∙ ap (λ b. if b then no_operation else d.io_opcode) f)
        ],
        size,
      )

  write_byte-Behind : (d : DiskState S) → Behind (write_byte d) d
  unfolding write_byte
  write_byte-Behind d =
      let at = d.io_byte_cnt % 32 in
      let stored : DiskState S = record d { buffer_sd = set d.buffer_sd at d.io_data } in
      let size = length-set d.buffer_sd at d.io_data in
      let (code, same) = flush_segment-Behind stored in
      if-cases (λ e. Behind e d) (d.disk_err == 0)
        (if at == 31 then flush_segment stored else stored) d
        (λ t.
          if-cases (λ e. Behind e d) (at == 31) (flush_segment stored) stored
            (λ u. (code, same ∙ size)) (λ u. (inl refl, size)))
        (λ f. (inl refl, refl))

  write_sect-Behind : (d : DiskState S) → Behind (write_sect d) d
  unfolding write_sect
  write_sect-Behind d =
      let (code, size, count) = seek_kept d in
      let (code', size') = write_byte-Behind (first_seek d) in
      (
        elim code' [ inl e ↦ inl (e ∙ code) | inr (e, late) ↦ inr (e, omega (arith, count, late)) ],
        size' ∙ size,
      )

  pub length-writes :
      (bytes : List ℕ) (d : DiskState S) → length (writes bytes d).buffer_sd ≡ length d.buffer_sd
  unfolding writes
  length-writes [] d = refl
  length-writes (b ∷ bs) d =
      length-writes bs (write_sect (given b d)) ∙ (write_sect-Behind (given b d)).1

  ended_same :
      (d : DiskState S) → (d.io_opcode ≡ 0x0C) ⊎ (d.io_opcode ≡ no_operation) → write_ended d ≡ d
  ended_same d (inl e) = rw e refl
  ended_same d (inr e) =
      if-cases (λ x. x ≡ d) ((d.io_opcode == 0x0A) || (d.io_opcode == 0x0C)) d
        (record d { io_opcode = no_operation }) (λ t. refl)
        (λ f. ap (λ k. record d { io_opcode = k }) (sym e))

  sect_count :
      (d : DiskState S) → d.io_byte_cnt < 512 → (write_sect d).io_byte_cnt ≡ d.io_byte_cnt + 1
  unfolding write_sect
  sect_count d small = omega arith

module _ {S : Storage} {P : Ports} where
  output :
      (byte : ℕ) (i : Signals) (m : Machine S P)
      → m.disk.io_opcode ≡ 0x0C
      → (access (out false byte) i m).disk ≡ write_ended (write_sect (given byte m.disk))
  unfolding execute_write write_opcode
  output byte i m = disk_access 0x0C byte i write_sect m (λ n. refl)

  -- The Z80 writes bytes of a sector, and goes on: the state of the disk is that of `writes`.
  pub outputs :
      (f : ℕ → Signals) (bytes : List ℕ) (k : ℕ) (rest : List Access) (m : Machine S P)
      → (0 < length bytes → m.disk.io_opcode ≡ 0x0C)
      → m.disk.io_byte_cnt + length bytes ≤ 512
      → (k' : ℕ) × (m' : Machine S P) × (exchange f k (outs bytes ++ rest) m
          ≡ exchange f k' rest m')
        × (m'.disk ≡ writes bytes m.disk)
  unfolding exchange outs writes
  outputs f [] k rest m code fits = (k, m, refl, refl)
  outputs f (b ∷ bs) k rest m code fits =
      let now = code (omega arith) in
      let m1 = access (out false b) (f k) m in
      let d1 = write_sect (given b m.disk) in
      let (stays, _) = write_sect-Behind (given b m.disk) in
      let over : (d1.io_opcode ≡ 0x0C) ⊎ (d1.io_opcode ≡ no_operation) = elim stays [
        | inl e ↦ inl (e ∙ now)
        | inr (e, _) ↦ inr e
      ] in
      let same : m1.disk ≡ d1 = output b (f k) m now ∙ ended_same d1 over in
      let count : d1.io_byte_cnt ≡ m.disk.io_byte_cnt + 1 =
        sect_count (given b m.disk) (omega arith) in
      let later : 0 < length bs → m1.disk.io_opcode ≡ 0x0C = λ more.
        ap (λ d. d.io_opcode) same
        ∙ elim stays [ inl e ↦ e ∙ now | inr (_, late) ↦ absurd (omega arith) ] in
      let (k', m', equal, disk) =
        outputs f bs (suc k) rest m1 later
          (omega (arith, ap (λ d. d.io_byte_cnt) same, count, fits)) in
      (k', m', equal, disk ∙ ap (writes bs) same)
