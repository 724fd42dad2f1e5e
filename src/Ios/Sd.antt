-- ===== src/Ios/Sd.antt =====
-- `mountSD`, `openSD`, `readSD`, `writeSD` and `seekSD` (S220718-R290823_IOS-Z80-MBC2.ino): the
-- virtual disk or the SD card, and the storage that they are for the disk opcodes.
use wi_fi_virt_disk.Base.{
  ℕ, ◌*◌, Bool, true, List, [], Option, none, some, if◌then◌else◌, u8, u16, u32,
}
use wi_fi_virt_disk.Ios.Link.{SpiLink, Master, fr_disk_err}
use wi_fi_virt_disk.Ios.Control.{vd_mount, vd_open, vd_lseek}
use wi_fi_virt_disk.Ios.Read.{Reading, vd_read}
use wi_fi_virt_disk.Ios.Write.{vd_write}
use wi_fi_virt_disk.Ios.Disk.{Storage}

-- The Petit FatFs library. Its functions give a `FRESULT`; a read also gives the buffer, and reads
-- and writes the number that they store, or `none` where they return before.
pub record PetitFs : Type 1 where
  pub Fat : Type 0
  pub pf_mount : Fat → Fat × ℕ
  pub pf_open : Fat → List ℕ → Fat × ℕ
  pub pf_read : Fat → List ℕ → ℕ → Fat × ℕ × List ℕ × Option ℕ
  pub pf_write : Fat → List ℕ → ℕ → Fat × ℕ × Option ℕ
  pub pf_lseek : Fat → ℕ → Fat × ℕ

-- `hung` is set where the fuel of `vd_read` has run out, which is a call that has not come back.
pub record SdState (S : SpiLink) (F : PetitFs) : Type 0 where
  pub virt_disk_flag : Bool
  pub master : Master S
  pub fat : F.Fat
  pub hung : Bool

-- `*numReadBytes = (byte) numBytes`, with what `numBytes` holds if nothing is stored in it
abbrev pub count_of : ℕ → Option ℕ → ℕ
count_of stray none = u8 stray
count_of stray (some n) = u8 n

-- `fuel` is for the loop of `vd_read`; `stray` is what `numBytes` and the variables of `vd_mount`
-- hold at their start.
module _ {S : SpiLink} {F : PetitFs} (fuel stray : ℕ) where
  unfoldable pub mount_sd : SdState S F → SdState S F × ℕ
  mount_sd s =
      let (m', e) = vd_mount stray stray s.master in
      let (fat', e') = F.pf_mount s.fat in
      if s.virt_disk_flag then (record s { master = m' }, e) else (record s { fat = fat' }, e')

  unfoldable pub open_sd : SdState S F → List ℕ → SdState S F × ℕ
  open_sd s name =
      let (m', e) = vd_open name s.master in
      let (fat', e') = F.pf_open s.fat name in
      if s.virt_disk_flag then (record s { master = m' }, e) else (record s { fat = fat' }, e')

  -- What `readSD` makes of the result of `vd_read`
  unfoldable pub vd_result :
      SdState S F → List ℕ → Option (Master S × Reading) → SdState S F × ℕ × List ℕ × ℕ
  vd_result s buff none = (record s { hung = true }, fr_disk_err, buff, count_of stray none)
  vd_result s buff (some (m', r)) =
      (record s { master = m' }, r.status, r.buff, count_of stray r.taken)

  unfoldable pub read_sd : SdState S F → List ℕ → SdState S F × ℕ × List ℕ × ℕ
  read_sd s buff =
      let (fat', e, buff', n) = F.pf_read s.fat buff 32 in
      if s.virt_disk_flag
      then vd_result s buff (vd_read fuel buff 32 s.master)
      else (record s { fat = fat' }, e, buff', count_of stray n)

  -- `none` is NULL, which ends a write.
  unfoldable pub write_sd : SdState S F → Option (List ℕ) → SdState S F × ℕ × ℕ
  write_sd s none =
      let (m', w) = vd_write [] 0 s.master in
      let (fat', e, n) = F.pf_write s.fat [] 0 in
      if s.virt_disk_flag
      then (record s { master = m' }, w.status, count_of stray w.written)
      else (record s { fat = fat' }, e, count_of stray n)
  write_sd s (some buff) =
      let (m', w) = vd_write buff 32 s.master in
      let (fat', e, n) = F.pf_write s.fat buff 32 in
      if s.virt_disk_flag
      then (record s { master = m' }, w.status, count_of stray w.written)
      else (record s { fat = fat' }, e, count_of stray n)

  -- `( (unsigned long) sectNum ) << 9` of a 16-bit number
  unfoldable pub seek_sd : SdState S F → ℕ → SdState S F × ℕ
  seek_sd s sect_num =
      let ofs = u32 (u16 sect_num * 512) in
      let (m', e) = vd_lseek ofs s.master in
      let (fat', e') = F.pf_lseek s.fat ofs in
      if s.virt_disk_flag then (record s { master = m' }, e) else (record s { fat = fat' }, e')

-- The storage of the disk opcodes
abbrev pub sd : SpiLink → PetitFs → ℕ → ℕ → Storage
sd S F fuel stray = record {
  State = SdState S F;
  mount_sd = mount_sd fuel stray;
  open_sd = open_sd fuel stray;
  seek_sd = seek_sd fuel stray;
  read_sd = read_sd fuel stray;
  write_sd = write_sd fuel stray;
}
