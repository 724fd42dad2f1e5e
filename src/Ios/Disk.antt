-- ===== src/Ios/Disk.antt =====
-- The disk opcodes of the main loop (S220718-R290823_IOS-Z80-MBC2.ino): SELDISK, SELTRACK, SELSECT,
-- WRITESECT and READSECT, one call for each byte that the Z80 exchanges.
use wi_fi_virt_disk.Base.{
  ℕ, ◌+◌, ◌-◌, ◌*◌, ◌/◌, ◌%◌, Bool, ◌&&◌, List, [], ◌∷◌, Option, none, some, if◌then◌else◌, ◌==◌,
  ltb, leb, get_or, set, u16,
}

-- `mountSD`, `openSD`, `seekSD`, `readSD` and `writeSD`, which call the functions of virtDisk.cpp or those of the
-- Petit FatFs library. A read gives the error, the buffer and the number of bytes; a write gets no
-- buffer to end a write, and gives the error and the number of bytes.
pub record Storage : Type 1 where
  pub State : Type 0
  pub mount_sd : State → State × ℕ
  pub open_sd : State → List ℕ → State × ℕ
  pub seek_sd : State → ℕ → State × ℕ
  pub read_sd : State → List ℕ → State × ℕ × List ℕ × ℕ
  pub write_sd : State → Option (List ℕ) → State × ℕ × ℕ

-- The codes of `diskErr` that are not those of the storage
abbrev pub illegal_disk : ℕ
illegal_disk = 16

abbrev pub illegal_track : ℕ
illegal_track = 17

abbrev pub illegal_sector : ℕ
illegal_sector = 18

abbrev pub unexpected_eof : ℕ
unexpected_eof = 19

-- `ioOpcode` for no operation
abbrev pub no_operation : ℕ
no_operation = 0xFF

-- The globals that the opcodes use
pub record DiskState (S : Storage) : Type 0 where
  pub storage : S.State
  pub disk_set : ℕ
  pub track_sel : ℕ
  pub sect_sel : ℕ
  pub disk_err : ℕ
  pub buffer_sd : List ℕ
  pub io_data : ℕ
  pub io_opcode : ℕ
  pub io_byte_cnt : ℕ

-- `diskName`, "DSsNnn.DSK" with the disk set and the two digits of the number
abbrev pub disk_name : ℕ → ℕ → List ℕ
disk_name set number =
    b'D'
    ∷ b'S'
    ∷ (set + 48)
    ∷ b'N'
    ∷ (number / 10 + 48)
    ∷ (number - number / 10 * 10 + 48)
    ∷ b'.'
    ∷ b'D'
    ∷ b'S'
    ∷ b'K'
    ∷ []

-- `( trackSel < 512 ) && ( sectSel < 32 )`
abbrev pub valid_address : ℕ → ℕ → Bool
valid_address track sector = ltb track 512 && ltb sector 32

-- The error of SELTRACK and SELSECT
abbrev pub address_error : ℕ → ℕ → ℕ
address_error track sector =
    if valid_address track sector
    then 0
    else if ltb sector 32
    then illegal_track
    else illegal_sector

-- `( trackSel << 5 ) | sectSel`: the fields do not overlap where it is used.
abbrev pub logical_sector : ℕ → ℕ → ℕ
logical_sector track sector = track * 32 + sector

module _ {S : Storage} where
  open S use {mount_sd, open_sd, seek_sd, read_sd, write_sd}

  -- STORE OPCODE
  unfoldable pub store_opcode : ℕ → DiskState S → DiskState S
  store_opcode opcode d = record d { io_opcode = opcode; io_byte_cnt = 0 }

  -- SELDISK, with `maxDiskNum` 99
  unfoldable pub sel_disk : DiskState S → DiskState S
  sel_disk d =
      let (storage', e) = open_sd d.storage (disk_name d.disk_set d.io_data) in
      if leb d.io_data 99
      then record d { storage = storage'; disk_err = e }
      else record d { disk_err = illegal_disk }

  -- SELTRACK: the low byte, then the high byte
  unfoldable pub sel_track : DiskState S → DiskState S
  sel_track d =
      let track = d.io_data * 256 + d.track_sel % 256 in
      let cnt = u16 (d.io_byte_cnt + 1) in
      if d.io_byte_cnt == 0
      then record d { track_sel = d.io_data; io_byte_cnt = cnt }
      else record d {
        track_sel = track;
        disk_err = address_error track d.sect_sel;
        io_opcode = no_operation;
        io_byte_cnt = cnt;
      }

  -- SELSECT
  unfoldable pub sel_sect : DiskState S → DiskState S
  sel_sect d = record d { sect_sel = d.io_data; disk_err = address_error d.track_sel d.io_data }

  -- What WRITESECT and READSECT begin with: the seek before the first byte
  unfoldable pub first_seek : DiskState S → DiskState S
  first_seek d =
      let (storage', e) = seek_sd d.storage (logical_sector d.track_sel d.sect_sel) in
      if (d.io_byte_cnt == 0) && (valid_address d.track_sel d.sect_sel && (d.disk_err == 0))
      then record d { storage = storage'; disk_err = e }
      else d

  -- A read of the next 32 bytes, in READSECT
  unfoldable pub next_segment : DiskState S → DiskState S
  next_segment d =
      let (storage', e, buff, count) = read_sd d.storage d.buffer_sd in
      record d {
        storage = storage';
        buffer_sd = buff;
        disk_err = if ltb count 32 then unexpected_eof else e;
      }

  -- READSECT behind the seek, before the byte counter: the byte for the Z80
  unfoldable pub read_byte : DiskState S → DiskState S
  read_byte d =
      let at = d.io_byte_cnt % 32 in
      let filled = if at == 0 then next_segment d else d in
      if d.disk_err == 0
      then if filled.disk_err == 0
        then record filled { io_data = get_or filled.buffer_sd at 0 }
        else filled
      else d

  -- READSECT
  unfoldable pub read_sect : DiskState S → DiskState S
  read_sect d =
      let done = read_byte (first_seek d) in
      record done {
        io_opcode = if leb 511 d.io_byte_cnt then no_operation else done.io_opcode;
        io_byte_cnt = u16 (d.io_byte_cnt + 1);
      }

  -- The write of a full buffer in WRITESECT; the last one is followed by the end of the write.
  unfoldable pub flush_segment : DiskState S → DiskState S
  flush_segment d =
      let (storage', e, count) = write_sd d.storage (some d.buffer_sd) in
      let err = if ltb count 32 then unexpected_eof else e in
      let (ended, e', _) = write_sd storage' none in
      let written = record d { storage = storage'; disk_err = err } in
      if leb 511 d.io_byte_cnt
      then if err == 0
        then record written { storage = ended; disk_err = e'; io_opcode = no_operation }
        else record written { io_opcode = no_operation }
      else written

  -- WRITESECT behind the seek, before the byte counter
  unfoldable pub write_byte : DiskState S → DiskState S
  write_byte d =
      let at = d.io_byte_cnt % 32 in
      let stored = record d { buffer_sd = set d.buffer_sd at d.io_data } in
      if d.disk_err == 0 then if at == 31 then flush_segment stored else stored else d

  -- WRITESECT
  unfoldable pub write_sect : DiskState S → DiskState S
  write_sect d = record (write_byte (first_seek d)) { io_byte_cnt = u16 (d.io_byte_cnt + 1) }

  -- ERRDISK
  unfoldable pub err_disk : DiskState S → DiskState S
  err_disk d = record d { io_data = d.disk_err }

  -- SDMOUNT
  unfoldable pub sd_mount : DiskState S → DiskState S
  sd_mount d =
      let (storage', e) = mount_sd d.storage in record d { storage = storage'; io_data = e }
