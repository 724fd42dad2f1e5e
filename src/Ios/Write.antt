-- ===== src/Ios/Write.antt =====
-- `vd_write` (virtDisk.cpp, S220718-R290823_IOS-Z80-MBC2): a segment of 32 bytes in two halves.
use wi_fi_virt_disk.Base.{
  ℕ, zero, suc, ◌+◌, ◌*◌, ◌&&◌, List, [], ◌∷◌, ◌++◌, Option, none, some, if◌then◌else◌, ◌==◌, ltb,
  take, drop,
}
use wi_fi_virt_disk.Packet.{code, Command}
use wi_fi_virt_disk.Spi.{seal_byte}
use wi_fi_virt_disk.Ios.Link.{SpiLink, Master, command, fr_ok, fr_disk_err, max_attempts}
use wi_fi_virt_disk.Ios.Read.{next_frame, next_loop}

-- VD_CMD_WR_FILE, the offset in units of 16 bytes, 16 bytes that follow, and the bytes
unfoldable pub write_frame : ℕ → List ℕ → List ℕ
write_frame offset bytes =
    code Command.wr_file
    ∷ offset
    ∷ 16
    ∷ (bytes ++ (seal_byte (code Command.wr_file ∷ offset ∷ 16 ∷ bytes) ∷ []))

-- The variables of `vd_write` and what it stores through `bw`
pub record Writing : Type 0 where
  pub status : ℕ
  pub offset : ℕ
  pub attempts : ℕ
  pub data_len : ℕ
  pub written : Option ℕ

module _ {S : SpiLink} where
  -- `do … while( offset < 2 )`
  unfoldable pub write_loop : ℕ → List ℕ → Writing → Master S → Master S × Writing
  write_loop zero buff w m = (m, w)
  write_loop (suc fuel) buff w m =
      let tried = record w { attempts = w.attempts + 1 } in
      let (m', spi_stat) = command m (write_frame w.offset (take 16 (drop (w.offset * 16) buff))) in
      let total = w.data_len + 16 in
      let stored = record tried {
        offset = w.offset + 1;
        data_len = total;
        written = if ltb 1 (w.offset + 1) then some total else w.written;
      } in
      let after_data = write_loop fuel buff stored m' in
      let after_error = write_loop fuel buff tried m' in
      if m'.vd_status.cmd_status == 0 && spi_stat == 0
      then if ltb stored.offset 2 then after_data else (m', stored)
      else if ltb (2 * max_attempts) tried.attempts
      then (m', record tried { status = fr_disk_err })
      else after_error

  unfoldable pub finish_write : Writing → Master S → Master S × Writing
  finish_write w m =
      let (m', accepted) = next_loop 5 0 (next_frame Command.wr_next w.data_len) m in
      if w.status == fr_ok
      then (m', if accepted then w else record w { status = fr_disk_err })
      else (m, w)

  -- `vd_write( buff, btw, bw )`; with `btw` zero no byte is sent, and the closing command is.
  unfoldable pub vd_write : List ℕ → ℕ → Master S → Master S × Writing
  vd_write buff btw m =
      let start : Writing = record {
        status = fr_ok;
        offset = 0;
        attempts = 0;
        data_len = 0;
        written = none;
      } in
      let (m', w) = write_loop 10 buff start m in
      if btw == 0 then finish_write (record start { written = some 0 }) m else finish_write w m'
