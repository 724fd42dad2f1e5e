-- ===== src/Ios/Link.antt =====
-- The SPI master: frames, the status registers and the wait for the client (`rdStatus_spi` and
-- `waitReady_spi` of virtDisk.cpp, S220718-R290823_IOS-Z80-MBC2).
use wi_fi_virt_disk.Base.{ℕ, zero, suc, ◌*◌, List, [], ◌∷◌, if◌then◌else◌, ◌==◌, ltb, get_or}
use wi_fi_virt_disk.Spi.{SpiStatus, spi_busy}

-- The hardware. `transfer` is a transmission from SELECT to DESELECT: bytes out, then `n` bytes in.
-- `delay_us` lets time pass.
pub record SpiLink : Type 1 where
  pub Wire : Type 0
  pub transfer : Wire → List ℕ → ℕ → Wire × List ℕ
  pub delay_us : Wire → ℕ → Wire

-- SPI_WR_DATA, SPI_RD_DATA and SPI_RD_STATUS
abbrev pub wr_data : ℕ
wr_data = 0x02

abbrev pub rd_data : ℕ
rd_data = 0x03

abbrev pub rd_status_cmd : ℕ
rd_status_cmd = 0x04

-- The codes of `FRESULT` that the functions return
abbrev pub fr_ok : ℕ
fr_ok = 0

abbrev pub fr_disk_err : ℕ
fr_disk_err = 1

abbrev pub fr_not_ready : ℕ
fr_not_ready = 2

abbrev pub fr_not_opened : ℕ
fr_not_opened = 4

-- MAX_ATTEMPTS
abbrev pub max_attempts : ℕ
max_attempts = 4

-- The wire and the global `vdStatus`
pub record Master (S : SpiLink) : Type 0 where
  pub wire : S.Wire
  pub vd_status : SpiStatus

module _ {S : SpiLink} where
  open S use {transfer, delay_us}

  -- A frame: the prefix, the bytes and what ends it
  unfoldable pub send : Master S → List ℕ → Master S
  send m frame =
      let (wire', _) = transfer m.wire (wr_data ∷ 0 ∷ frame) 0 in record m { wire = wire' }

  -- `rdStatus_spi`: it stores all four bytes, and the first is its result.
  unfoldable pub rd_status : Master S → Master S
  rd_status m =
      let (wire', bytes) = transfer m.wire (rd_status_cmd ∷ []) 4 in
      record {
        wire = wire';
        vd_status = record {
          status = get_or bytes 0 0;
          cmd_status = get_or bytes 1 0;
          cmd_data = get_or bytes 2 0;
          free = get_or bytes 3 0;
        };
      }

  -- The loop of `waitReady_spi( true, … )`, entered with the last result. `delay_time` doubles, so
  -- it ends after ten rounds.
  unfoldable pub wait_loop : ℕ → ℕ → ℕ → Master S → Master S × ℕ
  wait_loop zero delay_time result m = (m, 1)
  wait_loop (suc fuel) delay_time result m =
      let waited = record m { wire = delay_us m.wire (delay_time * 1000) } in
      let asked = rd_status waited in
      let again = wait_loop fuel (delay_time * 2) asked.vd_status.status asked in
      if result == spi_busy
      then if ltb 512 (delay_time * 2) then (waited, 1) else again
      else (m, result)

  unfoldable pub wait_ready : Master S → Master S × ℕ
  wait_ready m =
      let asked = rd_status (record m { wire = delay_us m.wire 500 }) in
      wait_loop 10 1 asked.vd_status.status asked

  -- A frame and its answer, as all functions begin their rounds
  unfoldable pub command : Master S → List ℕ → Master S × ℕ
  command m frame = wait_ready (send m frame)
