-- ===== src/Ios/Control.antt =====
-- `vd_status`, `vd_mount`, `vd_open` and `vd_lseek` (virtDisk.cpp, S220718-R290823_IOS-Z80-MBC2)
use wi_fi_virt_disk.Base.{
  ℕ, zero, suc, ◌+◌, ◌/◌, ◌%◌, ◌^◌, Bool, not, ◌&&◌, ◌||◌, List, [], ◌∷◌, ◌++◌, if◌then◌else◌, ◌==◌,
  leb,
}
use wi_fi_virt_disk.Packet.{code, Command}
use wi_fi_virt_disk.Spi.{seal_byte, spi_chksum_err}
use wi_fi_virt_disk.Ios.Link.{
  SpiLink, Master, command, fr_ok, fr_not_ready, fr_not_opened, max_attempts,
}

-- WL_CONNECTED
abbrev pub wl_connected : ℕ
wl_connected = 3

-- What `vd_status` returns and what it stores through its pointers
pub record WifiState : Type 0 where
  pub result : ℕ
  pub wifi : ℕ
  pub srv : ℕ

-- `( srv & SRV_CONNECTED ) != SRV_CONNECTED`, by the lowest bit
abbrev pub srv_down : ℕ → Bool
srv_down srv = srv % 2 == 0

-- VD_CMD_STATUS and the checksum
unfoldable pub status_frame : List ℕ
status_frame = code Command.status ∷ seal_byte (code Command.status ∷ []) ∷ []

-- VD_CMD_SEL_FILE, the name, a zero that is not counted, the checksum
unfoldable pub open_frame : List ℕ → List ℕ
open_frame path =
    code Command.sel_file ∷ (path ++ (0 ∷ seal_byte (code Command.sel_file ∷ path) ∷ []))

-- `( ofs >> 24 ) & 0xFF` and so on
abbrev pub offset_bytes : ℕ → List ℕ
offset_bytes ofs = ofs / 2 ^ 24 % 256 ∷ ofs / 2 ^ 16 % 256 ∷ ofs / 2 ^ 8 % 256 ∷ ofs % 256 ∷ []

unfoldable pub seek_frame : ℕ → List ℕ
seek_frame ofs =
    code Command.seek_file
    ∷ (offset_bytes ofs ++ (seal_byte (code Command.seek_file ∷ offset_bytes ofs) ∷ []))

module _ {S : SpiLink} where
  -- The loop of `vd_status`; `w` holds `status` and the variables behind the pointers.
  unfoldable pub status_loop : ℕ → ℕ → WifiState → Master S → Master S × WifiState
  status_loop zero attempts w m = (m, w)
  status_loop (suc fuel) attempts w m =
      let (m', spi_stat) = command m status_frame in
      let wifi = m'.vd_status.cmd_status in
      let srv = m'.vd_status.cmd_data in
      let refused = record w { result = fr_not_ready } in
      let again = status_loop fuel (attempts + 2) refused m' in
      if spi_stat == spi_chksum_err
      then if leb (attempts + 2) max_attempts then again else (m', refused)
      else if spi_stat == 0
      then (
        m',
        record {
          result = if not (wifi == wl_connected) && srv_down srv then fr_not_ready else w.result;
          wifi = wifi;
          srv = srv;
        },
      )
      else (m', record { result = fr_not_ready; wifi = 0xFF; srv = 0 })

  -- `vd_status`, given what the variables behind its pointers hold
  unfoldable pub vd_status : ℕ → ℕ → Master S → Master S × WifiState
  vd_status wifi srv m = status_loop 3 0 (record { result = fr_ok; wifi = wifi; srv = srv }) m

  -- `vd_mount`: the result alone; its two variables start undefined.
  unfoldable pub vd_mount : ℕ → ℕ → Master S → Master S × ℕ
  vd_mount wifi srv m = let (m', w) = vd_status wifi srv m in (m', w.result)

  -- The loop of `vd_open`. A round sends what is left of `path`, and leaves it at its end.
  unfoldable pub open_loop : ℕ → ℕ → List ℕ → Master S → Master S × ℕ
  open_loop zero attempts path m = (m, fr_not_opened)
  open_loop (suc fuel) attempts path m =
      let (m', spi_stat) = command m (open_frame path) in
      let again = open_loop fuel (attempts + 2) [] m' in
      if spi_stat == spi_chksum_err
      then if leb (attempts + 2) max_attempts then again else (m', fr_not_opened)
      else if not (m'.vd_status.cmd_status == 0) || not (spi_stat == 0)
      then (m', fr_not_opened)
      else (m', fr_ok)

  unfoldable pub vd_open : List ℕ → Master S → Master S × ℕ
  vd_open path m = open_loop 3 0 path m

  -- The loop of `vd_lseek`
  unfoldable pub seek_loop : ℕ → ℕ → ℕ → Master S → Master S × ℕ
  seek_loop zero attempts ofs m = (m, fr_not_opened)
  seek_loop (suc fuel) attempts ofs m =
      let (m', spi_stat) = command m (seek_frame ofs) in
      let again = seek_loop fuel (attempts + 2) ofs m' in
      if spi_stat == spi_chksum_err
      then if leb (attempts + 2) max_attempts then again else (m', fr_not_opened)
      else if not (m'.vd_status.cmd_status == 0) || not (spi_stat == 0)
      then (m', fr_not_opened)
      else (m', fr_ok)

  unfoldable pub vd_lseek : ℕ → Master S → Master S × ℕ
  vd_lseek ofs m = seek_loop 3 0 ofs m
