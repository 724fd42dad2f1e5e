-- ===== src/Spi.antt =====
-- What the Z80 board's IOS and the client agree on about their SPI connection (virtDisk.h of
-- S220718-R290823_IOS-Z80-MBC2; virtDisk.hpp and SPICallbacks.h of WiFi-VirtDisk-Client).
pub mod Checksum
use wi_fi_virt_disk.Base.{ℕ, ◌+◌, ◌-◌, ◌%◌, ◌^◌, List, [], ◌∷◌, ◌++◌, u8, not8}

-- `vdStatus_t`: the four bytes of `rawStatus`, the first sent first
pub record SpiStatus : Type 0 where
  pub status : ℕ
  pub cmd_status : ℕ
  pub cmd_data : ℕ
  pub free : ℕ

-- SPISLAVE_READY, SPISLAVE_BUSY and SPISLAVE_CHKSUM_ERR
abbrev pub spi_ready : ℕ
spi_ready = 0

abbrev pub spi_busy : ℕ
spi_busy = 1

abbrev pub spi_chksum_err : ℕ
spi_chksum_err = 2

-- `vdChecksum` of the IOS, each byte added to the `uint8_t`
unfoldable pub add_bytes : ℕ → List ℕ → ℕ
add_bytes checksum [] = checksum
add_bytes checksum (b ∷ bytes) = add_bytes (u8 (checksum + b)) bytes

-- The byte that ends each frame of the IOS: `~vdChecksum`, the sum having begun at 0xFF
unfoldable pub seal_byte : List ℕ → ℕ
seal_byte bytes = not8 (add_bytes 0xFF bytes)
