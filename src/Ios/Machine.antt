-- ===== src/Ios/Machine.antt =====
-- The globals, the pins and the ports that the main loop of the IOS works on
-- (S220718-R290823_IOS-Z80-MBC2.ino).
pub mod Gpio
pub mod Write
pub mod Read
pub mod Pass
pub mod Exchange
pub mod Data
pub mod Select
pub mod Interrupts
pub mod Outputs
use wi_fi_virt_disk.Base.{ℕ, Bool, true, if◌then◌else◌}
use wi_fi_virt_disk.Ios.Disk.{Storage, DiskState}
use wi_fi_virt_disk.Ios.Wire.{Ports}
use wi_fi_virt_disk.Ios.Rtc.{DateTime}

-- A flag is a `Bool`, and a pin is one that is true for HIGH. `disk` has `ioOpcode`, `ioByteCnt` and
-- `ioData` too.
pub record Machine (S : Storage) (P : Ports) : Type 0 where
  pub disk : DiskState S
  pub serial : P.Serial
  pub bus : P.Bus
  pub user : Bool
  pub bank0 : Bool
  pub bank1 : Bool
  pub int_pin : Bool
  pub module_gpio : Bool
  pub spp_mode : Bool
  pub spp_autofd : Bool
  pub z80_int_rx : Bool
  pub z80_int_sys_tick : Bool
  pub sys_tick_time : ℕ
  pub time_stamp : ℕ
  pub irq_status : ℕ
  pub last_rx_is_empty : Bool
  pub rx_done_flag : Bool
  pub cpm_warm_boot_flg : Bool
  pub autoexec_flag : Bool
  pub found_rtc : Bool
  pub clock : DateTime

-- A flag as a number
abbrev pub digit : Bool → ℕ
digit b = if b then 1 else 0

module _ {S : Storage} {P : Ports} where
  -- `ioData = x`
  abbrev pub with_data : ℕ → Machine S P → Machine S P
  with_data x m = record m { disk = record (m.disk) { io_data = x } }

  -- `ioOpcode = x`
  abbrev pub with_opcode : ℕ → Machine S P → Machine S P
  with_opcode x m = record m { disk = record (m.disk) { io_opcode = x } }

  -- One of the opcodes of the disk
  abbrev pub on_disk : (DiskState S → DiskState S) → Machine S P → Machine S P
  on_disk f m = record m { disk = f m.disk }
