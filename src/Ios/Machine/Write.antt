-- ===== src/Ios/Machine/Write.antt =====
-- The engine of the I/O writes of the Z80 in the main loop of S220718-R290823_IOS-Z80-MBC2.ino.
use wi_fi_virt_disk.Base.{ℕ, ◌/◌, ◌%◌, Bool, true, false, ◌||◌, not, if◌then◌else◌, ◌==◌, ltb}
use wi_fi_virt_disk.Ios.Disk.{
  Storage, store_opcode, sel_disk, sel_track, sel_sect, write_sect, no_operation,
}
use wi_fi_virt_disk.Ios.Wire.{
  Ports, iodira_reg, iodirb_reg, gppua_reg, gppub_reg, gpioa_reg, gpiob_reg,
}
use wi_fi_virt_disk.Ios.Machine.{Machine, with_data, with_opcode, on_disk}
use wi_fi_virt_disk.Ios.Machine.Gpio.{gpio_write, set_spp, wr_spp}

-- The labels of the switch
pub data WriteOpcode : Type 0 where
  user_led : WriteOpcode
  serial_tx : WriteOpcode
  gpioa_write : WriteOpcode
  gpiob_write : WriteOpcode
  iodira_write : WriteOpcode
  iodirb_write : WriteOpcode
  gppua_write : WriteOpcode
  gppub_write : WriteOpcode
  seldisk : WriteOpcode
  seltrack : WriteOpcode
  selsect : WriteOpcode
  writesect : WriteOpcode
  setbank : WriteOpcode
  setirq : WriteOpcode
  settick : WriteOpcode
  setopt : WriteOpcode
  setspp : WriteOpcode
  wrspp : WriteOpcode
  other_write : WriteOpcode

unfoldable pub write_opcode : ℕ → WriteOpcode
write_opcode code =
    if code == 0x00
    then user_led
    else if code == 0x01
    then serial_tx
    else if code == 0x03
    then gpioa_write
    else if code == 0x04
    then gpiob_write
    else if code == 0x05
    then iodira_write
    else if code == 0x06
    then iodirb_write
    else if code == 0x07
    then gppua_write
    else if code == 0x08
    then gppub_write
    else if code == 0x09
    then seldisk
    else if code == 0x0A
    then seltrack
    else if code == 0x0B
    then selsect
    else if code == 0x0C
    then writesect
    else if code == 0x0D
    then setbank
    else if code == 0x0E
    then setirq
    else if code == 0x0F
    then settick
    else if code == 0x10
    then setopt
    else if code == 0x11
    then setspp
    else if code == 0x12
    then wrspp
    else other_write

module _ {S : Storage} {P : Ports} where
  -- SETBANK: the pins of the banks, BANK0 and BANK1
  unfoldable pub set_bank : Machine S P → Machine S P
  set_bank m =
      let bank = m.disk.io_data in
      if bank == 0
      then record m { bank0 = true; bank1 = false }
      else if bank == 1
      then record m { bank0 = true; bank1 = true }
      else if bank == 2
      then record m { bank0 = false; bank1 = true }
      else m

  unfoldable pub execute_write : WriteOpcode → Machine S P → Machine S P
  execute_write user_led m = record m { user = not (m.disk.io_data % 2 == 1) }
  execute_write serial_tx m = record m { serial = P.write_char m.serial m.disk.io_data }
  execute_write gpioa_write m = gpio_write gpioa_reg m
  execute_write gpiob_write m = gpio_write gpiob_reg m
  execute_write iodira_write m = gpio_write iodira_reg m
  execute_write iodirb_write m = gpio_write iodirb_reg m
  execute_write gppua_write m = gpio_write gppua_reg m
  execute_write gppub_write m = gpio_write gppub_reg m
  execute_write seldisk m = on_disk sel_disk m
  execute_write seltrack m = on_disk sel_track m
  execute_write selsect m = on_disk sel_sect m
  execute_write writesect m = on_disk write_sect m
  execute_write setbank m = set_bank m
  execute_write setirq m = record m {
    z80_int_rx = m.disk.io_data % 2 == 1;
    z80_int_sys_tick = m.disk.io_data / 2 % 2 == 1;
  }
  execute_write settick m = record m {
    sys_tick_time = if ltb 0 m.disk.io_data then m.disk.io_data else m.sys_tick_time;
  }
  execute_write setopt m = record m { cpm_warm_boot_flg = m.disk.io_data % 2 == 1 }
  execute_write setspp m = set_spp m
  execute_write wrspp m = wr_spp m
  execute_write other_write m = m

  -- All done, but for the opcodes of more than one byte
  unfoldable pub end_write : Machine S P → Machine S P
  end_write m =
      let code = m.disk.io_opcode in
      if (code == 0x0A) || (code == 0x0C) then m else with_opcode no_operation m

  -- A write to the port that AD0 gives
  unfoldable pub io_write : Bool → ℕ → Machine S P → Machine S P
  io_write true byte m = on_disk (store_opcode byte) (with_data byte m)
  io_write false byte m =
      end_write (execute_write (write_opcode m.disk.io_opcode) (with_data byte m))
