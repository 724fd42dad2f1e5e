-- ===== src/Ios/Machine/Gpio.antt =====
-- The opcodes on the port expander, with which the IOS drives a printer port too (SETSPP, WRSPP and
-- GETSPP in S220718-R290823_IOS-Z80-MBC2.ino).
use wi_fi_virt_disk.Base.{ℕ, ◌+◌, ◌*◌, ◌/◌, true, if◌then◌else◌, ◌==◌, set_flag}
use wi_fi_virt_disk.Ios.Disk.{Storage}
use wi_fi_virt_disk.Ios.Wire.{
  Ports, write_gpio, read_gpio, iodira_reg, iodirb_reg, gppua_reg, gpioa_reg, gpiob_reg,
}
use wi_fi_virt_disk.Ios.Machine.{Machine, digit, with_data}

-- A pulse of INIT or STROBE, active low, on GPIOA: all the lines of `low`, then that bit high again
abbrev pulse : (P : Ports) → ℕ → ℕ → P.Bus → P.Bus
pulse P low bit bus = write_gpio P gpioa_reg (set_flag low bit) (write_gpio P gpioa_reg low bus)

module _ {S : Storage} {P : Ports} where
  -- GPIOA, GPIOB, IODIRA, IODIRB, GPPUA and GPPUB Write
  unfoldable pub gpio_write : ℕ → Machine S P → Machine S P
  gpio_write reg m =
      if m.module_gpio then record m { bus = write_gpio P reg m.disk.io_data m.bus } else m

  -- GPIOA and GPIOB Read
  unfoldable pub gpio_read : ℕ → Machine S P → Machine S P
  gpio_read reg m =
      let (bus', value) = read_gpio P reg m.bus in
      if m.module_gpio then with_data value (record m { bus = bus' }) else m

  -- SETSPP
  unfoldable pub set_spp : Machine S P → Machine S P
  set_spp m =
      let autofd = m.disk.io_data == 0 in
      let lines = write_gpio P gpioa_reg (5 + digit autofd * 2) m.bus in
      let output_a = write_gpio P iodira_reg 248 lines in
      let output_b = write_gpio P iodirb_reg 0 output_a in
      let pulled = write_gpio P gppua_reg 255 output_b in
      if m.module_gpio
      then record m {
        spp_mode = true;
        spp_autofd = autofd;
        bus = pulse P (1 + digit autofd * 2) 2 pulled;
      }
      else m

  -- WRSPP
  unfoldable pub wr_spp : Machine S P → Machine S P
  wr_spp m =
      let sent = write_gpio P gpiob_reg m.disk.io_data m.bus in
      if m.spp_mode then record m { bus = pulse P (252 + digit m.spp_autofd * 2) 0 sent } else m

  -- GETSPP
  unfoldable pub get_spp : Machine S P → Machine S P
  get_spp m =
      let (bus', value) = read_gpio P gpioa_reg m.bus in
      if m.spp_mode then with_data (value / 8 * 8 + 1) (record m { bus = bus' }) else m
