-- ===== src/Ios/Machine/Read.antt =====
-- The engine of the I/O reads of the Z80 in the main loop of S220718-R290823_IOS-Z80-MBC2.ino.
use wi_fi_virt_disk.Base.{
  ℕ, ◌+◌, ◌*◌, ◌/◌, Bool, true, false, ◌||◌, List, [], ◌∷◌, if◌then◌else◌, ◌==◌, ltb, u8, get_or,
}
use wi_fi_virt_disk.Ios.Disk.{Storage, read_sect, err_disk, sd_mount, no_operation}
use wi_fi_virt_disk.Ios.Wire.{Ports, gpioa_reg, gpiob_reg}
use wi_fi_virt_disk.Ios.Rtc.{DateTime, read_rtc}
use wi_fi_virt_disk.Ios.Machine.{Machine, digit, with_data, with_opcode, on_disk}
use wi_fi_virt_disk.Ios.Machine.Gpio.{gpio_read, get_spp}

-- The labels of the switch
pub data ReadOpcode : Type 0 where
  user_key : ReadOpcode
  gpioa_read : ReadOpcode
  gpiob_read : ReadOpcode
  sysflags : ReadOpcode
  datetime : ReadOpcode
  errdisk : ReadOpcode
  readsect : ReadOpcode
  sdmount : ReadOpcode
  atxbuff : ReadOpcode
  sysirq : ReadOpcode
  getspp : ReadOpcode
  other_read : ReadOpcode

unfoldable pub read_opcode : ℕ → ReadOpcode
read_opcode code =
    if code == 0x80
    then user_key
    else if code == 0x81
    then gpioa_read
    else if code == 0x82
    then gpiob_read
    else if code == 0x83
    then sysflags
    else if code == 0x84
    then datetime
    else if code == 0x85
    then errdisk
    else if code == 0x86
    then readsect
    else if code == 0x87
    then sdmount
    else if code == 0x88
    then atxbuff
    else if code == 0x89
    then sysirq
    else if code == 0x8A
    then getspp
    else other_read

-- The bytes of DATETIME
abbrev pub clock_bytes : DateTime → List ℕ
clock_bytes t = t.seconds ∷ t.minutes ∷ t.hours ∷ t.day ∷ t.month ∷ t.year ∷ t.temp_c ∷ []

module _ {S : Storage} {P : Ports} where
  -- SERIAL RX
  unfoldable pub serial_rx : Machine S P → Machine S P
  serial_rx m =
      let (serial', char) = P.read_char m.serial in
      let done = record m {
        int_pin = true;
        irq_status = m.irq_status / 2 * 2;
        rx_done_flag = true;
      } in
      if ltb 0 (P.available m.serial)
      then with_data char (record done { serial = serial'; last_rx_is_empty = false })
      else with_data 0xFF (record done { last_rx_is_empty = true })

  -- SYSFLAGS: the flags do not overlap.
  unfoldable pub sys_flags : Machine S P → ℕ
  sys_flags m =
      digit m.autoexec_flag
      + digit m.found_rtc * 2
      + digit (ltb 0 (P.available m.serial)) * 4
      + digit m.last_rx_is_empty * 8
      + digit m.cpm_warm_boot_flg * 16

  -- DATETIME
  unfoldable pub date_time : Machine S P → Machine S P
  date_time m =
      let cnt = m.disk.io_byte_cnt in
      let (bus', t) = read_rtc P m.bus in
      let n = if cnt == 0 then record m { bus = bus'; clock = t } else m in
      let given = record (n.disk) {
        io_data = get_or (clock_bytes n.clock) cnt 0;
        io_byte_cnt = cnt + 1;
      } in
      if m.found_rtc
      then if ltb cnt 7 then record n { disk = given } else with_opcode no_operation n
      else with_opcode no_operation m

  -- The level of the USER key comes with its pull-up: LOW when it is pressed.
  unfoldable pub execute_read : Bool → ReadOpcode → Machine S P → Machine S P
  execute_read key user_key m = with_data (if key then 0 else 1) m
  execute_read key gpioa_read m = gpio_read gpioa_reg m
  execute_read key gpiob_read m = gpio_read gpiob_reg m
  execute_read key sysflags m = with_data (sys_flags m) m
  execute_read key datetime m = date_time m
  execute_read key errdisk m = on_disk err_disk m
  execute_read key readsect m = on_disk read_sect m
  execute_read key sdmount m = on_disk sd_mount m
  execute_read key atxbuff m = with_data (u8 (P.available_for_write m.serial)) m
  execute_read key sysirq m = with_data m.irq_status (record m { irq_status = 0 })
  execute_read key getspp m = get_spp m
  execute_read key other_read m = m

  -- All done, but for the opcodes of more than one byte
  unfoldable pub end_read : Machine S P → Machine S P
  end_read m =
      let code = m.disk.io_opcode in
      if (code == 0x84) || (code == 0x86) then m else with_opcode no_operation m

  -- A read of the port that AD0 gives; the byte is in `ioData`.
  unfoldable pub io_read : Bool → Bool → Machine S P → Machine S P
  io_read true key m = serial_rx (with_data 0 m)
  io_read false key m = end_read (execute_read key (read_opcode m.disk.io_opcode) (with_data 0 m))
