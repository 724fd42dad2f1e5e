-- ===== src/Tests/Machines.antt =====
-- The theorems on the IOS beside the disk, with a terminal and an I2C bus that keeps its registers.
use wi_fi_virt_disk.Base.{
  ◌%◌, none, ℕ, ◌+◌, ◌*◌, ◌<◌, ◌≤◌, ◌≡◌, ◌⊎◌, inr, refl, Bool, true, false, List, [], ◌∷◌, some,
  arith, length, replicate, get_or,
}
use wi_fi_virt_disk.Ios.Disk.{Storage, DiskState}
use wi_fi_virt_disk.Ios.Wire.{Ports}
use wi_fi_virt_disk.Ios.Rtc.{DateTime, read_rtc, write_rtc}
use wi_fi_virt_disk.Ios.Rtc.Change.{change_keys}
use wi_fi_virt_disk.Ios.Rtc.Change.Range.{IsDateTime, accepts, change_keys-IsDateTime}
use wi_fi_virt_disk.Ios.Rtc.AutoSet.{compile_time}
use wi_fi_virt_disk.Ios.Rtc.AutoSet.Strings.{time_string, date_string, compile_time-time_string}
use wi_fi_virt_disk.Ios.Rtc.ReadBack.{KeepsRegisters, read_rtc-write_rtc}
use wi_fi_virt_disk.Ios.Machine.{Machine, digit}
use wi_fi_virt_disk.Ios.Machine.Pass.{serial_event, Signals, run}
use wi_fi_virt_disk.Ios.Machine.Interrupts.Runs.{
  run-IsStatus, rx_reads, rx_interrupts, rx_interrupts_bounded, tick_answered, tick_kept,
}
use wi_fi_virt_disk.Ios.Inject.{load_program}
use wi_fi_virt_disk.Ios.Inject.Cpu.{steps, fetch}
use wi_fi_virt_disk.Ios.Inject.Stored.{idle, load_program-steps}
use wi_fi_virt_disk.Ios.Input.{Line, input}
use wi_fi_virt_disk.Ios.Input.Text.{IsString, ends_input, input-IsString}
use wi_fi_virt_disk.Ios.Menu.{Settings, update, read_settings, save_boot_mode}
use wi_fi_virt_disk.Ios.Start.{is_found, source_of, source_of-save_boot_mode}
use wi_fi_virt_disk.Tests.Disks.{nines, ready}

-- The characters that the terminal has sent, and the registers of the device on the bus
abbrev pub desk : Ports
desk = record {
  Serial = List ℕ;
  available = λ s. length s;
  available_for_write = λ s. 63;
  read_char = λ s. elim s [ [] ↦ ([], 255) | c ∷ cs ↦ (cs, c) ];
  write_char = λ s c. s;
  Bus = List ℕ;
  transmit = λ bus address bytes. elim bytes [
    | [] ↦ (bus, 0)
    | reg ∷ values ↦ elim values [ [] ↦ (bus, 0) | v ∷ vs ↦ (v ∷ vs, 0) ]
  ];
  request = λ bus address n. (bus, bus);
}

abbrev noon : DateTime
noon = record {
  seconds = 30;
  minutes = 59;
  hours = 12;
  day = 31;
  month = 12;
  year = 25;
  temp_c = 20;
}

abbrev pub machine : {S : Storage} → DiskState S → Machine S desk
machine d = record {
  disk = d;
  serial = b'A' ∷ b'B' ∷ [];
  bus = [];
  user = true;
  bank0 = true;
  bank1 = false;
  int_pin = true;
  module_gpio = false;
  spp_mode = false;
  spp_autofd = false;
  z80_int_rx = true;
  z80_int_sys_tick = true;
  sys_tick_time = 100;
  time_stamp = 0;
  irq_status = 0;
  last_rx_is_empty = false;
  rx_done_flag = true;
  cpm_warm_boot_flg = false;
  autoexec_flag = false;
  found_rtc = true;
  clock = noon;
}

-- A pass without an access of the Z80, and one that reads the serial port
abbrev pub at_rest : Signals
at_rest = record {
  wait = true;
  wr = true;
  rd = true;
  ad0 = true;
  bus_data = 0;
  key = true;
  now = 200000;
  later = 200001;
}

abbrev serial_read : Signals
serial_read = record (at_rest) { wait = false; rd = false }

abbrev passes : List Signals
passes = at_rest ∷ serial_read ∷ at_rest ∷ []

abbrev ticked : Machine nines desk
ticked = record (machine ready) { irq_status = 2 }

run-IsStatus_example :
    ((run passes ticked).irq_status < 4)
    × ((run passes ticked).irq_status % 2 ≡ 1
        → serial_event (run passes ticked) ≡ run passes ticked)
run-IsStatus_example = run-IsStatus passes ticked (omega arith, λ e. absurd (omega (arith, e)))

rx_interrupts_bounded_example : rx_interrupts passes ticked ≤ rx_reads passes + digit true
rx_interrupts_bounded_example = rx_interrupts_bounded passes ticked

tick_kept_example : 2 ≤ (run passes ticked).irq_status
unfolding tick_answered
tick_kept_example = tick_kept passes ticked (omega arith) refl

desk-KeepsRegisters : KeepsRegisters desk []
desk-KeepsRegisters [] i l s = absurd (omega arith)
desk-KeepsRegisters (v ∷ vs) i l s = refl

read_rtc-write_rtc_example :
    let got = (read_rtc desk (write_rtc desk noon [])).1 in
    (got.seconds ≡ 30)
    × (got.minutes ≡ 59)
    × (got.hours ≡ 12)
    × (got.day ≡ 31)
    × (got.month ≡ 12)
    × (got.year ≡ 25)
read_rtc-write_rtc_example =
    read_rtc-write_rtc desk noon []
      (
        omega arith,
        omega arith,
        omega arith,
        omega arith,
        omega arith,
        omega arith,
        omega arith,
        omega arith,
      )
      desk-KeepsRegisters

-- U and CR for the year, T and CR for the month, and CR for the others
abbrev keys : List ℕ
keys = b'U' ∷ 13 ∷ b't' ∷ 13 ∷ 13 ∷ 13 ∷ b'x' ∷ 13 ∷ 13 ∷ []

change_keys-IsDateTime_example :
    (t' : DateTime) × (left : List ℕ) × (change_keys keys 0 noon ≡ some (t', left)) × IsDateTime t'
unfolding accepts
change_keys-IsDateTime_example =
    change_keys-IsDateTime keys 0 noon
      (
        omega arith,
        omega arith,
        omega arith,
        omega arith,
        omega arith,
        omega arith,
        omega arith,
        omega arith,
      )
      (omega arith)

load_program-steps_example :
    let z = steps (load_program 256 (7 ∷ 8 ∷ [])) (idle 0 (λ a. 0) 0) in
    ((i : ℕ) → i < 2 → z.memory (256 + i) ≡ get_or (7 ∷ 8 ∷ []) i 0)
    × (0 < 256 → (z.memory 0 ≡ 0xC3) × (z.memory 1 + 256 * z.memory 2 ≡ 256))
    × (z.safe ≡ true)
    × (z.bus ≡ none)
    × (z.ram ≡ true)
    × (z.cycle ≡ fetch)
    × (z.over ≡ 0)
    × (z.clock ≡ 100)
load_program-steps_example =
    load_program-steps (7 ∷ 8 ∷ []) 256 0 0 (λ a. 0) (omega arith) (inr (omega arith))

abbrev line : Line
line = record { buf = replicate 7 0; ndx = 0 }

-- "0x8G", Backspace, CR
abbrev typed : List ℕ
typed = b'0' ∷ b'x' ∷ b'8' ∷ b'G' ∷ 8 ∷ 13 ∷ []

input-IsString_example :
    (l' : Line) × (ok : Bool) × (left : List ℕ) × (input 6 2 typed line ≡ some (l', ok, left))
    × IsString 6 2 l'.buf
unfolding ends_input
input-IsString_example = input-IsString 6 2 typed line (omega arith) refl refl refl

-- An EEPROM that was never written
abbrev erased : Settings desk
erased = record {
  eeprom = λ a. 255;
  clock_mode = 0;
  disk_set = 0;
  virt_disk_flag = 0;
  autoexec_flag = 0;
  auto_boot_addr = 0;
  boot_mode = 0;
  auto_boot_str = line;
  bus = [];
  clock = noon;
}

abbrev menu_left : Settings desk
menu_left = record (read_settings desk erased) {
  disk_set = 1;
  boot_mode = 2;
  eeprom = update (update (read_settings desk erased).eeprom 14 1) 10 2;
}

source_of-save_boot_mode_example :
    let found_it = is_found (source_of (save_boot_mode desk b'6' erased)) in
    (b'1' ≤ b'6' → b'6' ≤ b'5' → found_it ≡ true)
    × (255 ≤ 4 → found_it ≡ true)
    × (4 < 255 → (b'6' < b'1') ⊎ (b'5' < b'6') → found_it ≡ false)
source_of-save_boot_mode_example =
    source_of-save_boot_mode desk b'6' erased (omega arith) (omega arith)

-- Aug 29 2023, 07:05:59
compile_time-time_string_example :
    let c = compile_time (time_string 7 5 59) (date_string 8 29 23) noon in
    (c.hours ≡ 7)
    × (c.minutes ≡ 5)
    × (c.seconds ≡ 59)
    × (c.day ≡ 29)
    × (c.month ≡ 8)
    × (c.year ≡ 23)
compile_time-time_string_example =
    compile_time-time_string 7 5 59 29 8 23 noon (omega arith) (omega arith) (omega arith)
      (omega arith) (omega arith) (omega arith) (omega arith)
