-- ===== src/Ios/Machine/Pass.antt =====
-- A pass of the main loop of S220718-R290823_IOS-Z80-MBC2.ino, and the interrupts of the Z80.
use wi_fi_virt_disk.Base.{
  ℕ, ◌+◌, ◌-◌, ◌*◌, ◌^◌, Bool, true, false, ◌&&◌, List, [], ◌∷◌, if◌then◌else◌, ltb, u32, set_flag,
}
use wi_fi_virt_disk.Ios.Disk.{Storage}
use wi_fi_virt_disk.Ios.Wire.{Ports}
use wi_fi_virt_disk.Ios.Machine.{Machine}
use wi_fi_virt_disk.Ios.Machine.Write.{io_write}
use wi_fi_virt_disk.Ios.Machine.Read.{io_read}

-- What a pass reads at the pins, true for HIGH, and the two values of `micros`
pub record Signals : Type 0 where
  pub wait : Bool
  pub wr : Bool
  pub rd : Bool
  pub ad0 : Bool
  pub bus_data : ℕ
  pub key : Bool
  pub now : ℕ
  pub later : ℕ

-- What a pass does with the pins of the control bus and the data bus
pub data BusStep : Type 0 where
  busreq : Bool → BusStep
  wait_res : Bool → BusStep
  drive_data : ℕ → BusStep
  release_data : BusStep
  delay_us : ℕ → BusStep

-- How the Z80 leaves the wait state of a write or of an interrupt
abbrev pub leave_wait : List BusStep
leave_wait = busreq false ∷ wait_res false ∷ wait_res true ∷ busreq true ∷ []

-- How it leaves that of a read, with the byte on the bus
abbrev pub leave_read : ℕ → List BusStep
leave_read byte =
    drive_data byte
    ∷ busreq false
    ∷ wait_res false
    ∷ delay_us 2
    ∷ release_data
    ∷ wait_res true
    ∷ busreq true
    ∷ []

module _ {S : Storage} {P : Ports} where
  -- The wait state of the Z80
  unfoldable pub serve_z80 : Signals → Machine S P → Machine S P × List BusStep
  serve_z80 i m =
      let reading = io_read i.ad0 i.key m in
      if i.wait
      then (m, [])
      else if i.wr
      then if i.rd
        then (record m { int_pin = true }, leave_wait)
        else (reading, leave_read reading.disk.io_data)
      else (io_write i.ad0 i.bus_data m, leave_wait)

  -- The Systick interrupt
  unfoldable pub sys_tick : Signals → Machine S P → Machine S P
  sys_tick i m =
      let elapsed = u32 (i.now + 2 ^ 32 - m.time_stamp) in
      if m.z80_int_sys_tick && ltb (m.sys_tick_time * 1000) elapsed
      then record m { int_pin = false; irq_status = set_flag m.irq_status 1; time_stamp = i.later }
      else m

  -- `loop`
  unfoldable pub loop : Signals → Machine S P → Machine S P × List BusStep
  loop i m = let (served, steps) = serve_z80 i m in (sys_tick i served, steps)

  -- `serialEvent`, which the Arduino core calls between two passes
  unfoldable pub serial_event : Machine S P → Machine S P
  serial_event m =
      if ltb 0 (P.available m.serial) && (m.z80_int_rx && m.rx_done_flag)
      then record m { int_pin = false; irq_status = set_flag m.irq_status 0; rx_done_flag = false }
      else m

  -- The passes over a list of signals, with the event before each
  unfoldable pub run : List Signals → Machine S P → Machine S P
  run [] m = m
  run (i ∷ is) m = run is (loop i (serial_event m)).0
