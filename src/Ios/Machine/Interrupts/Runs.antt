-- ===== src/Ios/Machine/Interrupts/Runs.antt =====
-- The serial interrupt and the interrupt status over any run of the main loop of
-- S220718-R290823_IOS-Z80-MBC2.ino.
use wi_fi_virt_disk.Base.{
  ℕ, ◌+◌, ◌*◌, ◌%◌, ◌<◌, ◌≤◌, ◌≡◌, ◌⊎◌, inl, inr, refl, ap, ◌∙◌, sym, Bool, true, false, List, [],
  ◌∷◌, arith, if-cases, ◌||◌, ◌&&◌, ltb, leb, set_flag, u32, ◌^◌, ◌-◌, not,
}
use wi_fi_virt_disk.Ios.Disk.{Storage}
use wi_fi_virt_disk.Ios.Wire.{Ports}
use wi_fi_virt_disk.Ios.Machine.{Machine, digit}
use wi_fi_virt_disk.Ios.Machine.Pass.{Signals, serve_z80, sys_tick, loop, serial_event, run}
use wi_fi_virt_disk.Ios.Machine.Exchange.{tick_disk}
use wi_fi_virt_disk.Ios.Machine.Interrupts.{reads_port, reads_irq, Served, served}

tick_flag : (x : ℕ) → x < 4 → (set_flag x 1 < 4) × (set_flag x 1 % 2 ≡ x % 2) × (2 ≤ set_flag x 1)
tick_flag x small = (ground arith, ground arith, ground arith)

rx_flag : (x : ℕ) → x < 4 → (set_flag x 0 < 4) × (x ≤ set_flag x 0)
rx_flag x small = (ground arith, ground arith)

-- The reads of the serial port
unfoldable pub rx_reads : List Signals → ℕ
rx_reads [] = 0
rx_reads (i ∷ is) = digit (reads_port i true) + rx_reads is

module _ {S : Storage} {P : Ports} where
  -- The status has its two bits, and that of the serial port waits for a read of it.
  abbrev pub IsStatus : Machine S P → Type 0
  IsStatus m = (m.irq_status < 4) × (m.irq_status % 2 ≡ 1 → m.rx_done_flag ≡ false)

  sys_tick-IsStatus : (i : Signals) (m : Machine S P) → IsStatus m → IsStatus (sys_tick i m)
  unfolding sys_tick
  sys_tick-IsStatus i m (small, waits) =
      let (bound, same, _) = tick_flag m.irq_status small in
      if-cases {A = Machine S P} IsStatus
        (m.z80_int_sys_tick && ltb (m.sys_tick_time * 1000) (u32 (i.now + 2 ^ 32 - m.time_stamp))) _
        m (λ t. (bound, λ odd. waits (sym same ∙ odd))) (λ f. (small, waits))

  serial_event-IsStatus : (m : Machine S P) → IsStatus m → IsStatus (serial_event m)
  unfolding serial_event
  serial_event-IsStatus m (small, waits) =
      if-cases {A = Machine S P} IsStatus
        (ltb 0 (P.available m.serial) && (m.z80_int_rx && m.rx_done_flag)) _ m
        (λ t. ((rx_flag m.irq_status small).0, λ odd. refl)) (λ f. (small, waits))

  serve_z80-IsStatus : (i : Signals) (n m : Machine S P) → Served i n m → IsStatus m → IsStatus n
  serve_z80-IsStatus i n m (inl ((irq, done), _)) (small, waits) =
      (omega (arith, irq), λ odd. done ∙ waits (ap (λ k. k % 2) (sym irq) ∙ odd))
  serve_z80-IsStatus i n m (inr (inl (irq, done, _))) (small, waits) =
      (omega (arith, irq), λ odd. absurd (omega (arith, irq, odd)))
  serve_z80-IsStatus i n m (inr (inr (irq, done, _, _, _))) (small, waits) =
      (omega (arith, irq), λ odd. absurd (omega (arith, irq, odd)))

  run-kept : (is : List Signals) (m : Machine S P) → IsStatus m → IsStatus (run is m)
  unfolding run loop
  run-kept [] m v = v
  run-kept (i ∷ is) m v =
      let n = serial_event m in
      run-kept is (loop i n).0 (
        sys_tick-IsStatus i (serve_z80 i n).0
          (serve_z80-IsStatus i (serve_z80 i n).0 n (served i n) (serial_event-IsStatus m v)))

  event_waits : (m : Machine S P) → m.rx_done_flag ≡ false → serial_event m ≡ m
  unfolding serial_event
  event_waits m waits = ground arith

  -- Behind any passes of the main loop, with the serial event before each, only the bits 0 and 1 of
  -- the interrupt status are set, and while bit 0 is set, a serial event changes nothing: whatever
  -- is in the serial port, it drives no further interrupt. The status has been so at first.
  pub run-IsStatus :
      (is : List Signals) (m : Machine S P)
      → IsStatus m
      → ((run is m).irq_status < 4)
        × ((run is m).irq_status % 2 ≡ 1 → serial_event (run is m) ≡ run is m)
  run-IsStatus is m v =
      let (small, waits) = run-kept is m v in (small, λ odd. event_waits (run is m) (waits odd))

  -- The serial event pulls INT_ low when it was high.
  abbrev pub pulls_int : Machine S P → Bool
  pulls_int m = not (serial_event (record m { int_pin = true })).int_pin

  -- How often it does so in a run
  unfoldable pub rx_interrupts : List Signals → Machine S P → ℕ
  rx_interrupts [] m = 0
  rx_interrupts (i ∷ is) m = digit (pulls_int m) + rx_interrupts is (loop i (serial_event m)).0

  event_done :
      (m : Machine S P)
      → digit (pulls_int m) + digit (serial_event m).rx_done_flag ≡ digit m.rx_done_flag
  unfolding serial_event
  event_done m = ground arith

  tick_done : (i : Signals) (m : Machine S P) → (sys_tick i m).rx_done_flag ≡ m.rx_done_flag
  unfolding sys_tick
  tick_done i m = ground arith

  served_done :
      (i : Signals) (n m : Machine S P)
      → Served i n m
      → digit n.rx_done_flag ≤ digit m.rx_done_flag + digit (reads_port i true)
  served_done i n m (inl ((_, done), port)) = ground (arith, done, port)
  served_done i n m (inr (inl (_, done, port))) = ground (arith, done, port)
  served_done i n m (inr (inr (_, done, _, port, _))) = ground (arith, done, port)

  -- Over any run, the serial events that pull INT_ low are at most one more than the reads of the
  -- serial port by the Z80, and at most as many if one waits for its read at first: no second one
  -- comes before the Z80 has read.
  pub rx_interrupts_bounded :
      (is : List Signals) (m : Machine S P)
      → rx_interrupts is m ≤ rx_reads is + digit m.rx_done_flag
  unfolding rx_interrupts rx_reads loop
  rx_interrupts_bounded [] m = omega arith
  rx_interrupts_bounded (i ∷ is) m =
      let n = serial_event m in
      let k = (serve_z80 i n).0 in
      let rest = rx_interrupts_bounded is (sys_tick i k) in
      let same = ap digit (tick_done i k) in
      omega (arith, rest, same, event_done m, served_done i k n (served i n))

  event_tick : (m : Machine S P) → 2 ≤ m.irq_status → 2 ≤ (serial_event m).irq_status
  unfolding serial_event
  event_tick m big = ground arith

  tick_tick : (i : Signals) (m : Machine S P) → 2 ≤ m.irq_status → 2 ≤ (sys_tick i m).irq_status
  unfolding sys_tick
  tick_tick i m big = ground arith

  served_tick :
      (i : Signals) (n m : Machine S P)
      → Served i n m
      → 2 ≤ m.irq_status
      → (2 ≤ n.irq_status) ⊎ ((reads_irq i m ≡ true) × (n.disk.io_data ≡ m.irq_status))
  served_tick i n m (inl ((irq, _), _)) big = inl (omega (arith, irq, big))
  served_tick i n m (inr (inl (irq, _, _))) big = inl (omega (arith, irq, big))
  served_tick i n m (inr (inr (_, _, asked, _, byte))) big = inr (asked, byte)

  -- A pass of a run gives the Z80 the status with its bit 1.
  unfoldable pub tick_answered : List Signals → Machine S P → Bool
  tick_answered [] m = false
  tick_answered (i ∷ is) m =
      let n = serial_event m in
      let k = (loop i n).0 in (reads_irq i n && leb 2 k.disk.io_data) || tick_answered is k

  -- A Systick interrupt is not lost: over any run, its bit stays in the interrupt status, unless an
  -- IN instruction of the Z80 reads it with SYSIRQ.
  pub tick_kept :
      (is : List Signals) (m : Machine S P)
      → 2 ≤ m.irq_status
      → tick_answered is m ≡ false
      → 2 ≤ (run is m).irq_status
  unfolding run loop tick_answered
  tick_kept [] m big none_read = big
  tick_kept (i ∷ is) m big none_read =
      let n = serial_event m in
      let k = (serve_z80 i n).0 in
      let same : (loop i n).0.disk ≡ k.disk = tick_disk i k in
      let here : (reads_irq i n && leb 2 (loop i n).0.disk.io_data) ≡ false =
        ground (arith, none_read) in
      let later : tick_answered is (loop i n).0 ≡ false = ground (arith, none_read) in
      elim (served_tick i k n (served i n) (event_tick m big)) [
        | inl there ↦ tick_kept is (sys_tick i k) (tick_tick i k there) later
        | inr (asked, byte) ↦
            let given : (loop i n).0.disk.io_data ≡ n.irq_status =
              ap (λ d. d.io_data) same ∙ byte in
            absurd (ground (arith, here, asked, given, event_tick m big))
      ]
