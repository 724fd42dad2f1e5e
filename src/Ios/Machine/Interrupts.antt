-- ===== src/Ios/Machine/Interrupts.antt =====
-- The interrupts of the Z80 over any passes of the main loop of S220718-R290823_IOS-Z80-MBC2.ino.
pub mod Runs
use wi_fi_virt_disk.Base.{
  ℕ, zero, suc, ◌+◌, ◌*◌, ◌/◌, ◌%◌, ◌<◌, ◌≤◌, ◌^◌, ◌≡◌, ◌≢◌, refl, ap, ◌∙◌, sym, subst, Bool, true,
  false, List, [], ◌∷◌, arith, if◌then◌else◌, ◌==◌, ◌||◌, ◌&&◌, ltb, set_flag, not, ◌⊎◌, if-cases,
  Bool-cases, inl, inr, u32, ◌-◌,
}
use wi_fi_virt_disk.Ios.Disk.{Storage, DiskState, no_operation}
use wi_fi_virt_disk.Ios.Wire.{Ports}
use wi_fi_virt_disk.Ios.Machine.{Machine, with_opcode, with_data, digit}
use wi_fi_virt_disk.Ios.Machine.Gpio.{gpio_write, gpio_read, set_spp, wr_spp, get_spp}
use wi_fi_virt_disk.Ios.Machine.Write.{
  WriteOpcode, user_led, serial_tx, gpioa_write, gpiob_write, iodira_write, iodirb_write,
  gppua_write, gppub_write, seldisk, seltrack, selsect, writesect, setbank, setirq, settick, setopt,
  setspp, wrspp, other_write, write_opcode, set_bank, execute_write, end_write, io_write,
}
use wi_fi_virt_disk.Ios.Machine.Read.{
  ReadOpcode, user_key, gpioa_read, gpiob_read, sysflags, datetime, errdisk, readsect, sdmount,
  atxbuff, sysirq, getspp, other_read, read_opcode, serial_rx, date_time, execute_read, end_read,
  io_read,
}
use wi_fi_virt_disk.Ios.Machine.Pass.{
  BusStep, Signals, serve_z80, sys_tick, loop, serial_event, run,
}

abbrev pub is_sysirq : ReadOpcode → Bool
is_sysirq o = elim o [ sysirq ↦ true | _ ↦ false ]

-- A pass reads that port.
abbrev pub reads_port : Signals → Bool → Bool
reads_port i ad0 = not i.wait && (i.wr && (not i.rd && (if ad0 then i.ad0 else not i.ad0)))

module _ {S : Storage} {P : Ports} where
  -- What the opcodes other than SYSIRQ leave alone
  abbrev pub Kept : Machine S P → Machine S P → Type 0
  Kept n m = (n.irq_status ≡ m.irq_status) × (n.rx_done_flag ≡ m.rx_done_flag)

  gpio_write-Kept : (reg : ℕ) (m : Machine S P) → Kept (gpio_write reg m) m
  unfolding gpio_write
  gpio_write-Kept reg m = ground arith

  gpio_read-Kept : (reg : ℕ) (m : Machine S P) → Kept (gpio_read reg m) m
  unfolding gpio_read
  gpio_read-Kept reg m = ground arith

  set_spp-Kept : (m : Machine S P) → Kept (set_spp m) m
  unfolding set_spp
  set_spp-Kept m = ground arith

  wr_spp-Kept : (m : Machine S P) → Kept (wr_spp m) m
  unfolding wr_spp
  wr_spp-Kept m = ground arith

  get_spp-Kept : (m : Machine S P) → Kept (get_spp m) m
  unfolding get_spp
  get_spp-Kept m = ground arith

  set_bank-Kept : (m : Machine S P) → Kept (set_bank m) m
  unfolding set_bank
  set_bank-Kept m = ground arith

  date_time-Kept : (m : Machine S P) → Kept (date_time m) m
  unfolding date_time
  date_time-Kept m = ground arith

  end_write-Kept : (m : Machine S P) → Kept (end_write m) m
  unfolding end_write
  end_write-Kept m = ground arith

  end_read-Kept : (m : Machine S P) → Kept (end_read m) m
  unfolding end_read
  end_read-Kept m = ground arith

  execute_write-Kept : (o : WriteOpcode) (m : Machine S P) → Kept (execute_write o m) m
  unfolding execute_write
  execute_write-Kept user_led m = (refl, refl)
  execute_write-Kept serial_tx m = (refl, refl)
  execute_write-Kept gpioa_write m = gpio_write-Kept _ m
  execute_write-Kept gpiob_write m = gpio_write-Kept _ m
  execute_write-Kept iodira_write m = gpio_write-Kept _ m
  execute_write-Kept iodirb_write m = gpio_write-Kept _ m
  execute_write-Kept gppua_write m = gpio_write-Kept _ m
  execute_write-Kept gppub_write m = gpio_write-Kept _ m
  execute_write-Kept seldisk m = (refl, refl)
  execute_write-Kept seltrack m = (refl, refl)
  execute_write-Kept selsect m = (refl, refl)
  execute_write-Kept writesect m = (refl, refl)
  execute_write-Kept setbank m = set_bank-Kept m
  execute_write-Kept setirq m = (refl, refl)
  execute_write-Kept settick m = (refl, refl)
  execute_write-Kept setopt m = (refl, refl)
  execute_write-Kept setspp m = set_spp-Kept m
  execute_write-Kept wrspp m = wr_spp-Kept m
  execute_write-Kept other_write m = (refl, refl)

  io_write-Kept : (ad0 : Bool) (byte : ℕ) (m : Machine S P) → Kept (io_write ad0 byte m) m
  unfolding io_write
  io_write-Kept true byte m = (refl, refl)
  io_write-Kept false byte m =
      let n = execute_write (write_opcode m.disk.io_opcode) (with_data byte m) in
      let (irq, done) = end_write-Kept n in
      let (irq', done') = execute_write-Kept (write_opcode m.disk.io_opcode) (with_data byte m) in
      (irq ∙ irq', done ∙ done')

  -- SYSIRQ reads the status and clears it; the others leave it.
  abbrev Answered : ReadOpcode → Machine S P → Machine S P → Type 0
  Answered o n m =
      Kept n m
      ⊎ ((n.irq_status ≡ 0)
          × (n.rx_done_flag ≡ m.rx_done_flag)
          × (is_sysirq o ≡ true)
          × (n.disk.io_data ≡ m.irq_status))

  execute_read-Answered :
      (key : Bool) (o : ReadOpcode) (m : Machine S P) → Answered o (execute_read key o m) m
  unfolding execute_read
  execute_read-Answered key user_key m = inl (refl, refl)
  execute_read-Answered key gpioa_read m = inl (gpio_read-Kept _ m)
  execute_read-Answered key gpiob_read m = inl (gpio_read-Kept _ m)
  execute_read-Answered key sysflags m = inl (refl, refl)
  execute_read-Answered key datetime m = inl (date_time-Kept m)
  execute_read-Answered key errdisk m = inl (refl, refl)
  execute_read-Answered key readsect m = inl (refl, refl)
  execute_read-Answered key sdmount m = inl (refl, refl)
  execute_read-Answered key atxbuff m = inl (refl, refl)
  execute_read-Answered key sysirq m = inr (refl, refl, refl, refl)
  execute_read-Answered key getspp m = inl (get_spp-Kept m)
  execute_read-Answered key other_read m = inl (refl, refl)

  end_read_data : (m : Machine S P) → (end_read m).disk.io_data ≡ m.disk.io_data
  unfolding end_read
  end_read_data m = ground arith

  io_read-Answered :
      (key : Bool) (m : Machine S P)
      → Answered (read_opcode m.disk.io_opcode) (io_read false key m) m
  unfolding io_read
  io_read-Answered key m =
      let o = read_opcode m.disk.io_opcode in
      let n = execute_read key o (with_data 0 m) in
      let (irq, done) = end_read-Kept n in
      elim (execute_read-Answered key o (with_data 0 m)) [
        | inl k ↦ inl (irq ∙ k.0, done ∙ k.1)
        | inr (zeroed, same, code, byte) ↦
            inr (irq ∙ zeroed, done ∙ same, code, end_read_data n ∙ byte)
      ]

  serial_rx_irq :
      (m : Machine S P)
      → ((serial_rx m).irq_status ≡ m.irq_status / 2 * 2) × ((serial_rx m).rx_done_flag ≡ true)
  unfolding serial_rx
  serial_rx_irq m = ground arith

  -- It reads the interrupt status.
  abbrev pub reads_irq : Signals → Machine S P → Bool
  reads_irq i m = reads_port i false && is_sysirq (read_opcode m.disk.io_opcode)

  -- What the service of the Z80 does to the status
  abbrev pub Served : Signals → Machine S P → Machine S P → Type 0
  Served i n m =
      (Kept n m × (reads_port i true ≡ false))
      ⊎ (((n.irq_status ≡ m.irq_status / 2 * 2)
            × (n.rx_done_flag ≡ true)
            × (reads_port i true ≡ true))
          ⊎ ((n.irq_status ≡ 0)
              × (n.rx_done_flag ≡ m.rx_done_flag)
              × (reads_irq i m ≡ true)
              × (reads_port i true ≡ false)
              × (n.disk.io_data ≡ m.irq_status)))

  read_served :
      (i : Signals) (m : Machine S P)
      → i.wait ≡ false
      → i.wr ≡ true
      → i.rd ≡ false
      → Served i (io_read i.ad0 i.key m) m
  unfolding io_read
  read_served i m wait wr rd = elim (Bool-cases i.ad0) [
    | inl a ↦
        let port : reads_port i true ≡ true = ground arith in
        let (irq, done) = serial_rx_irq (with_data 0 m) in
        subst (λ b. Served i (io_read b i.key m) m) (sym a) (inr (inl (irq, done, port)))
    | inr a ↦
        let port : reads_port i true ≡ false = ground arith in
        subst (λ b. Served i (io_read b i.key m) m) (sym a)
          (elim (io_read-Answered i.key m) [
            | inl k ↦ inl (k, port)
            | inr (zeroed, same, code, byte) ↦
                let read : reads_irq i m ≡ true = ground arith in
                inr (inr (zeroed, same, read, port, byte))
          ])
  ]

  pub served : (i : Signals) (m : Machine S P) → Served i (serve_z80 i m).0 m
  unfolding serve_z80
  served i m =
      let reading = io_read i.ad0 i.key m in
      let Result = λ (x : Machine S P × List BusStep). Served i x.0 m in
      if-cases Result i.wait (m, []) _ (λ w. inl ((refl, refl), ground arith))
        (λ w.
          if-cases Result i.wr _ _
            (λ r.
              if-cases Result i.rd _ _ (λ d. inl ((refl, refl), ground arith))
                (λ d. read_served i m w r d))
            (λ r. inl (io_write-Kept i.ad0 i.bus_data m, ground arith)))
