-- ===== src/Ios/Inject/Cpu.antt =====
-- What the Z80 makes of the bytes on its bus when a program is loaded, by clock cycles as the comments
-- of `loadHL` and `loadByteToRAM` count them (S220718-R290823_IOS-Z80-MBC2.ino).
use wi_fi_virt_disk.Base.{
  ℕ, zero, suc, ◌+◌, ◌*◌, ◌≡◌, refl, Bool, true, false, not, ◌&&◌, Option, none, some, List, [],
  ◌∷◌, ◌++◌, if◌then◌else◌, ◌==◌, u16,
}
use wi_fi_virt_disk.Ios.Inject.{LoadStep, pulse_clock, ram_ce2, drive, release}

-- The machine cycles of LD HL,nn and LD (HL),n and INC HL: the fetch of the opcode, the rest of
-- the cycle M1 with the opcode, the reads of a byte, and the write of one
pub data Cycle : Type 0 where
  fetch : Cycle
  execute : ℕ → Cycle
  read_low : Cycle
  read_high : ℕ → Cycle
  read_value : Cycle
  write_value : ℕ → Cycle

-- The cycle and how many of its clocks are over; HL and the memory; the clock pulses so far; what the
-- IOS drives on the data bus, and the level of RAM_CE2; and whether all was well so far: the IOS
-- drove the bus in each clock that reads, and only there and with the RAM off the bus
pub record Z80 : Type 0 where
  pub cycle : Cycle
  pub over : ℕ
  pub hl : ℕ
  pub memory : ℕ → ℕ
  pub clock : ℕ
  pub bus : Option ℕ
  pub ram : Bool
  pub safe : Bool

abbrev pub drives : Z80 → Bool
drives z = elim z.bus [ none ↦ false | some b ↦ true ]

-- The byte that it reads, with the pull-ups if nobody drives the bus
abbrev pub bus_byte : Z80 → ℕ
bus_byte z = elim z.bus [ none ↦ 0xFF | some b ↦ b ]

-- The clocks of a cycle before its last one
abbrev pub before_last : Cycle → ℕ
before_last fetch = 2
before_last (execute op) = if op == 0x23 then 5 else 3
before_last read_low = 2
before_last (read_high low) = 2
before_last read_value = 2
before_last (write_value b) = 2

-- The last clock of a cycle: a read takes the byte that is on the bus there, and a write reaches
-- the RAM if it is on.
abbrev pub end_cycle : Cycle → Z80 → Z80
end_cycle fetch z = record z {
  cycle = execute (bus_byte z);
  over = 3;
  safe = z.safe && (drives z && not z.ram);
}
end_cycle (execute op) z =
    if op == 0x21
    then record z { cycle = read_low; over = 0 }
    else if op == 0x36
    then record z { cycle = read_value; over = 0 }
    else if op == 0x23
    then record z { cycle = fetch; over = 0; hl = u16 (z.hl + 1) }
    else record z { cycle = fetch; over = 0 }
end_cycle read_low z = record z {
  cycle = read_high (bus_byte z);
  over = 0;
  safe = z.safe && (drives z && not z.ram);
}
end_cycle (read_high low) z = record z {
  cycle = fetch;
  over = 0;
  hl = bus_byte z * 256 + low;
  safe = z.safe && (drives z && not z.ram);
}
end_cycle read_value z = record z {
  cycle = write_value (bus_byte z);
  over = 0;
  safe = z.safe && (drives z && not z.ram);
}
end_cycle (write_value b) z = record z {
  cycle = fetch;
  over = 0;
  memory = λ a. if z.ram && (a == z.hl) then b else z.memory a;
  safe = z.safe && not (drives z);
}

-- One clock pulse
abbrev pub t_cycle : Z80 → Z80
t_cycle z =
    if z.over == before_last z.cycle then end_cycle z.cycle z else record z { over = z.over + 1 }

unfoldable pub t_cycles : ℕ → Z80 → Z80
t_cycles zero z = z
t_cycles (suc n) z = t_cycles n (t_cycle z)

abbrev pub step : LoadStep → Z80 → Z80
step (pulse_clock n) z = t_cycles n (record z { clock = z.clock + n })
step (ram_ce2 on) z = record z { ram = on; safe = z.safe && not (on && drives z) }
step (drive b) z = record z { bus = some b; safe = z.safe && not z.ram }
step release z = record z { bus = none }

unfoldable pub steps : List LoadStep → Z80 → Z80
steps [] z = z
steps (s ∷ ss) z = steps ss (step s z)

pub steps-append : (xs ys : List LoadStep) (z : Z80) → steps (xs ++ ys) z ≡ steps ys (steps xs z)
unfolding steps
steps-append [] ys z = refl
steps-append (x ∷ xs) ys z = steps-append xs ys (step x z)
