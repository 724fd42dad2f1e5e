-- ===== src/Ios/Inject.antt =====
-- The load of a program into the RAM through the Z80, by instructions that the IOS puts on its data
-- bus while it gives the clock pulses (`loadHL` and `loadByteToRAM` in
-- S220718-R290823_IOS-Z80-MBC2.ino, and their calls in `setup`).
pub mod Cpu
pub mod Stored
use wi_fi_virt_disk.Base.{
  ℕ, ◌+◌, ◌/◌, ◌%◌, Bool, true, false, List, [], ◌∷◌, ◌++◌, if◌then◌else◌, ltb,
}

-- LD_HL, INC_HL, LD_HLnn and JP_nn
abbrev pub ld_hl : ℕ
ld_hl = 0x36

abbrev pub inc_hl : ℕ
inc_hl = 0x23

abbrev pub ld_hl_nn : ℕ
ld_hl_nn = 0x21

abbrev pub jp_nn : ℕ
jp_nn = 0xC3

-- What the functions do with the pins: clock pulses, the level of RAM_CE2, and the data bus, which is
-- an output with a byte, or an input
pub data LoadStep : Type 0 where
  pulse_clock : ℕ → LoadStep
  ram_ce2 : Bool → LoadStep
  drive : ℕ → LoadStep
  release : LoadStep

unfoldable pub load_byte_to_ram : ℕ → List LoadStep
load_byte_to_ram value =
    pulse_clock 1
    ∷ ram_ce2 false
    ∷ drive ld_hl
    ∷ pulse_clock 2
    ∷ release
    ∷ pulse_clock 2
    ∷ drive value
    ∷ pulse_clock 2
    ∷ release
    ∷ ram_ce2 true
    ∷ pulse_clock 3
    ∷ pulse_clock 1
    ∷ ram_ce2 false
    ∷ drive inc_hl
    ∷ pulse_clock 2
    ∷ release
    ∷ ram_ce2 true
    ∷ pulse_clock 3
    ∷ []

unfoldable pub load_hl : ℕ → List LoadStep
load_hl value =
    pulse_clock 1
    ∷ ram_ce2 false
    ∷ drive ld_hl_nn
    ∷ pulse_clock 2
    ∷ release
    ∷ pulse_clock 2
    ∷ drive (value % 256)
    ∷ pulse_clock 3
    ∷ drive (value / 256)
    ∷ pulse_clock 2
    ∷ release
    ∷ ram_ce2 true
    ∷ []

-- The bytes of a boot program, one by one
unfoldable pub load_bytes : List ℕ → List LoadStep
load_bytes [] = []
load_bytes (b ∷ bs) = load_byte_to_ram b ++ load_bytes bs

-- "JP <BootStrAddr>" at 0
unfoldable pub inject_jump : ℕ → List LoadStep
inject_jump start =
    if ltb 0 start then load_hl 0 ++ load_bytes (jp_nn ∷ start % 256 ∷ start / 256 ∷ []) else []

-- What `setup` does with the bus for a boot program and its address
unfoldable pub load_program : ℕ → List ℕ → List LoadStep
load_program start image = inject_jump start ++ (load_hl start ++ load_bytes image)
