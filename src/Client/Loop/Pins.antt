-- ===== src/Client/Loop/Pins.antt =====
-- What the commands of the debug server do to the pins of the Z80 board (`loop` in
-- WiFi-VirtDisk-Client.ino).
use wi_fi_virt_disk.Base.{
  ℕ, ◌≡◌, Bool, true, false, not, ◌&&◌, List, [], ◌∷◌, if◌then◌else◌, ◌==◌, arith,
}
use wi_fi_virt_disk.Client.Loop.{PinStep, write_reset, write_user, delay, debug_steps}

-- The levels of Z80_RESET_PIN and Z80_USER_PIN
pub record Levels : Type 0 where
  pub reset : Bool
  pub user : Bool

-- The levels behind the steps
unfoldable pub drive : List PinStep → Levels → Levels
drive [] l = l
drive (write_reset b ∷ steps) l = drive steps (record l { reset = b })
drive (write_user b ∷ steps) l = drive steps (record l { user = b })
drive (delay ms ∷ steps) l = drive steps l

-- The level of the user pin at each time the reset pin goes back to LOW
unfoldable pub starts : List PinStep → Levels → List Bool
starts [] l = []
starts (write_reset b ∷ steps) l =
    let later = starts steps (record l { reset = b }) in
    if l.reset && not b then l.user ∷ later else later
starts (write_user b ∷ steps) l = starts steps (record l { user = b })
starts (delay ms ∷ steps) l = starts steps l

abbrev pub both_low : Levels
both_low = record { reset = false; user = false }

-- From both pins low, `R` starts the Z80 once with the user button up and `U` once with the user
-- button down; any other byte does not start it. Both pins are low again behind the command.
pub debug_steps-starts :
    (cmd : ℕ)
    → (drive (debug_steps cmd) both_low ≡ both_low)
      × (starts (debug_steps cmd) both_low
          ≡ (if cmd == b'R' then false ∷ [] else if cmd == b'U' then true ∷ [] else []))
unfolding drive starts debug_steps
debug_steps-starts cmd = ground arith
