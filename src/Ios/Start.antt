-- ===== src/Ios/Start.antt =====
-- The choice of the boot program (`setup` in S220718-R290823_IOS-Z80-MBC2.ino).
use wi_fi_virt_disk.Base.{
  ℕ, ◌+◌, ◌-◌, ◌<◌, ◌≤◌, ◌≡◌, ◌⊎◌, inl, inr, Bool, true, false, List, [], ◌∷◌, if◌then◌else◌,
  if-cases, ◌==◌, leb, u8, arith,
}
use wi_fi_virt_disk.Ios.Wire.{Ports}
use wi_fi_virt_disk.Ios.Menu.{Settings, boot_mode_addr, save_boot_mode}

-- Where the program comes from: a file, the flash, or nowhere
pub data Source : Type 0 where
  sd_file : List ℕ → Source
  flash : Source
  nowhere : Source

-- What `setup` chooses by the boot mode: the source, `BootStrAddr`, `Z80IntRx` and `Z80IntSysTick`
pub record BootChoice : Type 0 where
  pub source : Source
  pub boot_str_addr : ℕ
  pub z80_int_rx : Bool
  pub z80_int_sys_tick : Bool

abbrev plain : Source → ℕ → BootChoice
plain source start = record {
  source = source;
  boot_str_addr = start;
  z80_int_rx = false;
  z80_int_sys_tick = false;
}

-- The names of the files
abbrev basic_fn : List ℕ
basic_fn = b'B' ∷ b'A' ∷ b'S' ∷ b'I' ∷ b'C' ∷ b'4' ∷ b'7' ∷ b'.' ∷ b'B' ∷ b'I' ∷ b'N' ∷ []

abbrev forth_fn : List ℕ
forth_fn = b'F' ∷ b'O' ∷ b'R' ∷ b'T' ∷ b'H' ∷ b'1' ∷ b'3' ∷ b'.' ∷ b'B' ∷ b'I' ∷ b'N' ∷ []

abbrev cpm_fn : List ℕ
cpm_fn = b'C' ∷ b'P' ∷ b'M' ∷ b'2' ∷ b'2' ∷ b'.' ∷ b'B' ∷ b'I' ∷ b'N' ∷ []

abbrev qpm_fn : List ℕ
qpm_fn = b'Q' ∷ b'P' ∷ b'M' ∷ b'L' ∷ b'D' ∷ b'R' ∷ b'.' ∷ b'B' ∷ b'I' ∷ b'N' ∷ []

abbrev cpm3_fn : List ℕ
cpm3_fn = b'C' ∷ b'P' ∷ b'M' ∷ b'L' ∷ b'D' ∷ b'R' ∷ b'.' ∷ b'C' ∷ b'O' ∷ b'M' ∷ []

abbrev ucsd_fn : List ℕ
ucsd_fn = b'U' ∷ b'C' ∷ b'S' ∷ b'D' ∷ b'L' ∷ b'D' ∷ b'R' ∷ b'.' ∷ b'B' ∷ b'I' ∷ b'N' ∷ []

abbrev cos_fn : List ℕ
cos_fn = b'C' ∷ b'O' ∷ b'S' ∷ b'.' ∷ b'B' ∷ b'I' ∷ b'N' ∷ []

abbrev fuzix_fn : List ℕ
fuzix_fn = b'F' ∷ b'U' ∷ b'Z' ∷ b'I' ∷ b'X' ∷ b'.' ∷ b'B' ∷ b'I' ∷ b'N' ∷ []

abbrev auto_fn : List ℕ
auto_fn = b'A' ∷ b'U' ∷ b'T' ∷ b'O' ∷ b'B' ∷ b'O' ∷ b'O' ∷ b'T' ∷ b'.' ∷ b'B' ∷ b'I' ∷ b'N' ∷ []

-- The OS of a disk set
unfoldable pub os_choice : ℕ → BootChoice
os_choice disk_set =
    if disk_set == 0
    then plain (sd_file cpm_fn) 0xD1E0
    else if disk_set == 1
    then plain (sd_file qpm_fn) 0x80
    else if disk_set == 2
    then plain (sd_file cpm3_fn) 0x100
    else if disk_set == 3
    then plain (sd_file ucsd_fn) 0
    else if disk_set == 4
    then plain (sd_file cos_fn) 0
    else if disk_set == 5
    then record {
      source = sd_file fuzix_fn;
      boot_str_addr = 0;
      z80_int_rx = true;
      z80_int_sys_tick = true;
    }
    else plain nowhere 0

-- The switch on the boot mode; behind it `BootStrAddr` and the flags are 0 where they are not set.
unfoldable pub boot_choice : ℕ → ℕ → ℕ → BootChoice
boot_choice boot_mode disk_set auto_boot_addr =
    if boot_mode == 0
    then record (plain (sd_file basic_fn) 0) { z80_int_rx = true }
    else if boot_mode == 1
    then plain (sd_file forth_fn) 0x100
    else if boot_mode == 2
    then os_choice disk_set
    else if boot_mode == 3
    then plain (sd_file auto_fn) auto_boot_addr
    else if boot_mode == 4
    then plain flash 0xFD10
    else plain nowhere 0

abbrev pub is_found : Source → Bool
is_found nowhere = false
is_found (sd_file name) = true
is_found flash = true

leb→le : (a b : ℕ) → leb a b ≡ true → a ≤ b
leb→le a b h = ground arith

leb-false : (a b : ℕ) → leb a b ≡ false → ¬ (a ≤ b)
leb-false a b h l = absurd (ground arith)

out_of_range : (c : ℕ) → c < 256 → (c < b'1') ⊎ (b'5' < c) → ¬ (u8 (c + 256 - b'1') ≤ 4)
out_of_range c byte (inl l) h = omega arith
out_of_range c byte (inr l) h = omega arith

os-found : (n : ℕ) → n < 6 → is_found (os_choice n).source ≡ true
unfolding os_choice
os-found n small = ground arith

found : (mode n a : ℕ) → mode ≤ 4 → n < 6 → is_found (boot_choice mode n a).source ≡ true
unfolding boot_choice
found mode n a small set = ground (arith, os-found n set)

lost : (mode n a : ℕ) → 4 < mode → is_found (boot_choice mode n a).source ≡ false
unfolding boot_choice
lost mode n a large = ground arith

-- The source of the program behind the menu
abbrev pub source_of : {P : Ports} → Settings P → Source
source_of s = (boot_choice s.boot_mode s.disk_set s.auto_boot_addr).source

-- A choice of the menu finds a program to boot if it is one of the programs 1 to 5, or if the boot
-- mode in the EEPROM is valid. A choice of a parameter finds none where that mode is not valid.
pub source_of-save_boot_mode :
    (P : Ports) (c : ℕ) (s : Settings P)
    → c < 256
    → s.disk_set < 6
    → let found_it = is_found (source_of (save_boot_mode P c s)) in
      (b'1' ≤ c → c ≤ b'5' → found_it ≡ true)
      × (s.eeprom boot_mode_addr ≤ 4 → found_it ≡ true)
      × (4 < s.eeprom boot_mode_addr → (c < b'1') ⊎ (b'5' < c) → found_it ≡ false)
unfolding save_boot_mode
source_of-save_boot_mode P c s byte set =
    let mode = u8 (c + 256 - b'1') in
    let e = s.eeprom boot_mode_addr in
    let Lost : Settings P → Type 0 = λ t. is_found (source_of t) ≡ false in
    let Found : Settings P → Type 0 = λ t. is_found (source_of t) ≡ true in
    (
      λ low high.
          if-cases Found (leb mode 4) _ _
            (λ t. found mode s.disk_set s.auto_boot_addr (leb→le mode 4 t) set)
            (λ f. absurd (leb-false mode 4 f (omega arith))),
      λ valid.
          if-cases Found (leb mode 4) _ _
            (λ t. found mode s.disk_set s.auto_boot_addr (leb→le mode 4 t) set)
            (λ f. found e s.disk_set s.auto_boot_addr valid set),
      λ bad other.
          if-cases Lost (leb mode 4) _ _ (λ t. absurd (out_of_range c byte other (leb→le mode 4 t)))
            (λ f. lost e s.disk_set s.auto_boot_addr bad),
    )
