-- ===== src/Ios/Menu.antt =====
-- The settings in the EEPROM and the boot menu (`setup` in S220718-R290823_IOS-Z80-MBC2.ino).
pub mod Saved
use wi_fi_virt_disk.Base.{
  ℕ, ◌+◌, ◌-◌, ◌*◌, ◌/◌, ◌%◌, Bool, true, false, ◌&&◌, ◌||◌, List, [], ◌∷◌, Option, none, some, not,
  if◌then◌else◌, ◌==◌, ltb, leb, u8, c_string,
}
use wi_fi_virt_disk.Ios.Wire.{Ports}
use wi_fi_virt_disk.Ios.Rtc.{DateTime}
use wi_fi_virt_disk.Ios.Rtc.Change.{change_rtc}
use wi_fi_virt_disk.Ios.Input.{Line, input}

-- The globals with the settings, the bytes of the EEPROM by their addresses, and what the menu works
-- on besides
pub record Settings (P : Ports) : Type 0 where
  pub eeprom : ℕ → ℕ
  pub clock_mode : ℕ
  pub disk_set : ℕ
  pub virt_disk_flag : ℕ
  pub autoexec_flag : ℕ
  pub auto_boot_addr : ℕ
  pub boot_mode : ℕ
  pub auto_boot_str : Line
  pub bus : P.Bus
  pub clock : DateTime

-- The addresses
abbrev pub boot_mode_addr : ℕ
boot_mode_addr = 10

abbrev pub autoexec_flag_addr : ℕ
autoexec_flag_addr = 12

abbrev pub clock_mode_addr : ℕ
clock_mode_addr = 13

abbrev pub disk_set_addr : ℕ
disk_set_addr = 14

abbrev pub ser_baud_addr : ℕ
ser_baud_addr = 15

abbrev pub a_boot_addr : ℕ
a_boot_addr = 16

abbrev pub virt_disk_addr : ℕ
virt_disk_addr = 18

abbrev pub max_boot_mode : ℕ
max_boot_mode = 4

abbrev pub max_disk_set : ℕ
max_disk_set = 6

abbrev pub max_baud_index : ℕ
max_baud_index = 10

-- `EEPROM.update`
abbrev pub update : (ℕ → ℕ) → ℕ → ℕ → ℕ → ℕ
update e address value a = if a == address then value else e a

-- The change of a byte that is not valid
abbrev pub mended : (ℕ → ℕ) → ℕ → Bool → ℕ → ℕ → ℕ
mended e address bad value a = if (a == address) && bad then value else e a

-- `!x`
abbrev pub toggled : ℕ → ℕ
toggled x = if x == 0 then 1 else 0

-- The choice of the next value with each key, up to CR or ESC: the value, that key and the keys left
unfoldable pub pick : ℕ → ℕ → List ℕ → Option (ℕ × ℕ × List ℕ)
pick max count [] = none
pick max count (key ∷ keys) =
    let next = u8 (count + 1) % max in
    let rest = pick max next keys in
    if (key == 13) || (key == 27) then some (next, key, keys) else rest

-- The cases of the menu
abbrev pub is_choice : ℕ → Bool
is_choice c = (leb b'0' c && leb c b'9') || ((c == b'A') || (c == b'a'))

module _ (P : Ports) where
  -- What `setup` makes of the EEPROM
  unfoldable pub read_settings : Settings P → Settings P
  read_settings s =
      let e1 = mended s.eeprom clock_mode_addr (ltb 1 (s.eeprom clock_mode_addr)) 1 in
      let e2 = mended e1 disk_set_addr (leb max_disk_set (e1 disk_set_addr)) 0 in
      let e3 = mended e2 virt_disk_addr (e2 virt_disk_addr == 0xFF) 0 in
      let e4 = mended e3 ser_baud_addr (leb max_baud_index (e3 ser_baud_addr)) 9 in
      let e5 = mended e4 autoexec_flag_addr (ltb 1 (e4 autoexec_flag_addr)) 0 in
      record s {
        eeprom = e5;
        clock_mode = e1 clock_mode_addr;
        disk_set = e2 disk_set_addr;
        virt_disk_flag = e3 virt_disk_addr;
        autoexec_flag = e5 autoexec_flag_addr;
        auto_boot_addr = e5 a_boot_addr + 256 * e5 (a_boot_addr + 1);
        boot_mode = e5 boot_mode_addr;
      }

  -- Choice 3: with CR a new disk set, and `inChar` is 3; with ESC none
  abbrev pub picked_disk_set :
      Settings P → Option (ℕ × ℕ × List ℕ) → Option (Settings P × ℕ × List ℕ)
  picked_disk_set s none = none
  picked_disk_set s (some (n, key, left)) =
      if key == 13
      then some (record s { disk_set = n; eeprom = update s.eeprom disk_set_addr n }, b'3', left)
      else some (s, key, left)

  unfoldable pub choose_disk_set : List ℕ → Settings P → Option (Settings P × ℕ × List ℕ)
  choose_disk_set keys s = picked_disk_set s (pick max_disk_set (u8 (s.disk_set + 255)) keys)

  -- Choice 8
  abbrev pub picked_baud : Settings P → Option (ℕ × ℕ × List ℕ) → Option (Settings P × ℕ × List ℕ)
  picked_baud s none = none
  picked_baud s (some (n, key, left)) =
      if (key == 13) && not (n == s.eeprom ser_baud_addr)
      then some (record s { eeprom = update s.eeprom ser_baud_addr n }, key, left)
      else some (s, key, left)

  unfoldable pub choose_baud : List ℕ → Settings P → Option (Settings P × ℕ × List ℕ)
  choose_baud keys s = picked_baud s (pick max_baud_index (u8 (s.eeprom ser_baud_addr + 255)) keys)

  -- A new address of choice 4
  unfoldable pub set_address : ℕ → Settings P → Settings P
  set_address addr s =
      let low = update s.eeprom a_boot_addr (addr % 256) in
      if leb addr 65535
      then record s { auto_boot_addr = addr; eeprom = update low (a_boot_addr + 1) (addr / 256) }
      else record s { auto_boot_addr = 0 }

  -- Choice 4, with `strtoul` of the C library: `inChar` stays 4, behind ESC too.
  abbrev pub typed_address :
      (List ℕ → ℕ) → Settings P → Option (Line × Bool × List ℕ) → Option (Settings P × ℕ × List ℕ)
  typed_address strtoul s none = none
  typed_address strtoul s (some (line, ok, left)) =
      let now = record s { auto_boot_str = line } in
      some (if ok then set_address (strtoul (c_string line.buf)) now else now, b'4', left)

  unfoldable pub choose_address :
      (List ℕ → ℕ) → List ℕ → Settings P → Option (Settings P × ℕ × List ℕ)
  choose_address strtoul keys s = typed_address strtoul s (input 6 2 keys s.auto_boot_str)

  -- Choice 9: CR is the last key.
  abbrev pub changed_clock :
      Settings P → Option (P.Bus × DateTime × List ℕ) → Option (Settings P × ℕ × List ℕ)
  changed_clock s none = none
  changed_clock s (some (bus', t, left)) = some (record s { bus = bus'; clock = t }, 13, left)

  unfoldable pub choose_clock : List ℕ → Settings P → Option (Settings P × ℕ × List ℕ)
  choose_clock keys s = changed_clock s (change_rtc P keys s.bus)

  -- The switch on a choice of the menu: the settings, `inChar` and the keys left
  unfoldable pub choose : (List ℕ → ℕ) → ℕ → List ℕ → Settings P → Option (Settings P × ℕ × List ℕ)
  choose strtoul c keys s =
      let clock = toggled s.clock_mode in
      let autoexec = toggled s.autoexec_flag in
      let virt = toggled s.virt_disk_flag in
      if c == b'3'
      then choose_disk_set keys s
      else if c == b'4'
      then choose_address strtoul keys s
      else if c == b'6'
      then some
          (record s { clock_mode = clock; eeprom = update s.eeprom clock_mode_addr clock }, c, keys)
      else if c == b'7'
      then some (
        record s { autoexec_flag = autoexec; eeprom = update s.eeprom autoexec_flag_addr autoexec },
        c,
        keys,
      )
      else if c == b'8'
      then choose_baud keys s
      else if c == b'9'
      then choose_clock keys s
      else if (c == b'a') || (c == b'A')
      then some (
        record s { virt_disk_flag = virt; eeprom = update s.eeprom virt_disk_addr virt },
        c,
        keys,
      )
      else some (s, c, keys)

  -- The loop of the menu: a key below `least` or above `a` is not taken, and one that is no choice is
  -- refused.
  unfoldable pub menu_loop :
      (List ℕ → ℕ) → ℕ → List ℕ → Settings P → Option (Settings P × ℕ × List ℕ)
  menu_loop strtoul least [] s = none
  menu_loop strtoul least (c ∷ keys) s =
      let rest = menu_loop strtoul least keys s in
      if leb least c && (leb c b'a' && is_choice c) then choose strtoul c keys s else rest

  -- The boot mode of a choice
  unfoldable pub save_boot_mode : ℕ → Settings P → Settings P
  save_boot_mode c s =
      let mode = u8 (c + 256 - b'1') in
      if leb mode max_boot_mode
      then record s { boot_mode = mode; eeprom = update s.eeprom boot_mode_addr mode }
      else record s { boot_mode = s.eeprom boot_mode_addr }

  abbrev pub chosen : Option (Settings P × ℕ × List ℕ) → Option (Settings P)
  chosen none = none
  chosen (some (s, c, left)) = some (save_boot_mode c s)

  -- The menu, if the USER key was pressed or the boot mode is not valid
  unfoldable pub select_boot : (List ℕ → ℕ) → Bool → List ℕ → Settings P → Option (Settings P)
  select_boot strtoul boot_selection keys s =
      let least = if leb s.boot_mode max_boot_mode then b'0' else b'1' in
      if boot_selection || ltb max_boot_mode s.boot_mode
      then chosen (menu_loop strtoul least keys s)
      else some s
