-- ===== src/Ios/Menu/Saved.antt =====
-- The settings that the menu leaves are those of the next start (`setup` in
-- S220718-R290823_IOS-Z80-MBC2.ino).
use wi_fi_virt_disk.Base.{ℕ, ◌<◌, ◌≤◌, ◌≡◌, ◌≢◌, List, Option, none, some}
use wi_fi_virt_disk.Ios.Wire.{Ports}
use wi_fi_virt_disk.Ios.Menu.{
  Settings, boot_mode_addr, autoexec_flag_addr, clock_mode_addr, disk_set_addr, ser_baud_addr,
  virt_disk_addr,
}

-- The value of a choice is in its range.
abbrev Picked : ℕ → Option (ℕ × ℕ × List ℕ) → Type 0
Picked max o = elim o as (λ _. Type 0) [ none ↦ Unit {0} | some r ↦ r.0 < max ]

module _ (P : Ports) where
  -- The globals have the valid values of the EEPROM.
  abbrev pub IsSaved : Settings P → Type 0
  IsSaved s =
      (s.clock_mode ≡ s.eeprom clock_mode_addr)
      × (s.clock_mode ≤ 1)
      × (s.disk_set ≡ s.eeprom disk_set_addr)
      × (s.disk_set < 6)
      × (s.virt_disk_flag ≡ s.eeprom virt_disk_addr)
      × (s.virt_disk_flag ≢ 0xFF)
      × (s.autoexec_flag ≡ s.eeprom autoexec_flag_addr)
      × (s.autoexec_flag ≤ 1)
      × (s.eeprom ser_baud_addr < 10)

  -- What holds of the settings that a choice gives
  abbrev Gives : Option (Settings P × ℕ × List ℕ) → Type 0
  Gives o = elim o as (λ _. Type 0) [ none ↦ Unit {0} | some r ↦ IsSaved r.0 ]

  -- What holds where the menu ends
  abbrev Ends : Option (Settings P) → Type 0
  Ends o = elim o as (λ _. Type 0) [
    | none ↦ Unit {0}
    | some t ↦ IsSaved t × (t.boot_mode ≡ t.eeprom boot_mode_addr)
  ]
