-- ===== src/Ios/Wire.antt =====
-- The Arduino libraries that the IOS uses for its ports (S220718-R290823_IOS-Z80-MBC2.ino): `Serial`
-- and `Wire`, and its accesses to the registers of a device on the I2C bus.
use wi_fi_virt_disk.Base.{ℕ, List, [], ◌∷◌, get_or}

-- `transmit` is what stands between `beginTransmission` and `endTransmission`, with the result of the
-- latter; `request` gives the bytes of `requestFrom`. `read_char` is for a buffer that is not empty.
pub record Ports : Type 1 where
  pub Serial : Type 0
  pub available : Serial → ℕ
  pub available_for_write : Serial → ℕ
  pub read_char : Serial → Serial × ℕ
  pub write_char : Serial → ℕ → Serial
  pub Bus : Type 0
  pub transmit : Bus → ℕ → List ℕ → Bus × ℕ
  pub request : Bus → ℕ → ℕ → Bus × List ℕ

-- GPIOEXP_ADDR and the registers of the MCP23017
abbrev pub gpioexp_addr : ℕ
gpioexp_addr = 0x20

abbrev pub iodira_reg : ℕ
iodira_reg = 0x00

abbrev pub iodirb_reg : ℕ
iodirb_reg = 0x01

abbrev pub gppua_reg : ℕ
gppua_reg = 0x0C

abbrev pub gppub_reg : ℕ
gppub_reg = 0x0D

abbrev pub gpioa_reg : ℕ
gpioa_reg = 0x12

abbrev pub gpiob_reg : ℕ
gpiob_reg = 0x13

-- DS3231_RTC, DS3231_SECRG and DS3231_STATRG
abbrev pub ds3231_rtc : ℕ
ds3231_rtc = 0x68

abbrev pub ds3231_secrg : ℕ
ds3231_secrg = 0x00

abbrev pub ds3231_statrg : ℕ
ds3231_statrg = 0x0F

module _ (P : Ports) where
  open P use {Bus, transmit, request}

  -- A register of the MCP23017 and its value
  unfoldable pub write_gpio : ℕ → ℕ → Bus → Bus
  write_gpio reg value bus = (transmit bus gpioexp_addr (reg ∷ value ∷ [])).0

  -- `Wire.read` gives -1 behind the last byte, which a byte holds as 255.
  abbrev pub wire_read : List ℕ → ℕ → ℕ
  wire_read bytes i = get_or bytes i 255

  unfoldable pub read_gpio : ℕ → Bus → Bus × ℕ
  read_gpio reg bus =
      let (pointed, _) = transmit bus gpioexp_addr (reg ∷ []) in
      let (bus', bytes) = request pointed gpioexp_addr 1 in (bus', wire_read bytes 0)
