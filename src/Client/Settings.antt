-- ===== src/Client/Settings.antt =====
-- The settings that the client keeps in its EEPROM (`setup` in WiFi-VirtDisk-Client.ino).
use wi_fi_virt_disk.Base.{
  ℕ, zero, suc, ◌≤◌, ◌<◌, ◌≡◌, refl, ap, Bool, false, List, [], ◌∷◌, ◌++◌, if◌then◌else◌, ◌==◌, ℤ,
  pos, negsuc, arith, length, c_string,
}
use wi_fi_virt_disk.Decimal.{atoi}

-- `strncpy`: at most `n` bytes of a string, filled up with zeros
unfoldable pub strncpy : List ℕ → ℕ → List ℕ
strncpy value zero = []
strncpy [] (suc n) = 0 ∷ strncpy [] n
strncpy (zero ∷ value) (suc n) = 0 ∷ strncpy [] n
strncpy (suc c ∷ value) (suc n) = suc c ∷ strncpy value n

-- `vdConfig_t`
pub record VdConfig : Type 0 where
  pub version : ℕ
  pub vd_server : List ℕ
  pub vd_port : List ℕ

-- VD_DEFAULT_PORT
abbrev pub vd_default_port : List ℕ
vd_default_port = b'1' ∷ b'2' ∷ b'3' ∷ b'4' ∷ b'5' ∷ []

abbrev is_zero : ℤ → Bool
is_zero (pos n) = n == 0
is_zero (negsuc n) = false

-- "Check, if we should save the VirtDisk parameters": what goes into the EEPROM
unfoldable pub save_parameters : List ℕ → List ℕ → VdConfig → VdConfig
save_parameters server port c = record {
  version = 1;
  vd_server = strncpy server 64;
  vd_port = strncpy (if is_zero (atoi port) then vd_default_port else port) 5;
}

-- No byte of a string is zero.
abbrev pub IsText : List ℕ → Type 0
IsText [] = Unit {0}
IsText (zero ∷ cs) = ⊥
IsText (suc c ∷ cs) = IsText cs

length-strncpy : (value : List ℕ) (n : ℕ) → length (strncpy value n) ≡ n
unfolding strncpy
length-strncpy value zero = refl
length-strncpy [] (suc n) = ap suc (length-strncpy [] n)
length-strncpy (zero ∷ value) (suc n) = ap suc (length-strncpy [] n)
length-strncpy (suc c ∷ value) (suc n) = ap suc (length-strncpy value n)

-- A shorter string is terminated in the array, and a string that fills it is not: what is read
-- then goes on behind the array.
strncpy-c_string :
    (value : List ℕ) (n : ℕ) (behind : List ℕ)
    → IsText value
    → (length value < n → c_string (strncpy value n ++ behind) ≡ value)
      × (length value ≡ n → c_string (strncpy value n ++ behind) ≡ value ++ c_string behind)
unfolding strncpy
strncpy-c_string [] zero behind t = ((λ h. absurd (omega arith)), (λ e. refl))
strncpy-c_string [] (suc n) behind t = ((λ h. refl), (λ e. absurd (omega arith)))
strncpy-c_string (suc c ∷ value) zero behind t =
    ((λ h. absurd (omega arith)), (λ e. absurd (omega arith)))
strncpy-c_string (zero ∷ value) n behind t = absurd t
strncpy-c_string (suc c ∷ value) (suc n) behind t =
    let (short, whole) = strncpy-c_string value n behind t in
    (
      (λ h. ap (λ r. suc c ∷ r) (short (omega arith))),
      (λ e. ap (λ r. suc c ∷ r) (whole (omega arith))),
    )

-- What the client reads as its port, with `behind` in the memory after the array of five bytes: the
-- port that was given, if it has at most four bytes; with five bytes, as the default port has, what
-- stands behind is read as more of it. The port given is a number other than zero.
pub saved_port :
    (server port behind : List ℕ) (c : VdConfig)
    → IsText port
    → is_zero (atoi port) ≡ false
    → let saved = (save_parameters server port c).vd_port in
      (length saved ≡ 5)
      × (length port ≤ 4 → c_string (saved ++ behind) ≡ port)
      × (length port ≡ 5 → c_string (saved ++ behind) ≡ port ++ c_string behind)
unfolding save_parameters
saved_port server port behind c t number =
    let (short, whole) = strncpy-c_string port 5 behind t in
    rw number (length-strncpy port 5, (λ h. short (omega arith)), whole)
