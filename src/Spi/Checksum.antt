-- ===== src/Spi/Checksum.antt =====
-- The checksum byte of a frame makes the sum of all its bytes zero.
use wi_fi_virt_disk.Base.{
  ℕ, zero, suc, ◌+◌, ◌<◌, ◌≡◌, ◌≢◌, List, [], ◌∷◌, arith, u8, length, set, get_or,
}
use wi_fi_virt_disk.Spi.{add_bytes, seal_byte}

-- the sum of the bytes, as a number
unfoldable pub total : List ℕ → ℕ
total [] = 0
total (b ∷ bytes) = b + total bytes

pub add_bytes-total : (c : ℕ) (bytes : List ℕ) → c < 256 → add_bytes c bytes ≡ u8 (c + total bytes)
unfolding add_bytes total
add_bytes-total c [] h = omega arith
add_bytes-total c (b ∷ bytes) h = omega (arith, add_bytes-total (u8 (c + b)) bytes (omega arith))

-- The bytes of a frame and the byte that seals them add up to zero, the transmission's condition.
pub seal_byte_closes : (bytes : List ℕ) → u8 (total bytes + seal_byte bytes) ≡ 0
unfolding seal_byte
seal_byte_closes bytes = omega (arith, add_bytes-total 255 bytes (omega arith))

pub seal_byte-lt : (bytes : List ℕ) → seal_byte bytes < 256
unfolding seal_byte
seal_byte-lt bytes = omega arith

total-set :
    (bytes : List ℕ) (i v : ℕ)
    → i < length bytes
    → total (set bytes i v) + get_or bytes i 0 ≡ total bytes + v
unfolding total
total-set [] i v h = elim h [ ]
total-set (b ∷ bytes) zero v h = omega arith
total-set (b ∷ bytes) (suc i) v h = omega (arith, total-set bytes i v (omega arith))

-- A frame whose bytes add up to zero no longer does once one byte of it is another byte.
total-set_ne :
    (frame : List ℕ) (i v : ℕ)
    → i < length frame
    → v < 256
    → get_or frame i 0 < 256
    → v ≢ get_or frame i 0
    → u8 (total frame) ≡ 0
    → u8 (total (set frame i v)) ≢ 0
total-set_ne frame i v h hv hb ne s z = ne (omega (arith, total-set frame i v h))
