-- ===== src/Tests/Bytes.antt =====
-- The bytes of the examples are bytes.
use wi_fi_virt_disk.Base.{ℕ, zero, suc, ◌<◌, arith, replicate}
use wi_fi_virt_disk.Hspi.Words.{Bytes}

pub replicate-Bytes : (n b : ℕ) → b < 256 → Bytes (replicate n b)
replicate-Bytes zero b h i = omega arith
replicate-Bytes (suc n) b h zero = h
replicate-Bytes (suc n) b h (suc i) = replicate-Bytes n b h i
