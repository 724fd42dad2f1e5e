-- ===== src/Hspi.antt =====
-- The SPI slave driver of the client (hspi_slave.c, SPISlave.cpp of WiFi-VirtDisk-Client), as far
-- as bytes go through it: eight 32-bit data registers each way, the low byte first. The
-- interrupt and pin registers that only configure the chip are left out.
pub mod Words
use wi_fi_virt_disk.Base.{
  ℕ, zero, suc, ◌+◌, ◌*◌, ◌/◌, ◌%◌, ◌^◌, Bool, List, [], ◌∷◌, if◌then◌else◌, ltb, ◌==◌, get_or,
}

-- the byte of `data` that goes to place `i`: zero from `len` on
abbrev pub out_byte : List ℕ → ℕ → ℕ → ℕ
out_byte bytes len i = if ltb i len then get_or bytes i 0 else 0

-- The loop of `hspi_slave_setData`, with the rounds left: `bi` is the place in the word `out`,
-- and the registers are listed from `SPI1W(8)` on. The fields of `out` do not overlap, so `|=`
-- is a sum.
set_data_loop : List ℕ → ℕ → ℕ → ℕ → ℕ → ℕ → List ℕ
set_data_loop bytes len zero i bi out = []
set_data_loop bytes len (suc rounds) i bi out =
    let out' = out + out_byte bytes len i * 2 ^ (bi * 8) in
    let flushed = out' ∷ set_data_loop bytes len rounds (i + 1) 0 0 in
    let going_on = set_data_loop bytes len rounds (i + 1) (bi + 1) out' in
    if (bi + 1) % 4 == 0 then flushed else going_on

-- `SPISlaveClass::setData`, which cuts the length at 32, and `hspi_slave_setData`
unfoldable pub set_data : List ℕ → ℕ → List ℕ
unfolding set_data_loop
set_data bytes len = set_data_loop bytes (if ltb 32 len then 32 else len) 32 0 0 0

-- The loop of `_hspi_slave_isr_handler` that takes the registers apart into bytes
unfoldable pub unpack : List ℕ → List ℕ
unpack [] = []
unpack (w ∷ ws) = w % 256 ∷ w / 2 ^ 8 % 256 ∷ w / 2 ^ 16 % 256 ∷ w / 2 ^ 24 % 256 ∷ unpack ws

-- The bytes of a frame, the rest of the 32-byte buffer filled up with zeros
pub padded : List ℕ → ℕ → ℕ → ℕ → List ℕ
padded bytes len i zero = []
padded bytes len i (suc n) = out_byte bytes len i ∷ padded bytes len (i + 1) n
