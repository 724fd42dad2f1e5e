-- ===== src/Tests/Boards.antt =====
-- The theorems on whole transfers, at a board whose client has a sector in its buffer.
use wi_fi_virt_disk.Base.{ℕ, zero, suc, arith, replicate}
use wi_fi_virt_disk.Hspi.Words.{Bytes}
use wi_fi_virt_disk.Client.State.{VdData, status_reset}
use wi_fi_virt_disk.Ios.Link.{Master}
use wi_fi_virt_disk.Board.Wiring.{spi_link}
use wi_fi_virt_disk.Tests.Fixtures.{client, dead_link}

-- `vdData` with the second of 16 segments next
abbrev second : VdData
second = record {
  filename = replicate 13 0;
  file_pos = 32;
  buffer = replicate 512 7;
  data_len = 512;
}

abbrev board : Master (spi_link dead_link 3)
board = record { wire = record client { vd_data = second }; vd_status = status_reset }

replicate-Bytes : (n : ℕ) → Bytes (replicate n 7)
replicate-Bytes zero i = omega arith
replicate-Bytes (suc n) zero = omega arith
replicate-Bytes (suc n) (suc i) = replicate-Bytes n i
