-- ===== src/Client/Invariant/Reach.antt =====
-- The runs of the client: frames of the master, which come between the passes of the main loop, and
-- the passes (`SPIOnData` of SPICallbacks.cpp and `loop` of WiFi-VirtDisk-Client.ino).
use wi_fi_virt_disk.Base.{ℕ, List}
use wi_fi_virt_disk.Client.State.{TcpLink, spi_on_data}
use wi_fi_virt_disk.Client.Loop.{Poll, Board, loop}
use wi_fi_virt_disk.Client.Invariant.{IsFrame}

-- A step of the client
pub data Step {L : TcpLink} (b : Board L) : Board L → Type 0 where
  frame : (buf : List ℕ) → IsFrame buf → Step b (record b { client = spi_on_data b.client buf })
  pass : (p : Poll L) → Step b (loop p b)

pub data Reach {L : TcpLink} (b : Board L) : Board L → Type 0 where
  here : Reach b b
  next : {d e : Board L} → Reach b d → Step d e → Reach b e
