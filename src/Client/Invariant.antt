-- ===== src/Client/Invariant.antt =====
-- The runs of the client: the frames of the master and the passes of the main loop (Reach), the flags
-- that they leave (Reported), and the accesses outside of the frame buffers (Fault). The code is
-- virtDisk.cpp, SPICallbacks.cpp and WiFi-VirtDisk-Client.ino of WiFi-VirtDisk-Client.
pub mod Reach
pub mod Reported
pub mod Fault
use wi_fi_virt_disk.Base.{ℕ, ◌≡◌, List, length}
use wi_fi_virt_disk.Hspi.Words.{Bytes}

-- The driver hands over 32 bytes.
pub record IsFrame (buf : List ℕ) : Type 0 where
  pub frame_32 : length buf ≡ 32
  pub frame_bytes : Bytes buf
