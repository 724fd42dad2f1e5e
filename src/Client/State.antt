-- ===== src/Client/State.antt =====
-- The globals of virtDisk.cpp, virtDisk.hpp and SPICallbacks.cpp (WiFi-VirtDisk-Client), the TCP
-- connection that they use, and the wait for an answer.
use wi_fi_virt_disk.Base.{
  ℕ, zero, suc, Bool, true, false, List, Option, none, some, if◌then◌else◌, ◌==◌,
}
use wi_fi_virt_disk.Packet.{Packet, packet_size, encode, decode}
use wi_fi_virt_disk.Spi.{SpiStatus, spi_busy, spi_chksum_err}

-- The `WiFiClient` of the ESP8266 library. `available` also lets the time of one poll pass.
pub record TcpLink : Type 1 where
  pub Net : Type 0
  pub write : Net → List ℕ → Net
  pub available : Net → Net × ℕ
  pub read : Net → ℕ → Net × List ℕ

-- `vdData_t` of the client
pub record VdData : Type 0 where
  pub filename : List ℕ
  pub file_pos : ℕ
  pub buffer : List ℕ
  pub data_len : ℕ

-- SPI_STATUS_RESET
abbrev pub status_reset : SpiStatus
status_reset = record { status = 0; cmd_status = 0; cmd_data = 0; free = 0 }

-- The statements of a rejected frame: `vdStatus` reset, then its status byte set
abbrev pub status_chksum_err : SpiStatus
status_chksum_err = record status_reset { status = spi_chksum_err }

module _ (L : TcpLink) where
  open L use {Net, write, available, read}

  -- `regs` are the data registers that the master reads and `spi_status` the status register.
  -- `fault` is set by an access outside of an array, from where on C promises nothing.
  pub record Client : Type 0 where
    pub vd_data : VdData
    pub packet : Packet
    pub vd_status : SpiStatus
    pub send_buf : List ℕ
    pub regs : List ℕ
    pub spi_status : SpiStatus
    pub spi_data_buf : List ℕ
    pub spi_data_rcvd : Bool
    pub tcp_srv_status : ℕ
    pub net : Net
    pub fault : Bool

  -- `waitForTcpData`, with the rounds of `loop < 500` left
  unfoldable pub wait_loop : ℕ → Net → Net × Bool
  wait_loop zero n = (n, false)
  wait_loop (suc rounds) n =
      let (n', count) = available n in
      let rest = wait_loop rounds n' in if count == packet_size then (n', true) else rest

  unfoldable pub wait_for_tcp_data : Net → Net × Bool
  wait_for_tcp_data = wait_loop 500

  -- What each command does with the server: `write`, `flush`, the wait, and `read` if an answer is
  -- there.
  unfoldable pub exchange : Net → Packet → Net × Option Packet
  exchange n p =
      let (waited, arrived) = wait_for_tcp_data (write n (encode p)) in
      let (done, raw) = read waited packet_size in
      if arrived then (done, some (decode raw)) else (waited, none)

-- `SPIOnData`: the interrupt when the master has sent a frame. The driver's buffer has 32 bytes.
unfoldable pub spi_on_data : {L : TcpLink} → Client L → List ℕ → Client L
spi_on_data c frame = record c {
  spi_status = record status_reset { status = spi_busy };
  spi_data_buf = frame;
  spi_data_rcvd = true;
}

-- `SPISlave.setStatus( vdStatus.rawStatus )`
abbrev pub show_status : {L : TcpLink} → Client L → SpiStatus → Client L
show_status c s = record c { vd_status = s; spi_status = s }
