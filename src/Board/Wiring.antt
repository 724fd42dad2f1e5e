-- ===== src/Board/Wiring.antt =====
-- The parts put together: the SPI wire as the master sees it, with the client at its other end, and
-- the network as the client sees it, with the server behind it.
use wi_fi_virt_disk.Base.{
  ℕ, List, [], ◌∷◌, ◌++◌, if◌then◌else◌, ◌==◌, get_or, take, drop, replicate, length, pos, negsuc,
}
use wi_fi_virt_disk.Packet.{encode, decode}
use wi_fi_virt_disk.Hspi.{unpack}
use wi_fi_virt_disk.Spi.{SpiStatus}
use wi_fi_virt_disk.Client.State.{TcpLink, Client}
use wi_fi_virt_disk.Client.Process.{serve}
use wi_fi_virt_disk.Server.Device.{LibDsk}
use wi_fi_virt_disk.Server.State.{Config, Server, Outcome}
use wi_fi_virt_disk.Server.Process.{process_cmd}
use wi_fi_virt_disk.Ios.Link.{SpiLink, wr_data, rd_data}

-- A frame in the buffer of the slave. What the 32 bytes hold behind the frame is taken as zeros.
unfoldable pub spi_buffer : List ℕ → List ℕ
spi_buffer frame = take 32 (frame ++ replicate 32 0)

abbrev pub status_bytes : SpiStatus → List ℕ
status_bytes s = s.status ∷ s.cmd_status ∷ s.cmd_data ∷ s.free ∷ []

-- The slave's side of a transmission, by its first byte. The client has handled a frame before the
-- next transmission begins.
unfoldable pub slave : {L : TcpLink} → ℕ → Client L → List ℕ → ℕ → Client L × List ℕ
slave wifi_status c sent n =
    let prefix = get_or sent 0 0 in
    if prefix == wr_data
    then (serve c wifi_status (spi_buffer (drop 2 sent)), [])
    else (c, take n (if prefix == rd_data then unpack c.regs else status_bytes c.spi_status))

-- The wire of a board whose client sees the WiFi status given
abbrev pub spi_link : TcpLink → ℕ → SpiLink
spi_link L wifi_status = record {
  Wire = Client L;
  transfer = slave wifi_status;
  delay_us = λ c us. c;
}

-- What the server does with a packet, in `handleTcpClient`: the reply is sent if the result is 0.
abbrev pub reply_bytes : {D : LibDsk} → Outcome D → List ℕ
reply_bytes (s, p, pos n) = encode p
reply_bytes (s, p, negsuc n) = []

-- A network that brings each packet to the server and its reply back before the first poll
abbrev pub tcp_link : LibDsk → Config → TcpLink
tcp_link D g = record {
  Net = Server D × List ℕ;
  write = λ n raw.
      ((process_cmd g n.0 (decode raw)).0, n.1 ++ reply_bytes (process_cmd g n.0 (decode raw)));
  available = λ n. (n, length n.1);
  read = λ n k. ((n.0, drop k n.1), take k n.1);
}
