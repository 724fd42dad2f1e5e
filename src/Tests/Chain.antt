-- ===== src/Tests/Chain.antt =====
-- A client that has selected the disk `A` at a server.
use wi_fi_virt_disk.Base.{refl, [], ◌∷◌, arith, replicate, false}
use wi_fi_virt_disk.Packet.{Command, IsPacket}
use wi_fi_virt_disk.Client.State.{Client, status_reset}
use wi_fi_virt_disk.Server.State.{Server}
use wi_fi_virt_disk.Board.Wiring.{tcp_link}
use wi_fi_virt_disk.Board.Seek.{Selected}
use wi_fi_virt_disk.Tests.Fixtures.{bad_disks, config, packet_for}

-- A client that has `A` selected at that server
abbrev pub connected_to : Server bad_disks → Client (tcp_link bad_disks config)
connected_to s = record {
  vd_data = record {
    filename = b'A' ∷ replicate 12 0;
    file_pos = 0;
    buffer = replicate 512 0;
    data_len = 0;
  };
  packet = packet_for b'A' Command.nothing;
  vd_status = status_reset;
  send_buf = replicate 32 0;
  regs = replicate 8 0;
  spi_status = status_reset;
  spi_data_buf = replicate 32 0;
  spi_data_rcvd = false;
  tcp_srv_status = 0;
  net = (s, []);
  fault = false;
}

pub nothing-IsPacket : IsPacket (packet_for b'A' Command.nothing)
nothing-IsPacket = record {
  name_13 = refl;
  offset_32 = omega arith;
  track_16 = omega arith;
  payload_512 = refl;
  len_16 = omega arith;
}

pub connected_to-Selected : (s : Server bad_disks) → Selected config (b'A' ∷ []) s (connected_to s)
connected_to-Selected s = record {
  quiet = refl;
  packet_fits = nothing-IsPacket;
  name_13 = refl;
  ends = tt;
  named = refl;
}
