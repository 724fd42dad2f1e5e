-- ===== src/Tests/Fixtures.antt =====
-- The data of the examples: a disk library that fails each transfer, a network that never answers,
-- a server with one file open, a client after its start.
use wi_fi_virt_disk.Base.{ℕ, true, false, List, [], ◌∷◌, replicate, pos}
use wi_fi_virt_disk.Packet.{Packet, code, Command}
use wi_fi_virt_disk.Server.Device.{LibDsk}
use wi_fi_virt_disk.Server.State.{Config, Server}
use wi_fi_virt_disk.Client.State.{TcpLink, Client, status_reset}

abbrev pub bad_disks : LibDsk
bad_disks = record {
  Disks = ℕ;
  Driver = ℕ;
  Geometry = ℕ;
  std_formats = [];
  dsk_open = λ disks name type. (disks, 0, 0);
  dsk_close = λ disks driver. (disks, driver, 0);
  dsk_getgeom = λ disks driver geom. geom;
  dsk_lread = λ disks driver geom bytes n. (disks, bytes, 5);
  dsk_lwrite = λ disks driver geom bytes n. (disks, 5);
}

abbrev pub config : Config
config = record {
  file_path = b'/' ∷ [];
  disk_emu_path = [] ∷ [];
  disk_emu_filename = (b'E' ∷ []) ∷ [];
  disk_emu_format = [] ∷ [];
}

-- A packet of the client for the disk of that name
abbrev pub packet_for : ℕ → Command → Packet
packet_for letter c = record {
  cmd = code c;
  status = 0;
  filename = letter ∷ replicate 12 0;
  file_offset = 0;
  track = 0;
  sector = 0;
  payload = replicate 512 9;
  data_len = 0;
}

abbrev pub image : List ℕ
image = 1 ∷ 2 ∷ 3 ∷ []

abbrev pub image_path : List ℕ
image_path = b'/' ∷ b'A' ∷ []

-- The server with the disk of that name selected; the file of `A` is open, and it is the only one.
abbrev pub serving : List ℕ → List ℕ → Server bad_disks
serving bytes name = record {
  files = (image_path, bytes) ∷ [];
  disks = 0;
  file_stream = record { is_open = true; path = image_path; at = 0; at_eof = false; bad = false };
  file_pos = pos 0;
  filename = name;
  drive = record { opened = false; dev = 0; geom = 0 };
  sector = [];
  disk_path = [];
  devopts = [];
  is_error = false;
}

abbrev pub server : List ℕ → Server bad_disks
server = serving image

abbrev pub dead_link : TcpLink
dead_link = record { Net = ℕ; write = λ n bytes. n; available = λ n. (n, 0); read = λ n k. (n, []) }

abbrev pub client : Client dead_link
client = record {
  vd_data = record {
    filename = replicate 13 0;
    file_pos = 0;
    buffer = replicate 512 0;
    data_len = 0;
  };
  packet = packet_for 0 Command.nothing;
  vd_status = status_reset;
  send_buf = replicate 32 0;
  regs = replicate 8 0;
  spi_status = status_reset;
  spi_data_buf = replicate 32 0;
  spi_data_rcvd = false;
  tcp_srv_status = 0;
  net = 0;
  fault = false;
}
