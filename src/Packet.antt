-- ===== src/Packet.antt =====
-- The packet that client and server exchange (virtDisk.hpp of WiFi-VirtDisk-Client and of
-- WiFi-VirtDisk-Server/src): `vdPacketInt_t` and its raw view in the union `vdPacket_t`.
pub mod VdStatus
pub mod Name
pub mod Wire
pub mod Sizes
use wi_fi_virt_disk.Base.{
  ℕ, ◌+◌, ◌*◌, ◌/◌, ◌%◌, ◌^◌, ◌<◌, ◌≡◌, List, [], ◌∷◌, ◌++◌, length, get_or, take, drop, c_string,
}

-- `enum vdCommands`, by its number
pub data Command : Type 0 where
  nothing status sel_file rd_file rd_next wr_file wr_next seek_file : Command
  sel_tr_sec rd_sector wr_sector : Command

abbrev pub code : Command → ℕ
code Command.nothing = 0
code Command.status = 1
code Command.sel_file = 2
code Command.rd_file = 3
code Command.rd_next = 4
code Command.wr_file = 5
code Command.wr_next = 6
code Command.seek_file = 7
code Command.sel_tr_sec = 8
code Command.rd_sector = 9
code Command.wr_sector = 10

-- `vdPacketInt_t`. Its arrays are lists of bytes; `status` is the byte of the `int8_t`.
pub record Packet : Type 0 where
  pub cmd : ℕ
  pub status : ℕ
  pub filename : List ℕ
  pub file_offset : ℕ
  pub track : ℕ
  pub sector : ℕ
  pub payload : List ℕ
  pub data_len : ℕ

-- `sizeof(vdPacketInt_t)` under `#pragma pack(1)`
abbrev pub packet_size : ℕ
packet_size = 536

-- Both machines store numbers with the low byte first.
abbrev pub le16 : ℕ → List ℕ
le16 x = x % 256 ∷ x / 256 % 256 ∷ []

abbrev pub le32 : ℕ → List ℕ
le32 x = x % 256 ∷ x / 2 ^ 8 % 256 ∷ x / 2 ^ 16 % 256 ∷ x / 2 ^ 24 % 256 ∷ []

abbrev pub from_le16 : List ℕ → ℕ
from_le16 b = get_or b 0 0 + get_or b 1 0 * 2 ^ 8

abbrev pub from_le32 : List ℕ → ℕ
from_le32 b = get_or b 0 0 + get_or b 1 0 * 2 ^ 8 + get_or b 2 0 * 2 ^ 16 + get_or b 3 0 * 2 ^ 24

-- `vdPacket_t`: the bytes `rawData` of a packet, and the packet that raw bytes show
unfoldable pub encode : Packet → List ℕ
encode p =
    p.cmd
    ∷ p.status
    ∷ (p.filename
        ++ (le32 p.file_offset ++ (le16 p.track ++ (p.sector ∷ (p.payload ++ le16 p.data_len)))))

unfoldable pub decode : List ℕ → Packet
decode raw = record {
  cmd = get_or raw 0 0;
  status = get_or raw 1 0;
  filename = take 13 (drop 2 raw);
  file_offset = from_le32 (take 4 (drop 13 (drop 2 raw)));
  track = from_le16 (take 2 (drop 4 (drop 13 (drop 2 raw))));
  sector = get_or (drop 2 (drop 4 (drop 13 (drop 2 raw)))) 0 0;
  payload = take 512 (drop 1 (drop 2 (drop 4 (drop 13 (drop 2 raw)))));
  data_len = from_le16 (drop 512 (drop 1 (drop 2 (drop 4 (drop 13 (drop 2 raw))))));
}

-- The string at the packet's `filename`. Nothing stops it at the end of the array.
unfoldable pub name_of : Packet → List ℕ
name_of p = c_string (drop 2 (encode p))

-- What the C types give: array lengths and the ranges of the numbers
pub record IsPacket (p : Packet) : Type 0 where
  pub name_13 : length p.filename ≡ 13
  pub offset_32 : p.file_offset < 2 ^ 32
  pub track_16 : p.track < 2 ^ 16
  pub payload_512 : length p.payload ≡ 512
  pub len_16 : p.data_len < 2 ^ 16
