-- ===== src/Packet/Wire.antt =====
-- The two views of `vdPacket_t`: writing a packet out and reading it back.
use wi_fi_virt_disk.Base.{
  ℕ, ◌^◌, ◌<◌, ◌≡◌, ap, ◌∙◌, List, ◌∷◌, ◌++◌, arith, length, take, drop, get_or, take-append,
  drop-append, length-append,
}
use wi_fi_virt_disk.Packet.{
  Packet, IsPacket, encode, decode, packet_size, le16, le32, from_le16, from_le32,
}

pub length-encode : (p : Packet) → IsPacket p → length (encode p) ≡ packet_size
unfolding encode
length-encode p v = omega (
  arith,
  length-append p.filename
      (le32 p.file_offset ++ (le16 p.track ++ (p.sector ∷ (p.payload ++ le16 p.data_len)))),
  length-append p.payload (le16 p.data_len),
)

from_le16-le16 : (x : ℕ) → x < 2 ^ 16 → from_le16 (le16 x) ≡ x
from_le16-le16 x h = omega arith

from_le32-le32 : (x : ℕ) → x < 2 ^ 32 → from_le32 (le32 x) ≡ x
from_le32-le32 x h = omega arith

-- The raw bytes of a packet, whose arrays and numbers have the sizes of their C types, show that
-- packet again, field by field.
pub decode-encode : (p : Packet) → IsPacket p → decode (encode p) ≡ p
unfolding decode encode
decode-encode p v = λ i. record {
  cmd = p.cmd;
  status = p.status;
  filename = take-append 13 p.filename rest v.name_13 i;
  file_offset = (ap (λ r. from_le32 (take 4 r)) after ∙ from_le32-le32 p.file_offset v.offset_32) i;
  track = (ap (λ r. from_le16 (take 2 (drop 4 r))) after ∙ from_le16-le16 p.track v.track_16) i;
  sector = ap (λ r. get_or (drop 2 (drop 4 r)) 0 0) after i;
  payload =
      (ap (λ r. take 512 (drop 1 (drop 2 (drop 4 r)))) after
          ∙ take-append 512 p.payload (le16 p.data_len) v.payload_512)
        i;
  data_len =
      (ap (λ r. from_le16 (drop 512 (drop 1 (drop 2 (drop 4 r))))) after
          ∙ ap from_le16 (drop-append 512 p.payload (le16 p.data_len) v.payload_512)
          ∙ from_le16-le16 p.data_len v.len_16)
        i;
}
  where
    rest : List ℕ
    rest = le32 p.file_offset ++ (le16 p.track ++ (p.sector ∷ (p.payload ++ le16 p.data_len)))

    after : drop 13 (p.filename ++ rest) ≡ rest
    after = drop-append 13 p.filename rest v.name_13
