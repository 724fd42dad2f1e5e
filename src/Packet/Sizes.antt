-- ===== src/Packet/Sizes.antt =====
-- The sizes of a packet that is read from raw bytes (`vdPacket_t`).
use wi_fi_virt_disk.Base.{
  ℕ, zero, suc, ◌^◌, ◌<◌, ◌≡◌, List, [], ◌∷◌, arith, length, take, drop, length-take, length-drop,
}
use wi_fi_virt_disk.Packet.{IsPacket, decode, packet_size, from_le16, from_le32}
use wi_fi_virt_disk.Hspi.Words.{Bytes}

drop-Bytes : (n : ℕ) (xs : List ℕ) → Bytes xs → Bytes (drop n xs)
drop-Bytes zero xs h = h
drop-Bytes (suc n) [] h = h
drop-Bytes (suc n) (x ∷ xs) h = drop-Bytes n xs (λ i. h (suc i))

pub take-Bytes : (n : ℕ) (xs : List ℕ) → Bytes xs → Bytes (take n xs)
take-Bytes zero xs h i = omega arith
take-Bytes (suc n) [] h i = h i
take-Bytes (suc n) (x ∷ xs) h zero = h zero
take-Bytes (suc n) (x ∷ xs) h (suc i) = take-Bytes n xs (λ j. h (suc j)) i

from_le16-lt : (b : List ℕ) → Bytes b → from_le16 b < 2 ^ 16
from_le16-lt b h = let l = h 0 in let u = h 1 in omega arith

from_le32-lt : (b : List ℕ) → Bytes b → from_le32 b < 2 ^ 32
from_le32-lt b h = let a = h 0 in let c = h 1 in let d = h 2 in let e = h 3 in omega arith

pub decode-IsPacket : (raw : List ℕ) → length raw ≡ packet_size → Bytes raw → IsPacket (decode raw)
unfolding decode
decode-IsPacket raw l h =
    let r1 = drop 2 raw in
    let r2 = drop 13 r1 in
    let r3 = drop 4 r2 in
    let r4 = drop 2 r3 in
    let r5 = drop 1 r4 in
    let h3 = drop-Bytes 13 r1 (drop-Bytes 2 raw h) in
    let h4 = drop-Bytes 4 r2 h3 in
    let h6 = drop-Bytes 512 r5 (drop-Bytes 1 r4 (drop-Bytes 2 r3 h4)) in
    let e1 = length-drop 2 raw in
    let e2 = length-drop 13 r1 in
    let e3 = length-drop 4 r2 in
    let e4 = length-drop 2 r3 in
    let e5 = length-drop 1 r4 in
    record {
      name_13 = omega (arith, length-take 13 r1);
      offset_32 = from_le32-lt (take 4 r2) (take-Bytes 4 r2 h3);
      track_16 = from_le16-lt (take 2 r3) (take-Bytes 2 r3 h4);
      payload_512 = omega (arith, length-take 512 r5);
      len_16 = from_le16-lt (drop 512 r5) h6;
    }
