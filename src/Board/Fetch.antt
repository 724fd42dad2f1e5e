-- ===== src/Board/Fetch.antt =====
-- The client's VD_CMD_SEEK_FILE and VD_CMD_RD_FILE where the server has the selected file open.
use wi_fi_virt_disk.Base.{
  ℕ, ◌-◌, ◌^◌, ◌<◌, ◌≤◌, ◌≡◌, ap, ◌∙◌, sym, subst, List, [], some, arith, length, drop, replicate,
  length-append, length-take, length-replicate, c_string,
}
use wi_fi_virt_disk.Packet.{Packet, IsPacket}
use wi_fi_virt_disk.Packet.Name.{IsTerminated}
use wi_fi_virt_disk.Client.State.{exchange}
use wi_fi_virt_disk.Server.Device.{LibDsk}
use wi_fi_virt_disk.Server.State.{Config, Server}
use wi_fi_virt_disk.Server.Transfer.{rd_file, read_plain, read_emulated}
use wi_fi_virt_disk.Server.Process.{process_cmd}
use wi_fi_virt_disk.Server.Image.{block, zero_padded}
use wi_fi_virt_disk.Server.Refine.{Serves, read_packet, at_offset, read-Serves}
use wi_fi_virt_disk.Board.Wiring.{tcp_link}
use wi_fi_virt_disk.Board.Network.{exchange-reply}

-- A read leaves the name, the offset and the track of a packet.
read-fields :
    {D : LibDsk} (g : Config) (s : Server D) (h : Packet)
    → let p = (process_cmd g s (read_packet h)).1 in
      (p.filename ≡ h.filename) × (p.file_offset ≡ h.file_offset) × (p.track ≡ h.track)
unfolding process_cmd rd_file read_plain read_emulated
read-fields g s h = ground arith

length-block : (image : List ℕ) (offset : ℕ) → length (block image offset) ≤ 512
length-block image offset = omega (arith, length-take 512 (drop offset image))

length-zero_padded : (bytes : List ℕ) → length bytes ≤ 512 → length (zero_padded bytes) ≡ 512
length-zero_padded bytes h = omega (
  arith,
  length-append bytes (replicate (512 - length bytes) 0),
  length-replicate {A = ℕ} (512 - length bytes) 0,
)

module _ {D : LibDsk} (g : Config) (name path image : List ℕ) (s : Server D) (offset : ℕ)
    (serves : Serves g name path image s) where
  module _ (h : Packet) (v : IsPacket h) (t : IsTerminated h.filename)
      (e : c_string h.filename ≡ name) where
    read-IsPacket : IsPacket (process_cmd g (at_offset path s offset) (read_packet h)).1
    read-IsPacket =
        let (_, _, payload, len, _) = read-Serves g h name path image t e s offset serves in
        let (same_name, same_offset, same_track) = read-fields g (at_offset path s offset) h in
        let small = length-block image offset in
        record {
          name_13 = ap length same_name ∙ v.name_13;
          offset_32 = subst (λ n. n < 2 ^ 32) (sym same_offset) v.offset_32;
          track_16 = subst (λ n. n < 2 ^ 16) (sym same_track) v.track_16;
          payload_512 = ap length payload ∙ length-zero_padded (block image offset) small;
          len_16 = omega arith;
        }

    -- The server behind the read
    abbrev pub read_server : Server D
    read_server = (process_cmd g (at_offset path s offset) (read_packet h)).0

    pub exchange-read :
        exchange (tcp_link D g) (at_offset path s offset, []) (read_packet h)
        ≡ ((read_server, []), some (process_cmd g (at_offset path s offset) (read_packet h)).1)
    exchange-read =
        let (reply, _, _, _, _) = read-Serves g h name path image t e s offset serves in
        exchange-reply D g (at_offset path s offset) (read_packet h)
          (record {
            name_13 = v.name_13;
            offset_32 = v.offset_32;
            track_16 = v.track_16;
            payload_512 = v.payload_512;
            len_16 = v.len_16;
          })
          reply read-IsPacket
