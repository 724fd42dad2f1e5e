-- ===== src/Board/WriteFlush.antt =====
-- The last segment of a sector: the packet goes to the server, which writes it to the file.
use wi_fi_virt_disk.Base.{
  ℕ, ◌+◌, ◌≡◌, refl, ap, ◌∙◌, sym, subst, List, [], ◌++◌, some, arith, length, drop, append-nil,
  c_string, u16, length-append, length-drop, drop-all,
}
use wi_fi_virt_disk.Packet.{Packet, IsPacket, code, Command}
use wi_fi_virt_disk.Packet.Name.{IsTerminated}
use wi_fi_virt_disk.Client.State.{exchange}
use wi_fi_virt_disk.Server.Device.{LibDsk}
use wi_fi_virt_disk.Server.State.{Config, Server}
use wi_fi_virt_disk.Server.Stream.{overwrite}
use wi_fi_virt_disk.Server.Transfer.{wr_file, write_plain, write_emulated}
use wi_fi_virt_disk.Server.Process.{process_cmd}
use wi_fi_virt_disk.Server.Refine.{Serves, write_packet, at_offset, write-Serves}
use wi_fi_virt_disk.Ios.Link.{Master}
use wi_fi_virt_disk.Board.Wiring.{spi_link, tcp_link}
use wi_fi_virt_disk.Board.Network.{exchange-reply}
use wi_fi_virt_disk.Board.Seek.{Selected}
use wi_fi_virt_disk.Board.WriteRounds.{closed, written, written-closed}
use wi_fi_virt_disk.Board.WriteSegment.{behind}
use wi_fi_virt_disk.Board.WriteCarry.{begun_packet, behind-carries, written-full, full_packet}
use wi_fi_virt_disk.Board.WriteOpen.{IsOpen, begun_packet-IsPacket, fits, filled, behind-filled}

write-packet :
    {D : LibDsk} (g : Config) (s : Server D) (h : Packet) (bytes : List ℕ)
    → (process_cmd g s (write_packet h bytes)).1 ≡ write_packet h bytes
unfolding process_cmd wr_file write_plain write_emulated
write-packet g s h bytes = ground arith

closed-full :
    (file buffer : List ℕ) (n : ℕ)
    → n + 32 ≡ 512
    → closed (record { filename = file; file_pos = n; buffer = buffer; data_len = n }) 32
      ≡ record { filename = file; file_pos = 0; buffer = buffer; data_len = 0 }
closed-full file buffer n h = rw h refl

module _ {D : LibDsk} (g : Config) (name path image : List ℕ) (s : Server D)
    (serves : Serves g name path image s) (ofs : ℕ) where
  -- The server behind the write
  abbrev pub write_server : Packet → Server D
  write_server h = (process_cmd g (at_offset path s ofs) (write_packet h h.payload)).0

  exchange-write :
      (h : Packet)
      → h.cmd ≡ code Command.wr_file
      → IsPacket h
      → IsTerminated h.filename
      → c_string h.filename ≡ name
      → exchange (tcp_link D g) (at_offset path s ofs, []) h ≡ ((write_server h, []), some h)
  exchange-write h cmd v t e =
      let w = write_packet h h.payload in
      let same : h ≡ w = λ i. record h { cmd = cmd i } in
      let reply = write-packet g (at_offset path s ofs) h h.payload in
      let (replied, _) = write-Serves g h name path image t e s ofs h.payload serves in
      let fine : IsPacket w = subst IsPacket same v in
      ap (exchange (tcp_link D g) (at_offset path s ofs, [])) same
      ∙ exchange-reply D g (at_offset path s ofs) w fine replied (subst IsPacket (sym reply) fine)
      ∙ λ i. ((write_server h, []), some ((reply ∙ sym same) i))

  module _ (wifi : ℕ) (m : Master (spi_link (tcp_link D g) wifi)) (done seg : List ℕ)
      (v : IsOpen {L = tcp_link D g} (at_offset path s ofs, []) name done m.wire)
      (l : length seg ≡ 32) (full : length done + 32 ≡ 512) where
    abbrev pub last_behind : Master (spi_link (tcp_link D g) wifi)
    last_behind =
        behind wifi m seg l (fits wifi m (at_offset path s ofs, []) name done seg v l (omega arith))

    -- The packet that is sent
    abbrev sent : Packet
    sent = record (begun_packet m.wire.vd_data m.wire.packet) {
      payload = done ++ seg;
      data_len = u16 (length done + 32);
    }

    sent-IsPacket : IsPacket sent
    sent-IsPacket =
        let header = begun_packet-IsPacket m.wire.vd_data m.wire.packet v.name_13 v.packet_fits in
        record {
          name_13 = header.name_13;
          offset_32 = header.offset_32;
          track_16 = header.track_16;
          payload_512 = omega (arith, length-append done seg);
          len_16 = omega arith;
        }

    sent-ends : IsTerminated sent.filename
    sent-ends = subst IsTerminated (sym v.write_name) v.ends

    sent-named : c_string sent.filename ≡ name
    sent-named = ap c_string v.write_name ∙ v.named

    -- The last segment fills the buffer.
    last_buffer : last_behind.wire.vd_data ≡ record {
      filename = m.wire.vd_data.filename;
      file_pos = length done;
      buffer = done ++ seg;
      data_len = length done;
    }
    last_buffer =
        let net : Server D × List ℕ = (at_offset path s ofs, []) in
        let d = m.wire.vd_data in
        let n = length done in
        let size = v.buffer_512 in
        let rest = drop-all 32 (drop n d.buffer) (omega (arith, length-drop n d.buffer)) in
        let bytes : filled wifi m net name done seg v l (omega arith) ≡ done ++ seg =
          ap (λ r. (done ++ seg) ++ r) rest ∙ append-nil (done ++ seg) in
        behind-filled wifi m net name done seg v l (omega arith) ∙ λ i. record {
          filename = d.filename;
          file_pos = n;
          buffer = bytes i;
          data_len = n;
        }

    flushed :
        let c = written wifi 32 last_behind in (c.packet ≡ sent) × (c.net ≡ (write_server sent, []))
    flushed =
        let b = last_behind in
        let fit = fits wifi m (at_offset path s ofs, []) name done seg v l (omega arith) in
        let (packet, same_net) = behind-carries wifi m seg l fit in
        let same : full_packet wifi b ≡ sent = λ i. record (packet i) {
          payload = (last_buffer i).buffer;
          data_len = u16 ((last_buffer i).data_len + 32);
        } in
        let answer =
          (λ i. exchange (tcp_link D g) ((same_net ∙ v.quiet) i) (same i))
          ∙ exchange-write sent v.write_cmd sent-IsPacket sent-ends sent-named in
        written-full wifi b (write_server sent, []) sent
          (ap (λ x. x.file_pos + 32) last_buffer ∙ full) answer

    flushed_buffer : (written wifi 32 last_behind).vd_data ≡ record {
      filename = m.wire.vd_data.filename;
      file_pos = 0;
      buffer = done ++ seg;
      data_len = 0;
    }
    flushed_buffer =
        written-closed wifi 32 last_behind
        ∙ ap (λ x. closed x 32) last_buffer
        ∙ closed-full m.wire.vd_data.filename (done ++ seg) (length done) full

    -- What the client and the server are when the buffer has been sent: the file holds the bytes, and
    -- the client's buffer is empty.
    pub full-Selected :
        let c = written wifi 32 last_behind in
        (s' : Server D) × Serves g name path (overwrite image ofs (done ++ seg)) s'
        × Selected g name s' c
        × (c.vd_data.data_len ≡ 0)
        × (c.vd_data.file_pos ≡ 0)
    full-Selected =
        let (packet, net) = flushed in
        let vd = flushed_buffer in
        let (_, holds) =
          write-Serves g sent name path image sent-ends sent-named s ofs (done ++ seg) serves in
        (
          write_server sent,
          holds,
          record {
            quiet = net;
            packet_fits = subst IsPacket (sym packet) sent-IsPacket;
            name_13 = subst (λ x. length x.filename ≡ 13) (sym vd) v.name_13;
            ends = subst (λ x. IsTerminated x.filename) (sym vd) v.ends;
            named = subst (λ x. c_string x.filename ≡ name) (sym vd) v.named;
          },
          ap (λ x. x.data_len) vd,
          ap (λ x. x.file_pos) vd,
        )
