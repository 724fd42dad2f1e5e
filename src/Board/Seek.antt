-- ===== src/Board/Seek.antt =====
-- `vd_lseek` with the client at the other end of the wire and the server behind it.
use wi_fi_virt_disk.Base.{
  ℕ, ◌^◌, ◌<◌, ◌≡◌, refl, ap, ◌∙◌, sym, subst, List, [], some, arith, length, c_string, false,
}
use wi_fi_virt_disk.Packet.{Packet, Command, IsPacket}
use wi_fi_virt_disk.Packet.Name.{IsTerminated}
use wi_fi_virt_disk.Packet.VdStatus
use wi_fi_virt_disk.Client.State.{TcpLink, Client, exchange, spi_on_data, show_status, status_reset}
use wi_fi_virt_disk.Client.Control.{byte_at, seek_sum, seek_offset, seek_file, handle_seek_file}
use wi_fi_virt_disk.Server.Device.{LibDsk}
use wi_fi_virt_disk.Server.State.{Config, Server}
use wi_fi_virt_disk.Server.Refine.{Serves, seek_packet, at_offset, seek-Serves}
use wi_fi_virt_disk.Ios.Link.{SpiLink, Master, command, fr_ok}
use wi_fi_virt_disk.Ios.Control.{seek_frame, seek_loop, vd_lseek}
use wi_fi_virt_disk.Board.Wiring.{spi_buffer, spi_link, tcp_link}
use wi_fi_virt_disk.Board.Frames.{seek_frame_accepted}
use wi_fi_virt_disk.Board.Round.{served, command-served, served-handle}
use wi_fi_virt_disk.Board.Network.{exchange-reply}

-- The client has a disk of that name selected, and no packet is on its way.
pub record Selected {D : LibDsk} (g : Config) (name : List ℕ) (s : Server D)
    (c : Client (tcp_link D g)) : Type 0 where
  pub quiet : c.net ≡ (s, [])
  pub packet_fits : IsPacket c.packet
  pub name_13 : length c.vd_data.filename ≡ 13
  pub ends : IsTerminated c.vd_data.filename
  pub named : c_string c.vd_data.filename ≡ name

-- The packet for the server, with the name of the disk
abbrev pub header : {L : TcpLink} → Client L → Packet
header c = record (c.packet) { filename = c.vd_data.filename }

header-IsPacket :
    {D : LibDsk} (g : Config) (name : List ℕ) (s : Server D) (c : Client (tcp_link D g))
    → Selected g name s c
    → IsPacket (header c)
header-IsPacket g name s c v = record {
  name_13 = v.name_13;
  offset_32 = v.packet_fits.offset_32;
  track_16 = v.packet_fits.track_16;
  payload_512 = v.packet_fits.payload_512;
  len_16 = v.packet_fits.len_16;
}

-- A seek frame that is accepted and answered
seek-answered :
    {L : TcpLink} (c : Client L) (buf : List ℕ) (offset : ℕ) (net' : L.Net) (p : Packet)
    → seek_sum buf ≡ 0
    → seek_offset buf ≡ offset
    → exchange L c.net (seek_packet (header c) offset) ≡ (net', some p)
    → handle_seek_file c buf
      ≡ show_status
          (record c { packet = p; net = net'; vd_data = record (c.vd_data) { data_len = 0 } })
          status_reset
unfolding handle_seek_file seek_file
seek-answered c buf offset net' p sum at answer = rw (sum, at, answer) refl

seek_frame-command : (ofs : ℕ) → byte_at (spi_buffer (seek_frame ofs)) 0 ≡ 7
unfolding spi_buffer seek_frame
seek_frame-command ofs = refl

-- A first command that is accepted ends the loop of `vd_lseek`.
lseek-accepted :
    {S : SpiLink} (ofs : ℕ) (m m' : Master S)
    → command m (seek_frame ofs) ≡ (m', 0)
    → m'.vd_status.cmd_status ≡ 0
    → vd_lseek ofs m ≡ (m', fr_ok)
unfolding vd_lseek seek_loop
lseek-accepted ofs m m' sent ok = rw (sent, ok) refl

module _ {D : LibDsk} (g : Config) (wifi : ℕ) (name path image : List ℕ) (s : Server D)
    (serves : Serves g name path image s) (m : Master (spi_link (tcp_link D g) wifi))
    (selected : Selected g name s m.wire) (ofs : ℕ) (range : ofs < 2 ^ 32) where
  abbrev pub reply : Packet
  reply = record (seek_packet (header m.wire) ofs) { status = VdStatus.ok }

  fits : IsPacket (header m.wire)
  fits = header-IsPacket g name s m.wire selected

  pub reply-IsPacket : IsPacket reply
  reply-IsPacket = record {
    name_13 = fits.name_13;
    offset_32 = range;
    track_16 = fits.track_16;
    payload_512 = fits.payload_512;
    len_16 = fits.len_16;
  }

  exchange-seek :
      exchange (tcp_link D g) m.wire.net (seek_packet (header m.wire) ofs)
      ≡ ((at_offset path s ofs, []), some reply)
  exchange-seek =
      let e =
        seek-Serves g (header m.wire) name path image selected.ends selected.named s ofs serves in
      let sent : IsPacket (seek_packet (header m.wire) ofs) = record {
        name_13 = fits.name_13;
        offset_32 = range;
        track_16 = fits.track_16;
        payload_512 = fits.payload_512;
        len_16 = fits.len_16;
      } in
      ap (λ n. exchange (tcp_link D g) n (seek_packet (header m.wire) ofs)) selected.quiet
      ∙ exchange-reply D g s (seek_packet (header m.wire) ofs) sent (ap (λ o. o.2) e)
          (subst IsPacket (sym (ap (λ o. o.1) e)) reply-IsPacket)
      ∙ λ i. (((e i).0, []), some (e i).1)

  abbrev buf : List ℕ
  buf = spi_buffer (seek_frame ofs)

  -- The client behind the seek: its buffer is empty, and the server stands at the offset.
  abbrev pub sought_client : Client (tcp_link D g)
  sought_client = record (m.wire) {
    packet = reply;
    net = (at_offset path s ofs, []);
    vd_data = record (m.wire.vd_data) { data_len = 0 };
    vd_status = status_reset;
    spi_status = status_reset;
    spi_data_buf = buf;
    spi_data_rcvd = false;
  }

  served-sought : served wifi m (seek_frame ofs) ≡ sought_client
  unfolding spi_on_data
  served-sought =
      let (sum, at) = seek_frame_accepted ofs range in
      let idle : Client (tcp_link D g) → Client (tcp_link D g) =
        λ c. record c { spi_data_rcvd = false } in
      served-handle wifi m (seek_frame ofs) Command.seek_file (seek_frame-command ofs)
      ∙ ap idle (
          seek-answered (spi_on_data m.wire buf) buf ofs (at_offset path s ofs, []) reply sum at
            exchange-seek)

  -- `vd_lseek` returns FR_OK.
  pub lseek-sought :
      vd_lseek ofs m ≡ (record { wire = sought_client; vd_status = status_reset }, fr_ok)
  lseek-sought =
      let shown = ap (λ c. c.spi_status.status) served-sought in
      lseek-accepted ofs m (record { wire = sought_client; vd_status = status_reset })
        (command-served wifi m (seek_frame ofs) (λ e. let no : 0 ≡ 1 = sym shown ∙ e in omega arith)
          ∙ λ i. (
            record { wire = served-sought i; vd_status = (served-sought i).spi_status },
            (served-sought i).spi_status.status,
          ))
        refl
