-- ===== src/Board/SeekRead.antt =====
-- From the IOS to the image and back: `vd_lseek` and then `vd_read`, through client and server.
use wi_fi_virt_disk.Base.{
  ℕ, suc, ◌+◌, ◌^◌, ◌<◌, ◌≤◌, ◌≡◌, refl, ap, ◌∙◌, sym, subst, List, some, arith, length, drop,
  length-take, length-drop,
}
use wi_fi_virt_disk.Packet.{Packet}
use wi_fi_virt_disk.Packet.VdStatus
use wi_fi_virt_disk.Hspi.Words.{Bytes}
use wi_fi_virt_disk.Client.State.{TcpLink, Client, VdData, exchange, status_reset}
use wi_fi_virt_disk.Client.Read.{fetch, take_answer}
use wi_fi_virt_disk.Client.Fill.{window}
use wi_fi_virt_disk.Client.Answer.{loaded}
use wi_fi_virt_disk.Server.Device.{LibDsk}
use wi_fi_virt_disk.Server.State.{Config, Server}
use wi_fi_virt_disk.Server.Image.{block, zero_padded}
use wi_fi_virt_disk.Server.Refine.{Serves, read_packet, read-Serves}
use wi_fi_virt_disk.Ios.Link.{Master, fr_ok}
use wi_fi_virt_disk.Ios.Control.{vd_lseek}
use wi_fi_virt_disk.Ios.Read.{Reading, copy_bytes, vd_read}
use wi_fi_virt_disk.Board.Wiring.{spi_link, tcp_link}
use wi_fi_virt_disk.Board.Blocks.{zero_padded-Bytes, window-block}
use wi_fi_virt_disk.Board.Fetch.{exchange-read}
use wi_fi_virt_disk.Board.Seek.{
  Selected, header, reply, reply-IsPacket, sought_client, lseek-sought,
}
use wi_fi_virt_disk.Board.ReadSegment.{segment_read}

fetch-answered :
    {L : TcpLink} (c : Client L) (net' : L.Net) (p : Packet)
    → exchange L c.net (read_packet (header c)) ≡ (net', some p)
    → p.status ≡ VdStatus.ok
    → (fetch c).vd_data
      ≡ record (c.vd_data) { buffer = p.payload; data_len = p.data_len; file_pos = 0 }
unfolding fetch take_answer
fetch-answered c net' p answer ok = rw (answer, ok) refl

module _ {D : LibDsk} (g : Config) (wifi : ℕ) (name path image : List ℕ) (s : Server D)
    (serves : Serves g name path image s) (m : Master (spi_link (tcp_link D g) wifi))
    (selected : Selected g name s m.wire) (ofs : ℕ) (range : ofs < 2 ^ 32) where
  abbrev pub after_seek : Client (tcp_link D g)
  after_seek = sought_client g wifi name path image s serves m selected ofs range

  -- What the client holds when it has asked for the block
  abbrev pub sector : VdData
  sector = record (m.wire.vd_data) {
    buffer = zero_padded (block image ofs);
    data_len = length (block image ofs);
    file_pos = 0;
  }

  pub loaded-sector : (loaded after_seek).vd_data ≡ sector
  loaded-sector =
      let h = reply g wifi name path image s serves m selected ofs range in
      let v = reply-IsPacket g wifi name path image s serves m selected ofs range in
      let (_, ok, payload, len, _) =
        read-Serves g h name path image selected.ends selected.named s ofs serves in
      let got = exchange-read g name path image s ofs serves h v selected.ends selected.named in
      fetch-answered after_seek _ _ got ok ∙ λ i. record (m.wire.vd_data) {
        buffer = payload i;
        data_len = len i;
        file_pos = 0;
      }

  -- A disk function that seeks and then reads gets the bytes of the image: when the server has the
  -- file open, the client has it selected and no packet is under way, and the image has 32 bytes from
  -- the offset on, `vd_lseek` returns FR_OK, and `vd_read` then returns FR_OK and the number 32, with
  -- those 32 bytes of the image in the caller's buffer.
  seek_then_read :
      (fuel btr : ℕ) (buff : List ℕ)
      → Bytes image
      → ofs + 32 ≤ length image
      → 16 ≤ btr
      → ((vd_lseek ofs m).1 ≡ fr_ok)
        × (out : Master (spi_link (tcp_link D g) wifi) × Reading) × (vd_read
              (suc (suc fuel))
              buff
              btr
              (vd_lseek ofs m).0
            ≡ some out)
        × (out.1.status ≡ fr_ok)
        × (out.1.taken ≡ some 32)
        × (out.1.buff ≡ copy_bytes buff 0 (window image ofs 32))
  seek_then_read fuel btr buff bytes there b =
      let m' : Master (spi_link (tcp_link D g) wifi) = record {
        wire = after_seek;
        vd_status = status_reset;
      } in
      let back = sym loaded-sector in
      let enough : 0 + 32 ≤ length (block image ofs) =
        omega (arith, length-take 512 (drop ofs image), length-drop ofs image) in
      let (out, done, ok, count, got, _) =
        segment_read wifi m' (subst (λ d. Bytes d.buffer) back (zero_padded-Bytes image ofs bytes))
          (subst (λ d. d.file_pos + 32 ≤ 512) back (omega arith))
          (subst (λ d. d.file_pos + 32 ≤ d.data_len) back enough) fuel btr buff b in
      let sought = lseek-sought g wifi name path image s serves m selected ofs range in
      (
        ap (λ r. r.1) sought,
        out,
        ap (λ r. vd_read (suc (suc fuel)) buff btr r.0) sought ∙ done,
        ok,
        count,
        got
            ∙ ap (λ d. copy_bytes buff 0 (window d.buffer d.file_pos 32)) loaded-sector
            ∙ ap (copy_bytes buff 0) (window-block image ofs 32 (omega arith) there),
      )
