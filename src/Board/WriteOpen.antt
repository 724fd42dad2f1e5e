-- ===== src/Board/WriteOpen.antt =====
-- The client between the segments of a sector that is written.
use wi_fi_virt_disk.Base.{
  ℕ, ◌+◌, ◌<◌, ◌≤◌, ◌≡◌, ◌≢◌, refl, ap, ◌∙◌, sym, subst, List, ◌++◌, arith, length, take, drop,
  take-append-drop, take-append, length-take, length-drop, length-append, c_string, u16, ◌==◌,
  if-cases, append_assoc, ne→==_false, false,
}
use wi_fi_virt_disk.Packet.{Packet, IsPacket, code, Command}
use wi_fi_virt_disk.Packet.Name.{IsTerminated}
use wi_fi_virt_disk.Client.State.{TcpLink, Client, VdData}
use wi_fi_virt_disk.Ios.Link.{Master}
use wi_fi_virt_disk.Ios.Read.{copy_bytes}
use wi_fi_virt_disk.Ios.Copy.{copy_bytes-middle}
use wi_fi_virt_disk.Board.Wiring.{spi_link}
use wi_fi_virt_disk.Board.WriteRounds.{begun, closed, written, written-closed}
use wi_fi_virt_disk.Board.WriteSegment.{behind, behind-stored}
use wi_fi_virt_disk.Board.WriteCarry.{begun_packet, behind-carries, written-going}

-- The client has `done` in its buffer, and a header for the packet from the first frame on.
pub record IsOpen {L : TcpLink} (net : L.Net) (name done : List ℕ) (c : Client L) : Type 0 where
  pub quiet : c.net ≡ net
  pub name_13 : length c.vd_data.filename ≡ 13
  pub ends : IsTerminated c.vd_data.filename
  pub named : c_string c.vd_data.filename ≡ name
  pub buffer_512 : length c.vd_data.buffer ≡ 512
  pub stored : take (length done) c.vd_data.buffer ≡ done
  pub place : (begun c.vd_data).file_pos ≡ length done
  pub counted : c.vd_data.data_len ≡ length done
  pub packet_fits : IsPacket c.packet
  pub write_cmd : (begun_packet c.vd_data c.packet).cmd ≡ code Command.wr_file
  pub write_name : (begun_packet c.vd_data c.packet).filename ≡ c.vd_data.filename

begun-fields :
    (d : VdData)
    → ((begun d).filename ≡ d.filename)
      × ((begun d).buffer ≡ d.buffer)
      × ((begun d).data_len ≡ d.data_len)
begun-fields d = (ground arith, ground arith, ground arith)

pub begun_packet-IsPacket :
    (d : VdData) (p : Packet) → length d.filename ≡ 13 → IsPacket p → IsPacket (begun_packet d p)
begun_packet-IsPacket d p l v =
    if-cases IsPacket (d.data_len == 0) _ p
      (λ t. record {
        name_13 = l;
        offset_32 = v.offset_32;
        track_16 = v.track_16;
        payload_512 = v.payload_512;
        len_16 = v.len_16;
      })
      (λ f. v)

-- a buffer that begins with `done`, with a segment behind it
filled-buffer :
    (done seg buffer : List ℕ)
    → length seg ≡ 32
    → length done + 32 ≤ length buffer
    → take (length done) buffer ≡ done
    → copy_bytes buffer (length done) seg ≡ (done ++ seg) ++ drop 32 (drop (length done) buffer)
filled-buffer done seg buffer l fit stored =
    let n = length done in
    let rest = drop n buffer in
    let parts : buffer ≡ done ++ (take 32 rest ++ drop 32 rest) =
      sym (take-append-drop n buffer)
      ∙ (λ i. stored i ++ rest)
      ∙ ap (λ r. done ++ r) (sym (take-append-drop 32 rest)) in
    ap (λ b. copy_bytes b n seg) parts
    ∙ copy_bytes-middle seg done (take 32 rest) (drop 32 rest)
        (omega (arith, length-take 32 rest, length-drop n buffer))
    ∙ sym (append_assoc done seg (drop 32 rest))

module _ {L : TcpLink} (wifi : ℕ) (m : Master (spi_link L wifi)) (net : L.Net)
    (name done seg : List ℕ) (v : IsOpen net name done m.wire) (l : length seg ≡ 32)
    (room : length done + 32 ≤ 512) where
  pub fits : (begun m.wire.vd_data).file_pos + 32 ≤ 512
  fits = let p = v.place in omega arith

  -- the buffer with the segment
  abbrev pub filled : List ℕ
  filled = (done ++ seg) ++ drop 32 (drop (length done) m.wire.vd_data.buffer)

  pub length-filled : length filled ≡ 512
  length-filled =
      let rest = drop (length done) m.wire.vd_data.buffer in
      let b = v.buffer_512 in
      omega (
        arith,
        length-append (done ++ seg) (drop 32 rest),
        length-append done seg,
        length-drop 32 rest,
        length-drop (length done) m.wire.vd_data.buffer,
      )

  -- Behind both frames of the segment
  pub behind-filled :
      (behind wifi m seg l fits).wire.vd_data
      ≡ record (m.wire.vd_data) { buffer = filled; file_pos = length done; data_len = length done }
  behind-filled =
      let d = m.wire.vd_data in
      let (same_name, same_buffer, same_len) = begun-fields d in
      behind-stored wifi m seg l fits ∙ λ i. record {
        filename = same_name i;
        file_pos = v.place i;
        buffer =
            ((λ j. copy_bytes (same_buffer j) (v.place j) seg)
                ∙ filled-buffer done seg d.buffer l (omega (arith, v.buffer_512)) v.stored)
              i;
        data_len = (same_len ∙ v.counted) i;
      }

  closed-going :
      (file buffer : List ℕ) (n : ℕ)
      → n + 32 < 512
      → closed (record { filename = file; file_pos = n; buffer = buffer; data_len = n }) 32
        ≡ record { filename = file; file_pos = n + 32; buffer = buffer; data_len = n + 32 }
  closed-going file buffer n h =
      let open_yet : (n + 32 == 512) ≡ false = ne→==_false (n + 32) 512 (λ e. omega arith) in
      let number : u16 (n + 32) ≡ n + 32 = omega arith in rw (open_yet, number) refl

  -- The buffer behind a segment that does not fill it
  abbrev after : VdData
  after = record {
    filename = m.wire.vd_data.filename;
    file_pos = length done + 32;
    buffer = filled;
    data_len = length done + 32;
  }

  after-begun :
      (p : Packet) → (begun_packet after p ≡ p) × ((begun after).file_pos ≡ length done + 32)
  after-begun p =
      let filling = ne→==_false (length done + 32) 0 (λ e. omega arith) in
      (rw filling refl, rw filling refl)

  after-written :
      length done + 32 < 512
      → let c = written wifi 32 (behind wifi m seg l fits) in
        (c.vd_data ≡ after) × (c.packet ≡ begun_packet m.wire.vd_data m.wire.packet) × (c.net ≡ net)
  after-written more =
      let b = behind wifi m seg l fits in
      let here : b.wire.vd_data.file_pos + 32 ≢ 512 =
        λ e. let at = ap (λ x. x.file_pos) behind-filled in omega arith in
      let (packet, same_net) = behind-carries wifi m seg l fits in
      let (packet', net') = written-going wifi b here in
      (
        written-closed wifi 32 b
            ∙ ap (λ x. closed x 32) behind-filled
            ∙ closed-going m.wire.vd_data.filename filled (length done) more,
        packet' ∙ packet,
        net' ∙ same_net ∙ v.quiet,
      )

  -- Behind a segment that does not fill the buffer
  pub going-IsOpen :
      length done + 32 < 512
      → IsOpen net name (done ++ seg) (written wifi 32 (behind wifi m seg l fits))
  going-IsOpen more =
      let header = begun_packet m.wire.vd_data m.wire.packet in
      let size : length (done ++ seg) ≡ length done + 32 = omega (arith, length-append done seg) in
      let (vd, packet, same_net) = after-written more in
      let (kept, begun_pos) = after-begun header in
      let head = (λ i. begun_packet (vd i) (packet i)) ∙ kept in
      record {
        quiet = same_net;
        name_13 = subst (λ x. length x.filename ≡ 13) (sym vd) v.name_13;
        ends = subst (λ x. IsTerminated x.filename) (sym vd) v.ends;
        named = subst (λ x. c_string x.filename ≡ name) (sym vd) v.named;
        buffer_512 = subst (λ x. length x.buffer ≡ 512) (sym vd) length-filled;
        stored =
            subst (λ x. take (length (done ++ seg)) x.buffer ≡ done ++ seg) (sym vd)
              (take-append (length (done ++ seg)) (done ++ seg) _ refl);
        place =
            subst (λ x. (begun x).file_pos ≡ length (done ++ seg)) (sym vd) (begun_pos ∙ sym size);
        counted = subst (λ x. x.data_len ≡ length (done ++ seg)) (sym vd) (sym size);
        packet_fits =
            subst IsPacket (sym packet)
              (begun_packet-IsPacket m.wire.vd_data m.wire.packet v.name_13 v.packet_fits);
        write_cmd = ap (λ p. p.cmd) head ∙ v.write_cmd;
        write_name = ap (λ p. p.filename) head ∙ v.write_name ∙ sym (ap (λ x. x.filename) vd);
      }
