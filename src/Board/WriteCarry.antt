-- ===== src/Board/WriteCarry.antt =====
-- What a whole call of `vd_write` leaves in the client besides its buffer: the packet for the server,
-- and the network until the buffer is full.
use wi_fi_virt_disk.Base.{
  ℕ, ◌+◌, ◌≤◌, ◌≡◌, ◌≢◌, refl, ap, ◌∙◌, Option, List, none, some, arith, length, u16, if◌then◌else◌,
  ◌==◌, ne→==_false,
}
use wi_fi_virt_disk.Packet.{Packet, code, Command}
use wi_fi_virt_disk.Client.State.{TcpLink, Client, VdData, exchange, spi_on_data}
use wi_fi_virt_disk.Client.Write.{
  Stored, begin_write, after_store, handle_wr_file, write_next, flush_write,
}
use wi_fi_virt_disk.Ios.Link.{Master}
use wi_fi_virt_disk.Ios.Write.{write_frame}
use wi_fi_virt_disk.Board.Wiring.{spi_buffer, spi_link}
use wi_fi_virt_disk.Board.Round.{served, served-handle}
use wi_fi_virt_disk.Board.WriteRounds.{
  begun, with_bytes, written, write_frame-command, served-stored,
}
use wi_fi_virt_disk.Board.WriteSegment.{between, behind, half, size_0, fit_0}

-- The packet when a write begins
abbrev pub begun_packet : VdData → Packet → Packet
begun_packet d p =
    if d.data_len == 0 then record p { cmd = code Command.wr_file; filename = d.filename } else p

begin_write-packet :
    {L : TcpLink} (c : Client L)
    → ((begin_write c).packet ≡ begun_packet c.vd_data c.packet) × ((begin_write c).net ≡ c.net)
unfolding begin_write
begin_write-packet c = (ground arith, ground arith)

after_store-carries :
    {L : TcpLink} (c : Client L) (buf : List ℕ) (s : Stored)
    → ((after_store c buf s).packet ≡ c.packet) × ((after_store c buf s).net ≡ c.net)
unfolding after_store
after_store-carries c buf s = (refl, refl)

handle_wr_file-carries :
    {L : TcpLink} (c : Client L) (buf : List ℕ)
    → ((handle_wr_file c buf).packet ≡ begun_packet c.vd_data c.packet)
      × ((handle_wr_file c buf).net ≡ c.net)
unfolding handle_wr_file
handle_wr_file-carries c buf =
    let (p, n) = after_store-carries (begin_write c) buf _ in
    let (p', n') = begin_write-packet c in (p ∙ p', n ∙ n')

module _ {L : TcpLink} (wifi : ℕ) (m : Master (spi_link L wifi)) (offset : ℕ) (bytes : List ℕ) where
  served-carries :
      ((served wifi m (write_frame offset bytes)).packet
        ≡ begun_packet m.wire.vd_data m.wire.packet)
      × ((served wifi m (write_frame offset bytes)).net ≡ m.wire.net)
  unfolding spi_on_data
  served-carries =
      let frame = write_frame offset bytes in
      let e = served-handle wifi m frame Command.wr_file (write_frame-command offset bytes) in
      let (p, n) =
        handle_wr_file-carries (spi_on_data m.wire (spi_buffer frame)) (spi_buffer frame) in
      (ap (λ c. c.packet) e ∙ p, ap (λ c. c.net) e ∙ n)

begun_packet-twice :
    (d : VdData) (bytes : List ℕ) (p : Packet)
    → begun_packet (with_bytes (begun d) 0 bytes) (begun_packet d p) ≡ begun_packet d p
begun_packet-twice d bytes p = ground arith

module _ {L : TcpLink} (wifi : ℕ) (m : Master (spi_link L wifi)) (buff : List ℕ)
    (size : length buff ≡ 32) (fit : (begun m.wire.vd_data).file_pos + 32 ≤ 512) where
  -- Behind both halves
  pub behind-carries :
      let b = behind wifi m buff size fit in
      (b.wire.packet ≡ begun_packet m.wire.vd_data m.wire.packet) × (b.wire.net ≡ m.wire.net)
  behind-carries =
      let h0 = half wifi m buff size fit 0 in
      let h1 = half wifi m buff size fit 1 in
      let (p, n) = served-carries wifi m 0 h0 in
      let (p', n') = served-carries wifi (between wifi m buff size fit) 1 h1 in
      let stored =
        (served-stored wifi m 0 h0 (size_0 wifi m buff size fit) (fit_0 wifi m buff size fit)).1 in
      (
        p'
            ∙ (λ i. begun_packet (stored i) (p i))
            ∙ begun_packet-twice m.wire.vd_data h0 m.wire.packet,
        n' ∙ n,
      )

module _ {L : TcpLink} (wifi : ℕ) (m : Master (spi_link L wifi)) where
  -- VD_CMD_WR_NEXT of 32 bytes, where the buffer is not full then
  pub written-going :
      m.wire.vd_data.file_pos + 32 ≢ 512
      → ((written wifi 32 m).packet ≡ m.wire.packet) × ((written wifi 32 m).net ≡ m.wire.net)
  unfolding write_next spi_on_data
  written-going h =
      let e = ne→==_false (m.wire.vd_data.file_pos + 32) 512 h in (rw e refl, rw e refl)

  -- The packet that a full buffer goes out with
  abbrev pub full_packet : Packet
  full_packet = record (m.wire.packet) {
    payload = m.wire.vd_data.buffer;
    data_len = u16 (m.wire.vd_data.data_len + 32);
  }

  pub written-full :
      (net' : L.Net) (p : Packet)
      → m.wire.vd_data.file_pos + 32 ≡ 512
      → exchange L m.wire.net full_packet ≡ (net', some p)
      → ((written wifi 32 m).packet ≡ p) × ((written wifi 32 m).net ≡ net')
  unfolding write_next flush_write spi_on_data
  written-full net' p h answer =
      let packet_of : L.Net × Option Packet → Packet =
        λ r. elim (r.1) [ none ↦ full_packet | some q ↦ q ] in
      (rw h (ap packet_of answer), rw h (ap (λ r. r.0) answer))

  -- VD_CMD_WR_NEXT of no bytes
  pub written-none :
      m.wire.vd_data.file_pos + 0 ≢ 512
      → ((written wifi 0 m).packet ≡ m.wire.packet) × ((written wifi 0 m).net ≡ m.wire.net)
  unfolding write_next spi_on_data
  written-none h = let e = ne→==_false (m.wire.vd_data.file_pos + 0) 512 h in (rw e refl, rw e refl)
