-- ===== src/Client/Reject.antt =====
-- Frames with a wrong checksum.
use wi_fi_virt_disk.Base.{ℕ, ◌+◌, ◌*◌, ◌≡◌, ◌≢◌, refl, ◌∙◌, List, arith, ne→==_false, u8}
use wi_fi_virt_disk.Packet.{Command, code}
use wi_fi_virt_disk.Spi.{spi_chksum_err}
use wi_fi_virt_disk.Client.State.{TcpLink, Client}
use wi_fi_virt_disk.Client.Control.{
  byte_at, status_sum, select_sum, seek_sum, handle_status, handle_sel_file, handle_seek_file,
}
use wi_fi_virt_disk.Client.Read.{read_sum, next_sum, handle_rd_file, handle_rd_next}
use wi_fi_virt_disk.Client.Process.{dispatch}
use wi_fi_virt_disk.Client.Write.{
  Stored, store_loop, store_start, begin_write, after_store, handle_wr_file, handle_wr_next,
}

-- The checksum that the client computes for a frame, by its command. That of VD_CMD_WR_FILE depends
-- on the bytes that fit into the buffer.
abbrev pub frame_sum : {L : TcpLink} → Client L → Command → List ℕ → ℕ
frame_sum c Command.nothing buf = 0
frame_sum c Command.status buf = status_sum buf
frame_sum c Command.sel_file buf = select_sum buf
frame_sum c Command.rd_file buf = read_sum buf
frame_sum c Command.rd_next buf = next_sum buf
frame_sum c Command.wr_file buf =
    let d = (begin_write c).vd_data in
    let s = store_loop buf (d.file_pos + byte_at buf 1 * 16) (byte_at buf 2) (store_start d buf) in
    u8 (s.checksum + byte_at buf (s.count + 3))
frame_sum c Command.wr_next buf = next_sum buf
frame_sum c Command.seek_file buf = seek_sum buf
frame_sum c Command.sel_tr_sec buf = 0
frame_sum c Command.rd_sector buf = 0
frame_sum c Command.wr_sector buf = 0

-- the handler of each command
abbrev pub handle : {L : TcpLink} → Client L → ℕ → Command → List ℕ → Client L
handle c wifi Command.status buf = handle_status c wifi buf
handle c wifi Command.sel_file buf = handle_sel_file c buf
handle c wifi Command.rd_file buf = handle_rd_file c buf
handle c wifi Command.rd_next buf = handle_rd_next c buf
handle c wifi Command.wr_file buf = handle_wr_file c buf
handle c wifi Command.wr_next buf = handle_wr_next c buf
handle c wifi Command.seek_file buf = handle_seek_file c buf
handle c wifi _ buf = c

-- `dispatch` chooses the handler by the first byte.
pub dispatch-handle :
    {L : TcpLink} (c : Client L) (wifi : ℕ) (cmd : Command) (buf : List ℕ)
    → byte_at buf 0 ≡ code cmd
    → dispatch c wifi buf ≡ handle c wifi cmd buf
unfolding dispatch
dispatch-handle c wifi Command.nothing buf e = rw e
dispatch-handle c wifi _ buf e = rw e

-- What a rejected frame leaves: the report to the master, and all else as it was
abbrev pub Rejected : {L : TcpLink} → Client L → Client L → Type 0
Rejected c done =
    (done.spi_status.status ≡ spi_chksum_err)
    × (done.net ≡ c.net)
    × (done.vd_data.filename ≡ c.vd_data.filename)
    × (done.regs ≡ c.regs)
    × (done.send_buf ≡ c.send_buf)

after_store-Rejected :
    {L : TcpLink} (c : Client L) (buf : List ℕ) (s : Stored)
    → u8 (s.checksum + byte_at buf (s.count + 3)) ≢ 0
    → Rejected c (after_store c buf s)
unfolding after_store
after_store-Rejected c buf s h =
    ground (arith, ne→==_false (u8 (s.checksum + byte_at buf (s.count + 3))) 0 h)

begin_write_keeps :
    {L : TcpLink} (c : Client L)
    → let b = begin_write c in
      (b.net ≡ c.net)
      × (b.vd_data.filename ≡ c.vd_data.filename)
      × (b.regs ≡ c.regs)
      × (b.send_buf ≡ c.send_buf)
unfolding begin_write
begin_write_keeps c = ground arith

wr_file-Rejected :
    {L : TcpLink} (c : Client L) (buf : List ℕ)
    → frame_sum c Command.wr_file buf ≢ 0
    → Rejected c (handle_wr_file c buf)
unfolding handle_wr_file
wr_file-Rejected c buf h =
    let (n, f, r, b) = begin_write_keeps c in
    let (s', n', f', r', b') = after_store-Rejected (begin_write c) buf _ h in
    (s', n' ∙ n, f' ∙ f, r' ∙ r, b' ∙ b)

handle-Rejected :
    {L : TcpLink} (c : Client L) (wifi : ℕ) (cmd : Command) (buf : List ℕ)
    → frame_sum c cmd buf ≢ 0
    → Rejected c (handle c wifi cmd buf)
unfolding handle_status handle_sel_file handle_rd_file handle_rd_next handle_wr_next
    handle_seek_file
handle-Rejected c wifi Command.status buf h = ground (arith, ne→==_false (status_sum buf) 0 h)
handle-Rejected c wifi Command.sel_file buf h = ground (arith, ne→==_false (select_sum buf) 0 h)
handle-Rejected c wifi Command.rd_file buf h = ground (arith, ne→==_false (read_sum buf) 0 h)
handle-Rejected c wifi Command.rd_next buf h = ground (arith, ne→==_false (next_sum buf) 0 h)
handle-Rejected c wifi Command.wr_file buf h = wr_file-Rejected c buf h
handle-Rejected c wifi Command.wr_next buf h = ground (arith, ne→==_false (next_sum buf) 0 h)
handle-Rejected c wifi Command.seek_file buf h = ground (arith, ne→==_false (seek_sum buf) 0 h)
handle-Rejected c wifi _ buf h = absurd (h refl)

-- A frame whose checksum is wrong is reported to the master, is not sent to the server, and leaves
-- the name of the selected file, the data registers and the send buffer as they were.
pub dispatch-Rejected :
    {L : TcpLink} (c : Client L) (wifi : ℕ) (cmd : Command) (buf : List ℕ)
    → byte_at buf 0 ≡ code cmd
    → frame_sum c cmd buf ≢ 0
    → Rejected c (dispatch c wifi buf)
dispatch-Rejected c wifi cmd buf e h =
    rw (dispatch-handle c wifi cmd buf e) (handle-Rejected c wifi cmd buf h)
