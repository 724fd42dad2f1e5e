-- ===== src/Board/WriteRounds.antt =====
-- A round of `vd_write`, and the command that ends it, with the client at the other end of the wire.
use wi_fi_virt_disk.Base.{
  ℕ, suc, ◌+◌, ◌*◌, ◌≤◌, ◌≡◌, refl, ap, ◌∙◌, sym, subst, List, some, arith, length, take, drop, u16,
  if◌then◌else◌, ◌==◌, ltb, true, false,
}
use wi_fi_virt_disk.Packet.{Command}
use wi_fi_virt_disk.Client.State.{TcpLink, Client, VdData, spi_on_data, show_status, status_reset}
use wi_fi_virt_disk.Client.Control.{byte_at}
use wi_fi_virt_disk.Client.Read.{next_sum}
use wi_fi_virt_disk.Client.Write.{begin_write, write_next, flush_write, handle_wr_next}
use wi_fi_virt_disk.Ios.Link.{SpiLink, Master, command, fr_ok}
use wi_fi_virt_disk.Ios.Read.{next_frame, next_loop, copy_bytes}
use wi_fi_virt_disk.Ios.Write.{Writing, write_frame, write_loop, finish_write}
use wi_fi_virt_disk.Board.Wiring.{spi_buffer, spi_link}
use wi_fi_virt_disk.Board.Frames.{next_frame_accepted}
use wi_fi_virt_disk.Board.Round.{served, command-served, served-handle}
use wi_fi_virt_disk.Board.ReadRounds.{next_frame-command, next_loop-accepted}
use wi_fi_virt_disk.Board.WriteFrame.{write_frame_stored}

-- `vdData` when a write begins: with no data yet, at position 0
abbrev pub begun : VdData → VdData
begun d = if d.data_len == 0 then record d { file_pos = 0 } else d

-- `vdData` with bytes stored at `offset` times 16 behind the position
abbrev pub with_bytes : VdData → ℕ → List ℕ → VdData
with_bytes d offset bytes = record d {
  buffer = copy_bytes d.buffer (d.file_pos + offset * 16) bytes;
}

begin_write-begun : {L : TcpLink} (c : Client L) → (begin_write c).vd_data ≡ begun c.vd_data
unfolding begin_write
begin_write-begun c = ground arith

pub begun-with_bytes :
    (d : VdData) (offset : ℕ) (bytes : List ℕ)
    → begun (with_bytes (begun d) offset bytes) ≡ with_bytes (begun d) offset bytes
begun-with_bytes d offset bytes = ground arith

pub write_frame-command :
    (offset : ℕ) (bytes : List ℕ) → byte_at (spi_buffer (write_frame offset bytes)) 0 ≡ 5
unfolding spi_buffer write_frame
write_frame-command offset bytes = refl

-- The frame of a half is stored and accepted.
module _ {L : TcpLink} (wifi : ℕ) (m : Master (spi_link L wifi)) (offset : ℕ) (bytes : List ℕ)
    (l : length bytes ≡ 16) (fit : (begun m.wire.vd_data).file_pos + offset * 16 + 16 ≤ 512) where
  abbrev pub frame : List ℕ
  frame = write_frame offset bytes

  abbrev interrupted : Client L
  interrupted = spi_on_data m.wire (spi_buffer frame)

  begins : (begin_write interrupted).vd_data ≡ begun m.wire.vd_data
  unfolding spi_on_data
  begins = begin_write-begun interrupted

  fit' : (begin_write interrupted).vd_data.file_pos + offset * 16 + 16 ≤ 512
  fit' = subst (λ d. d.file_pos + offset * 16 + 16 ≤ 512) (sym begins) fit

  pub served-stored :
      ((served wifi m frame).spi_status ≡ status_reset)
      × ((served wifi m frame).vd_data ≡ with_bytes (begun m.wire.vd_data) offset bytes)
  served-stored =
      let (status, stored, _) = write_frame_stored offset bytes l interrupted fit' in
      let e = served-handle wifi m frame Command.wr_file (write_frame-command offset bytes) in
      (
        ap (λ c. c.spi_status) e ∙ status,
        ap (λ c. c.vd_data) e ∙ stored ∙ ap (λ d. with_bytes d offset bytes) begins,
      )

  abbrev pub accepted : Master (spi_link L wifi)
  accepted = record { wire = served wifi m frame; vd_status = status_reset }

  pub command-accepted : command m frame ≡ (accepted, 0)
  command-accepted =
      let status = served-stored.0 in
      command-served wifi m frame
        (λ e. let no : 0 ≡ 1 = sym (ap (λ s. s.status) status) ∙ e in omega arith)
      ∙ λ i. (record { wire = served wifi m frame; vd_status = status i }, (status i).status)

-- `vdData` behind VD_CMD_WR_NEXT: moved, and emptied if the buffer is full
abbrev pub closed : VdData → ℕ → VdData
closed d n =
    if d.file_pos + n == 512
    then record d { file_pos = 0; data_len = 0 }
    else record d { file_pos = d.file_pos + n; data_len = u16 (d.data_len + n) }

handle_wr_next-accepts :
    {L : TcpLink} (c : Client L) (buf : List ℕ) (n : ℕ)
    → next_sum buf ≡ 0
    → byte_at buf 1 ≡ n
    → handle_wr_next c buf ≡ show_status (write_next c n) (record status_reset { cmd_data = n })
unfolding handle_wr_next
handle_wr_next-accepts c buf n sum len = rw (sum, len) refl

write_next-closed :
    {L : TcpLink} (c : Client L) (n : ℕ) → (write_next c n).vd_data ≡ closed c.vd_data n
unfolding write_next flush_write
write_next-closed c n = ground arith

module _ {L : TcpLink} (wifi n : ℕ) (m : Master (spi_link L wifi)) where
  abbrev next : List ℕ
  next = next_frame Command.wr_next n

  abbrev pub waiting : Client L
  waiting = spi_on_data m.wire (spi_buffer next)

  abbrev pub idle : Client L → Client L
  idle c = record c { spi_data_rcvd = false }

  abbrev pub written : Client L
  written = idle (show_status (write_next waiting n) (record status_reset { cmd_data = n }))

  served-written : served wifi m next ≡ written
  served-written =
      let (sum, len) = next_frame_accepted Command.wr_next n in
      served-handle wifi m next Command.wr_next (next_frame-command Command.wr_next n)
      ∙ ap idle (handle_wr_next-accepts waiting (spi_buffer next) n sum len)

  pub written-closed : written.vd_data ≡ closed m.wire.vd_data n
  unfolding spi_on_data
  written-closed = write_next-closed waiting n

  -- The command that ends a write is accepted at once.
  pub finish-closes :
      next_loop 5 0 next m
      ≡ (record { wire = written; vd_status = record status_reset { cmd_data = n } }, true)
  finish-closes =
      let shown = ap (λ c. c.spi_status.status) served-written in
      let sent =
        command-served wifi m next (λ e. let no : 0 ≡ 1 = sym shown ∙ e in omega arith) ∙ λ i. (
          record { wire = served-written i; vd_status = (served-written i).spi_status },
          (served-written i).spi_status.status,
        ) in
      next_loop-accepted 4 next m (record { wire = written; vd_status = written.spi_status }) sent
        refl

-- What a half that is accepted makes of the variables of `vd_write`
abbrev pub with_sent : Writing → Writing
with_sent w = record w {
  attempts = w.attempts + 1;
  offset = w.offset + 1;
  data_len = w.data_len + 16;
  written = if ltb 1 (w.offset + 1) then some (w.data_len + 16) else w.written;
}

pub write_loop-half :
    {S : SpiLink} (fuel : ℕ) (buff : List ℕ) (w : Writing) (m m' : Master S)
    → command m (write_frame w.offset (take 16 (drop (w.offset * 16) buff))) ≡ (m', 0)
    → m'.vd_status.cmd_status ≡ 0
    → write_loop (suc fuel) buff w m
      ≡ (if ltb (w.offset + 1) 2 then write_loop fuel buff (with_sent w) m' else (m', with_sent w))
unfolding write_loop
write_loop-half fuel buff w m m' sent ok = rw (sent, ok) refl

pub finish_write-accepted :
    {S : SpiLink} (w : Writing) (m m' : Master S)
    → w.status ≡ fr_ok
    → next_loop 5 0 (next_frame Command.wr_next w.data_len) m ≡ (m', true)
    → finish_write w m ≡ (m', w)
unfolding finish_write
finish_write-accepted w m m' fine end = rw (end, fine) refl
