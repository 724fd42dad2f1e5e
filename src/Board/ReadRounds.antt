-- ===== src/Board/ReadRounds.antt =====
-- What the parts of `vd_read` do where every transmission is accepted.
use wi_fi_virt_disk.Base.{
  ℕ, suc, ◌+◌, ◌<◌, ◌≡◌, refl, ap, ◌∙◌, sym, List, none, some, arith, u8, if◌then◌else◌, ◌==◌, ltb,
  true, false, ne→==_false,
}
use wi_fi_virt_disk.Packet.{Command, code}
use wi_fi_virt_disk.Client.State.{TcpLink, Client, VdData, spi_on_data, show_status, status_reset}
use wi_fi_virt_disk.Client.Control.{byte_at}
use wi_fi_virt_disk.Client.Read.{next_sum, advance, handle_rd_next}
use wi_fi_virt_disk.Client.Answer.{loaded}
use wi_fi_virt_disk.Ios.Link.{SpiLink, Master, command, fr_ok}
use wi_fi_virt_disk.Ios.Read.{
  Reading, read_frame, next_frame, receive, read_loop, next_loop, finish_read, vd_read,
}
use wi_fi_virt_disk.Ios.Receive.{with_half}
use wi_fi_virt_disk.Board.Wiring.{spi_buffer, spi_link}
use wi_fi_virt_disk.Board.Frames.{next_frame_accepted}
use wi_fi_virt_disk.Board.Round.{served, command-served, served-handle}

-- A round of the loop of `vd_read` whose half arrives
pub read_loop-half :
    {S : SpiLink} (fuel btr : ℕ) (r : Reading) (m m' m'' : Master S) (bytes : List ℕ)
    → let tried = record r { attempts = u8 (r.attempts + 1) } in
      command m (read_frame r.offset) ≡ (m', 0)
      → m'.vd_status.cmd_status ≡ 0
      → receive btr tried m' ≡ (m'', with_half tried bytes)
      → read_loop (suc fuel) btr r m ≡ (
          if ltb (r.offset + 1) 2
          then read_loop fuel btr (with_half tried bytes) m''
          else some (m'', with_half tried bytes))
unfolding read_loop
read_loop-half fuel btr r m m' m'' bytes sent ok got = rw (sent, got, ok) refl

pub loaded-kept :
    {L : TcpLink} (c : Client L) (d : VdData)
    → c.vd_data ≡ d
    → 0 < d.data_len
    → (loaded c).vd_data ≡ d
loaded-kept c d e h =
    let busy : (c.vd_data.data_len == 0) ≡ false =
      ne→==_false c.vd_data.data_len 0
        (λ z. let no = sym (ap (λ v. v.data_len) e) ∙ z in omega arith) in
    rw busy e

handle_rd_next-accepts :
    {L : TcpLink} (c : Client L) (buf : List ℕ) (n : ℕ)
    → next_sum buf ≡ 0
    → byte_at buf 1 ≡ n
    → handle_rd_next c buf
      ≡ show_status
          (record c { vd_data = advance c.vd_data n })
          (record status_reset { cmd_data = n })
unfolding handle_rd_next
handle_rd_next-accepts c buf n sum len = rw (sum, len) refl

pub next_frame-command : (c : Command) (n : ℕ) → byte_at (spi_buffer (next_frame c n)) 0 ≡ code c
unfolding spi_buffer next_frame
next_frame-command c n = refl

-- The loop that ends a transfer stops after a first command that is accepted.
pub next_loop-accepted :
    {S : SpiLink} (fuel : ℕ) (frame : List ℕ) (m m' : Master S)
    → command m frame ≡ (m', 0)
    → m'.vd_status.cmd_status ≡ 0
    → next_loop (suc fuel) 0 frame m ≡ (m', true)
unfolding next_loop
next_loop-accepted fuel frame m m' sent ok = rw (sent, ok) refl

pub finish_read-accepted :
    {S : SpiLink} (r : Reading) (m m' : Master S)
    → r.status ≡ fr_ok
    → next_loop 5 0 (next_frame Command.rd_next r.data_len) m ≡ (m', true)
    → finish_read r m ≡ (m', r)
unfolding finish_read
finish_read-accepted r m m' fine closed = rw (closed, fine) refl

pub vd_read-reads :
    {S : SpiLink} (fuel btr : ℕ) (buff : List ℕ) (m m' : Master S) (r : Reading)
    → let start : Reading = record {
      status = fr_ok;
      offset = 0;
      attempts = 0;
      data_len = 0;
      buff = buff;
      taken = none;
    } in
      read_loop fuel btr start m ≡ some (m', r) → vd_read fuel buff btr m ≡ some (finish_read r m')
unfolding vd_read
vd_read-reads fuel btr buff m m' r e =
    ap (λ o. elim o [ none ↦ none | some out ↦ some (finish_read out.1 out.0) ]) e

module _ {L : TcpLink} (wifi n : ℕ) (m : Master (spi_link L wifi)) where
  abbrev frame : List ℕ
  frame = next_frame Command.rd_next n

  abbrev interrupted : Client L
  interrupted = spi_on_data m.wire (spi_buffer frame)

  abbrev idle : Client L → Client L
  idle c = record c { spi_data_rcvd = false }

  abbrev pub moved : Client L
  moved = idle (
      show_status (record interrupted { vd_data = advance interrupted.vd_data n })
        (record status_reset { cmd_data = n }))

  pub served-moved : served wifi m frame ≡ moved
  served-moved =
      let (sum, len) = next_frame_accepted Command.rd_next n in
      served-handle wifi m frame Command.rd_next (next_frame-command Command.rd_next n)
      ∙ ap idle (handle_rd_next-accepts interrupted (spi_buffer frame) n sum len)

  pub moved-position : moved.vd_data ≡ advance m.wire.vd_data n
  unfolding spi_on_data
  moved-position = refl

  -- The command that ends a read of `n` bytes moves the client's position by `n`.
  pub finish-advances :
      next_loop 5 0 frame m
      ≡ (record { wire = moved; vd_status = record status_reset { cmd_data = n } }, true)
  finish-advances =
      let shown = ap (λ c. c.spi_status.status) served-moved in
      let sent =
        command-served wifi m frame (λ e. let no : 0 ≡ 1 = sym shown ∙ e in omega arith) ∙ λ i. (
          record { wire = served-moved i; vd_status = (served-moved i).spi_status },
          (served-moved i).spi_status.status,
        ) in
      next_loop-accepted 4 frame m (record { wire = moved; vd_status = moved.spi_status }) sent refl
