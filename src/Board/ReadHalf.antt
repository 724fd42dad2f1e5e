-- ===== src/Board/ReadHalf.antt =====
-- A round of `vd_read` with the client at the other end of the wire.
use wi_fi_virt_disk.Base.{
  get_or-take, ℕ, ◌+◌, ◌≤◌, ◌<◌, ◌≡◌, refl, ap, ◌∙◌, sym, List, arith, get_or, take, false, not8,
  subst,
}
use wi_fi_virt_disk.Spi.{add_bytes}
use wi_fi_virt_disk.Packet.{Command}
use wi_fi_virt_disk.Hspi.{unpack, set_data}
use wi_fi_virt_disk.Hspi.Words.{Bytes, register_byte}
use wi_fi_virt_disk.Client.State.{TcpLink, Client, VdData, spi_on_data, status_reset}
use wi_fi_virt_disk.Client.Control.{byte_at}
use wi_fi_virt_disk.Client.Read.{read_sum, read_file, handle_rd_file, fetch}
use wi_fi_virt_disk.Client.Fill.{window}
use wi_fi_virt_disk.Client.Answer.{
  begin, loaded, source, answer, read_file-state, answer-command, answer-data, answer-sum,
  answer-Bytes,
}
use wi_fi_virt_disk.Ios.Link.{Master, command}
use wi_fi_virt_disk.Ios.Read.{Reading, read_frame, receive, body}
use wi_fi_virt_disk.Ios.Receive.{body-window, with_half, receive_good}
use wi_fi_virt_disk.Board.Wiring.{spi_buffer, slave, spi_link}
use wi_fi_virt_disk.Board.Frames.{read_frame_accepted}
use wi_fi_virt_disk.Board.Round.{served, command-served, served-handle}

-- The interrupt does not touch what VD_CMD_RD_FILE reads.
loaded-spi_on_data :
    {L : TcpLink} (c : Client L) (frame : List ℕ)
    → ((loaded (spi_on_data c frame)).vd_data ≡ (loaded c).vd_data)
      × ((loaded (spi_on_data c frame)).fault ≡ (loaded c).fault)
unfolding spi_on_data fetch
loaded-spi_on_data c frame = ground arith

handle_rd_file-accepts :
    {L : TcpLink} (c : Client L) (buf : List ℕ) (offset : ℕ)
    → read_sum buf ≡ 0
    → byte_at buf 1 ≡ offset
    → byte_at buf 2 ≡ 16
    → handle_rd_file c buf ≡ read_file c offset 16
unfolding handle_rd_file
handle_rd_file-accepts c buf offset sum at len = rw (sum, at, len) refl

read_frame-command : (offset : ℕ) → byte_at (spi_buffer (read_frame offset)) 0 ≡ 3
unfolding spi_buffer read_frame
read_frame-command offset = refl

module _ {L : TcpLink} (wifi : ℕ) (m : Master (spi_link L wifi)) (offset : ℕ) where
  abbrev interrupted : Client L
  interrupted = spi_on_data m.wire (spi_buffer (read_frame offset))

  abbrev pub after_frame : Client L
  after_frame = served wifi m (read_frame offset)

  served-read_file :
      after_frame ≡ record (read_file interrupted offset 16) { spi_data_rcvd = false }
  served-read_file =
      let (sum, at, len) = read_frame_accepted offset in
      let idle : Client L → Client L = λ c. record c { spi_data_rcvd = false } in
      served-handle wifi m (read_frame offset) Command.rd_file (read_frame-command offset)
      ∙ ap idle
          (handle_rd_file-accepts interrupted (spi_buffer (read_frame offset)) offset sum at len)

  -- The buffer that the master reads from
  abbrev pub held : VdData
  held = (loaded m.wire).vd_data

  module _ (bytes : Bytes held.buffer) (small : begin held offset + 16 ≤ 512)
      (there : begin held offset + 16 ≤ held.data_len) where
    same : source interrupted offset ≡ held
    same = (loaded-spi_on_data m.wire (spi_buffer (read_frame offset))).0

    small' : begin (source interrupted offset) offset + 16 ≤ 512
    small' = subst (λ d. begin d offset + 16 ≤ 512) (sym same) small

    there' : begin (source interrupted offset) offset + 16 ≤ (source interrupted offset).data_len
    there' = subst (λ d. begin d offset + 16 ≤ d.data_len) (sym same) there

    abbrev frame : List ℕ
    frame = answer (source interrupted offset) offset small' there'

    served-state :
        (after_frame.spi_status ≡ record status_reset { cmd_data = 16 })
        × (after_frame.vd_data ≡ held)
        × (after_frame.regs ≡ set_data frame 18)
        × (after_frame.fault ≡ (loaded m.wire).fault)
    served-state =
        let (status, kept, regs, fault) = read_file-state interrupted offset small' there' in
        let e = served-read_file in
        (
          ap (λ c. c.spi_status) e ∙ status,
          ap (λ c. c.vd_data) e ∙ kept ∙ same,
          ap (λ c. c.regs) e ∙ regs,
          ap (λ c. c.fault) e
              ∙ fault
              ∙ (loaded-spi_on_data m.wire (spi_buffer (read_frame offset))).1,
        )

    -- The client behind the frame: its buffer is the one that was read, and no access left an array.
    pub served-kept : (after_frame.vd_data ≡ held) × (after_frame.fault ≡ (loaded m.wire).fault)
    served-kept = let (_, kept, _, fault) = served-state in (kept, fault)

    abbrev pub half : List ℕ
    half = window held.buffer (begin held offset) 16

    -- The master behind the frame: success, and 16 bytes are announced.
    abbrev pub announced : Master (spi_link L wifi)
    announced = record { wire = after_frame; vd_status = record status_reset { cmd_data = 16 } }

    pub command-announced : command m (read_frame offset) ≡ (announced, 0)
    command-announced =
        let (status, _, _, _) = served-state in
        command-served wifi m (read_frame offset)
          (λ e. let no : 0 ≡ 1 = sym (ap (λ s. s.status) status) ∙ e in omega arith)
        ∙ λ i. (record { wire = after_frame; vd_status = status i }, (status i).status)

    -- A byte that the slave sends, of the 18 of the answer
    sent_byte : (j : ℕ) → j < 18 → get_or (take 18 (unpack after_frame.regs)) j 0 ≡ get_or frame j 0
    sent_byte j h =
        let (_, _, regs, _) = served-state in
        let bytes' = subst (λ d. Bytes d.buffer) (sym same) bytes in
        get_or-take 18 j (unpack after_frame.regs) 0 h
        ∙ ap (λ ws. get_or (unpack ws) j 0) regs
        ∙ register_byte frame 18 j
            (answer-Bytes (source interrupted offset) offset small' there' bytes') h (omega arith)

    sent_half : body (take 18 (unpack after_frame.regs)) 0 16 ≡ half
    sent_half =
        let copied : (j : ℕ)
            → j < 16
            → get_or (take 18 (unpack after_frame.regs)) (0 + j + 1) 0
              ≡ get_or held.buffer (begin held offset + j) 0 =
          λ j h.
            let place : 0 + j + 1 ≡ j + 1 = omega arith in
            ap (λ n. get_or (take 18 (unpack after_frame.regs)) n 0) place
            ∙ sent_byte (j + 1) (omega arith)
            ∙ answer-data (source interrupted offset) offset small' there' j h
            ∙ ap (λ d. get_or d.buffer (begin d offset + j) 0) same in
        body-window (take 18 (unpack after_frame.regs)) held.buffer 0 (begin held offset) 16 copied

    -- The half arrives, with a checksum that closes, and the client stays as it is.
    pub receive-half :
        (btr : ℕ) (r : Reading) → 16 ≤ btr → receive btr r announced ≡ (announced, with_half r half)
    unfolding slave
    receive-half btr r b =
        let d = source interrupted offset in
        let last =
          sent_byte 17 (omega arith)
          ∙ answer-sum d offset small' there'
          ∙ ap (λ d. not8 (add_bytes 2 (window d.buffer (begin d offset) 16))) same in
        receive_good btr r announced half refl b
          (sent_byte 0 (omega arith) ∙ answer-command d offset small' there') sent_half last
