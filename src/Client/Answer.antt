-- ===== src/Client/Answer.antt =====
-- The answer frame of VD_CMD_RD_FILE in the data registers, where 16 bytes are asked for and there.
use wi_fi_virt_disk.Base.{
  ℕ, zero, suc, ◌+◌, ◌*◌, ◌≤◌, ◌<◌, ◌≡◌, refl, ap, ◌∙◌, List, arith, not8, get_or, set, length,
  get_or-set_self, get_or-set_ne, ◌==◌, if◌then◌else◌, replicate,
}
use wi_fi_virt_disk.Packet.{code, Command}
use wi_fi_virt_disk.Spi.{add_bytes}
use wi_fi_virt_disk.Hspi.{set_data}
use wi_fi_virt_disk.Hspi.Words.{Bytes}
use wi_fi_virt_disk.Client.State.{TcpLink, Client, VdData, status_reset}
use wi_fi_virt_disk.Client.Read.{Filled, fill, fill_loop, fetch, read_file}
use wi_fi_virt_disk.Client.Fill.{
  window, fill_loop-sums, fill_loop-before, fill_loop-copies, fill_loop-Bytes, set-Bytes,
}

-- The variables of the loop at its start, in VD_CMD_RD_FILE
abbrev first : Filled
first = record { count = 0; checksum = 2; bytes = set (replicate 32 0) 0 (code Command.rd_file) }

zeros-lt : (n i : ℕ) → get_or (replicate n 0) i 0 < 256
zeros-lt zero i = omega arith
zeros-lt (suc n) zero = omega arith
zeros-lt (suc n) (suc i) = zeros-lt n i

module _ (d : VdData) (offset : ℕ) where
  abbrev pub begin : ℕ
  begin = d.file_pos + offset * 16

  -- the loop behind 16 rounds
  unfoldable pub looped : Filled
  looped = fill_loop d begin 16 first

  pub fill-looped : fill d offset 16 ≡ looped
  unfolding fill looped
  fill-looped = refl

  module _ (small : begin + 16 ≤ 512) (there : begin + 16 ≤ d.data_len) where
    looped-sums :
        (looped.count ≡ 16)
        × (looped.checksum ≡ add_bytes 2 (window d.buffer begin 16))
        × (length looped.bytes ≡ 32)
    unfolding looped
    looped-sums =
        let (n, s, l) = fill_loop-sums d begin 16 first (omega arith) (omega arith) in
        let at : begin + 0 ≡ begin = omega arith in
        (n, s ∙ ap (λ k. add_bytes 2 (window d.buffer k 16)) at, l)

    -- The frame that the client sends
    abbrev pub answer : List ℕ
    answer = set looped.bytes 17 (not8 looped.checksum)

    pub answer-command : get_or answer 0 0 ≡ 3
    unfolding looped
    answer-command =
        get_or-set_ne looped.bytes (not8 looped.checksum) 0 (λ e. omega arith)
        ∙ fill_loop-before d begin 16 0 first (omega arith) (omega arith) (omega arith)

    pub answer-data : (i : ℕ) → i < 16 → get_or answer (i + 1) 0 ≡ get_or d.buffer (begin + i) 0
    unfolding looped
    answer-data i h =
        let source : begin + 0 + i ≡ begin + i = omega arith in
        let place : i + 1 ≡ 0 + 1 + i = omega arith in
        get_or-set_ne looped.bytes (not8 looped.checksum) 0 (λ e. omega arith)
        ∙ ap (λ k. get_or looped.bytes k 0) place
        ∙ fill_loop-copies d begin 16 i first (omega arith) (omega arith) (omega arith) h
        ∙ ap (λ k. get_or d.buffer k 0) source

    pub answer-sum : get_or answer 17 0 ≡ not8 (add_bytes 2 (window d.buffer begin 16))
    answer-sum =
        let (n, s, l) = looped-sums in
        get_or-set_self looped.bytes 17 (not8 looped.checksum) 0 (omega arith) ∙ ap not8 s

    pub answer-Bytes : Bytes d.buffer → Bytes answer
    unfolding looped
    answer-Bytes h =
        set-Bytes looped.bytes 17 (not8 looped.checksum)
          (fill_loop-Bytes d begin 16 first h
            (set-Bytes (replicate 32 0) 0 3 (zeros-lt 32) (omega arith)) (omega arith)
            (omega arith))
          (omega arith)

-- The buffer that VD_CMD_RD_FILE reads: the one that is there, or the server's answer
abbrev pub loaded : {L : TcpLink} → Client L → Client L
loaded c = if c.vd_data.data_len == 0 then fetch c else c

-- VD_CMD_RD_FILE of 16 bytes that are in the buffer: success is shown, the registers hold the
-- command, the bytes and what closes the sum, and the position stays.
module _ {L : TcpLink} (c : Client L) (offset : ℕ) where
  abbrev pub source : VdData
  source = (loaded c).vd_data

  module _ (small : begin source offset + 16 ≤ 512)
      (there : begin source offset + 16 ≤ source.data_len) where
    pub read_file-state :
        let done = read_file c offset 16 in
        (done.spi_status ≡ record status_reset { cmd_data = 16 })
        × (done.vd_data ≡ source)
        × (done.regs ≡ set_data (answer source offset small there) 18)
        × (done.fault ≡ (loaded c).fault)
    unfolding read_file
    read_file-state =
        let (n, _, _) = looped-sums source offset small there in
        rw (fill-looped source offset, n) (refl, refl, refl, ground arith)
