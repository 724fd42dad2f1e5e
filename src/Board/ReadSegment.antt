-- ===== src/Board/ReadSegment.antt =====
-- `vd_read` as a whole, with the client at the other end of the wire: two halves and the command
-- that moves the position.
use wi_fi_virt_disk.Base.{
  ℕ, suc, ◌+◌, ◌≤◌, ◌≡◌, refl, ap, ◌∙◌, sym, subst, List, none, some, arith, u8,
}
use wi_fi_virt_disk.Hspi.Words.{Bytes}
use wi_fi_virt_disk.Client.State.{TcpLink, VdData}
use wi_fi_virt_disk.Client.Read.{advance}
use wi_fi_virt_disk.Client.Fill.{window}
use wi_fi_virt_disk.Client.Answer.{begin, loaded}
use wi_fi_virt_disk.Ios.Link.{Master, fr_ok}
use wi_fi_virt_disk.Ios.Read.{Reading, copy_bytes, read_loop, vd_read}
use wi_fi_virt_disk.Ios.Receive.{with_half, copy_bytes-window}
use wi_fi_virt_disk.Board.Wiring.{spi_link}
use wi_fi_virt_disk.Board.ReadHalf.{
  held, half, announced, command-announced, receive-half, served-kept,
}
use wi_fi_virt_disk.Board.ReadRounds.{
  read_loop-half, loaded-kept, finish_read-accepted, vd_read-reads, moved-position, finish-advances,
}

module _ {L : TcpLink} (wifi : ℕ) (m : Master (spi_link L wifi))
    (bytes : Bytes (loaded m.wire).vd_data.buffer)
    (small : (loaded m.wire).vd_data.file_pos + 32 ≤ 512)
    (there : (loaded m.wire).vd_data.file_pos + 32 ≤ (loaded m.wire).vd_data.data_len) where
  -- The client's buffer
  abbrev buffered : VdData
  buffered = (loaded m.wire).vd_data

  small_0 : begin (held wifi m 0) 0 + 16 ≤ 512
  small_0 = omega arith

  there_0 : begin (held wifi m 0) 0 + 16 ≤ (held wifi m 0).data_len
  there_0 = omega arith

  -- The master between the halves
  abbrev between : Master (spi_link L wifi)
  between = announced wifi m 0 bytes small_0 there_0

  kept : (loaded between.wire).vd_data ≡ buffered
  kept =
      loaded-kept between.wire buffered (served-kept wifi m 0 bytes small_0 there_0).0 (omega arith)

  next-Bytes : Bytes (held wifi between 1).buffer
  next-Bytes = subst (λ d. Bytes d.buffer) (sym kept) bytes

  small_1 : begin (held wifi between 1) 1 + 16 ≤ 512
  small_1 = subst (λ d. begin d 1 + 16 ≤ 512) (sym kept) (omega arith)

  there_1 : begin (held wifi between 1) 1 + 16 ≤ (held wifi between 1).data_len
  there_1 = subst (λ d. begin d 1 + 16 ≤ d.data_len) (sym kept) (omega arith)

  -- The master behind both halves
  abbrev behind : Master (spi_link L wifi)
  behind = announced wifi between 1 next-Bytes small_1 there_1

  abbrev start : List ℕ → Reading
  start buff = record {
    status = fr_ok;
    offset = 0;
    attempts = 0;
    data_len = 0;
    buff = buff;
    taken = none;
  }

  abbrev tried : Reading → Reading
  tried r = record r { attempts = u8 (r.attempts + 1) }

  abbrev first_half : List ℕ → Reading
  first_half buff = with_half (tried (start buff)) (half wifi m 0 bytes small_0 there_0)

  abbrev both_halves : List ℕ → Reading
  both_halves buff =
      with_half (tried (first_half buff)) (half wifi between 1 next-Bytes small_1 there_1)

  read_loop-halves :
      (fuel btr : ℕ) (buff : List ℕ)
      → 16 ≤ btr
      → read_loop (suc (suc fuel)) btr (start buff) m ≡ some (behind, both_halves buff)
  read_loop-halves fuel btr buff b =
      read_loop-half (suc fuel) btr (start buff) m between between
        (half wifi m 0 bytes small_0 there_0) (command-announced wifi m 0 bytes small_0 there_0)
        refl (receive-half wifi m 0 bytes small_0 there_0 btr (tried (start buff)) b)
      ∙ read_loop-half fuel btr (first_half buff) between behind behind
          (half wifi between 1 next-Bytes small_1 there_1)
          (command-announced wifi between 1 next-Bytes small_1 there_1) refl
          (receive-half wifi between 1 next-Bytes small_1 there_1 btr (tried (first_half buff)) b)

  behind-kept : behind.wire.vd_data ≡ buffered
  behind-kept = (served-kept wifi between 1 next-Bytes small_1 there_1).0 ∙ kept

  -- The halves together are the 32 bytes from the position on.
  both-buff :
      (buff : List ℕ)
      → (both_halves buff).buff ≡ copy_bytes buff 0 (window buffered.buffer buffered.file_pos 32)
  both-buff buff =
      let first : begin buffered 0 ≡ buffered.file_pos = omega arith in
      let second : begin buffered 1 ≡ buffered.file_pos + 16 = omega arith in
      (λ i.
        copy_bytes (copy_bytes buff 0 (window buffered.buffer (first i) 16)) 16
          (window (kept i).buffer (begin (kept i) 1) 16))
      ∙ (λ i.
          copy_bytes (copy_bytes buff 0 (window buffered.buffer buffered.file_pos 16)) 16
            (window buffered.buffer (second i) 16))
      ∙ copy_bytes-window buffered.buffer 16 16 buffered.file_pos 0 buff

  -- With 32 bytes in the client's buffer behind its position, `vd_read` gets them: it returns FR_OK
  -- and the number 32 after two rounds, the bytes stand in the caller's buffer, and the client's
  -- position has moved behind them.
  pub segment_read :
      (fuel btr : ℕ) (buff : List ℕ)
      → 16 ≤ btr
      → (out : Master (spi_link L wifi) × Reading) × (vd_read (suc (suc fuel)) buff btr m
          ≡ some out)
        × (out.1.status ≡ fr_ok)
        × (out.1.taken ≡ some 32)
        × (out.1.buff ≡ copy_bytes buff 0 (window buffered.buffer buffered.file_pos 32))
        × (out.0.wire.vd_data ≡ advance buffered 32)
  segment_read fuel btr buff b =
      let r = both_halves buff in
      let finished = finish_read-accepted r behind _ refl (finish-advances wifi 32 behind) in
      (
        (_, r),
        vd_read-reads (suc (suc fuel)) btr buff m behind r (read_loop-halves fuel btr buff b)
            ∙ ap (λ o. some o) finished,
        refl,
        refl,
        both-buff buff,
        moved-position wifi 32 behind ∙ ap (λ d. advance d 32) behind-kept,
      )
