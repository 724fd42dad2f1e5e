-- ===== src/Board/WriteSegment.antt =====
-- `vd_write` as a whole, with the client at the other end of the wire: two halves and the command
-- that moves the position.
use wi_fi_virt_disk.Base.{
  take-all, ℕ, ◌+◌, ◌*◌, ◌<◌, ◌≤◌, ◌≡◌, refl, ap, ◌∙◌, sym, subst, List, none, some, arith, length,
  length-take, length-drop, take, drop, take-append-drop, if◌then◌else◌, ne→==_false,
}
use wi_fi_virt_disk.Client.State.{TcpLink, VdData, status_reset}
use wi_fi_virt_disk.Ios.Link.{Master, fr_ok}
use wi_fi_virt_disk.Ios.Read.{copy_bytes}
use wi_fi_virt_disk.Ios.Copy.{copy_bytes-append}
use wi_fi_virt_disk.Ios.Write.{Writing, write_loop, finish_write, vd_write}
use wi_fi_virt_disk.Board.Wiring.{spi_link}
use wi_fi_virt_disk.Board.WriteRounds.{
  begun, with_bytes, begun-with_bytes, served-stored, accepted, command-accepted, closed, written,
  written-closed, finish-closes, with_sent, write_loop-half, finish_write-accepted,
}

halves-joined :
    (buffer : List ℕ) (place : ℕ) (buff : List ℕ)
    → length buff ≡ 32
    → copy_bytes
        (copy_bytes buffer (place + 0) (take 16 buff))
        (place + 16)
        (take 16 (drop 16 buff))
      ≡ copy_bytes buffer place buff
halves-joined buffer place buff size =
    let here : place + 0 ≡ place = omega arith in
    let next : place + 16 ≡ place + length (take 16 buff) = omega (arith, length-take 16 buff) in
    let rest = take-all 16 (drop 16 buff) (omega (arith, length-drop 16 buff)) in
    (λ i. copy_bytes (copy_bytes buffer (here i) (take 16 buff)) (next i) (rest i))
    ∙ copy_bytes-append buffer (take 16 buff) (drop 16 buff) place
    ∙ ap (copy_bytes buffer place) (take-append-drop 16 buff)

module _ {L : TcpLink} (wifi : ℕ) (m : Master (spi_link L wifi)) (buff : List ℕ)
    (size : length buff ≡ 32) (fit : (begun m.wire.vd_data).file_pos + 32 ≤ 512) where
  abbrev pub half : ℕ → List ℕ
  half offset = take 16 (drop (offset * 16) buff)

  pub size_0 : length (half 0) ≡ 16
  size_0 = omega (arith, length-take 16 buff)

  pub size_1 : length (half 1) ≡ 16
  size_1 = omega (arith, length-take 16 (drop 16 buff), length-drop 16 buff)

  abbrev pub at_start : VdData
  at_start = begun m.wire.vd_data

  pub fit_0 : (begun m.wire.vd_data).file_pos + 0 * 16 + 16 ≤ 512
  fit_0 = omega arith

  -- The master between the halves
  abbrev pub between : Master (spi_link L wifi)
  between = accepted wifi m 0 (half 0) size_0 fit_0

  pub between-stored : begun between.wire.vd_data ≡ with_bytes at_start 0 (half 0)
  between-stored =
      ap begun (served-stored wifi m 0 (half 0) size_0 fit_0).1
      ∙ begun-with_bytes m.wire.vd_data 0 (half 0)

  pub fit_1 : (begun between.wire.vd_data).file_pos + 1 * 16 + 16 ≤ 512
  fit_1 = subst (λ d. d.file_pos + 1 * 16 + 16 ≤ 512) (sym between-stored) (omega arith)

  -- The master behind both halves
  abbrev pub behind : Master (spi_link L wifi)
  behind = accepted wifi between 1 (half 1) size_1 fit_1

  -- The halves together are the 32 bytes.
  halves :
      with_bytes (with_bytes at_start 0 (half 0)) 1 (half 1)
      ≡ record at_start { buffer = copy_bytes at_start.buffer at_start.file_pos buff }
  halves =
      λ i. record at_start { buffer = halves-joined at_start.buffer at_start.file_pos buff size i }

  pub behind-stored :
      behind.wire.vd_data
      ≡ record at_start { buffer = copy_bytes at_start.buffer at_start.file_pos buff }
  behind-stored =
      (served-stored wifi between 1 (half 1) size_1 fit_1).1
      ∙ ap (λ d. with_bytes d 1 (half 1)) between-stored
      ∙ halves

  abbrev pub start : Writing
  start = record { status = fr_ok; offset = 0; attempts = 0; data_len = 0; written = none }

  write_loop-halves : write_loop 10 buff start m ≡ (behind, with_sent (with_sent start))
  write_loop-halves =
      write_loop-half 9 buff start m between (command-accepted wifi m 0 (half 0) size_0 fit_0) refl
      ∙ write_loop-half 8 buff (with_sent start) between behind
          (command-accepted wifi between 1 (half 1) size_1 fit_1) refl

  abbrev pub last : Master (spi_link L wifi)
  last = record { wire = written wifi 32 behind; vd_status = record status_reset { cmd_data = 32 } }

  pub vd_write-ends :
      (btw : ℕ) → 0 < btw → vd_write buff btw m ≡ (last, with_sent (with_sent start))
  unfolding vd_write
  vd_write-ends btw b =
      let empty = finish_write (record start { written = some 0 }) m in
      let looped = write_loop 10 buff start m in
      ap (λ c. if c then empty else finish_write looped.1 looped.0)
        (ne→==_false btw 0 (λ e. omega arith))
      ∙ ap (λ out. finish_write out.1 out.0) write_loop-halves
      ∙ finish_write-accepted (with_sent (with_sent start)) behind last refl
          (finish-closes wifi 32 behind)

  -- `vd_write` of 32 bytes that fit into the client's buffer behind its position returns FR_OK and
  -- the number 32; the bytes stand in that buffer, and the position has moved behind them, or the
  -- buffer is empty again because it was full.
  segment_written :
      (btw : ℕ)
      → 0 < btw
      → let out = vd_write buff btw m in
        (out.1.status ≡ fr_ok)
        × (out.1.written ≡ some 32)
        × (out.0.wire.vd_data
            ≡ closed
                (record at_start { buffer = copy_bytes at_start.buffer at_start.file_pos buff })
                32)
  segment_written btw b =
      let e = vd_write-ends btw b in
      (
        ap (λ out. out.1.status) e,
        ap (λ out. out.1.written) e,
        ap (λ out. out.0.wire.vd_data) e
            ∙ written-closed wifi 32 behind
            ∙ ap (λ d. closed d 32) behind-stored,
      )
