-- ===== src/Board/WriteFrame.antt =====
-- A frame of `vd_write`, as the client's VD_CMD_WR_FILE stores it.
use wi_fi_virt_disk.Base.{
  ℕ, zero, suc, ◌+◌, ◌*◌, ◌-◌, ◌<◌, ◌≤◌, ◌≡◌, refl, ap, ◌∙◌, sym, List, [], ◌∷◌, ◌++◌, append_assoc,
  arith, length, length-append, take, drop, u8, get_or, replicate, set, drop-cons, take-append_ge,
  drop-append, get_or-drop, lt→ltb,
}
use wi_fi_virt_disk.Spi.{seal_byte, add_bytes}
use wi_fi_virt_disk.Spi.Checksum.{total, seal_byte_closes, add_bytes-total}
use wi_fi_virt_disk.Client.State.{TcpLink, Client, status_reset}
use wi_fi_virt_disk.Client.Control.{byte_at}
use wi_fi_virt_disk.Client.Write.{
  Stored, store_loop, begin_write, store_start, after_store, handle_wr_file,
}
use wi_fi_virt_disk.Ios.Read.{copy_bytes}
use wi_fi_virt_disk.Ios.Write.{write_frame}
use wi_fi_virt_disk.Board.Wiring.{spi_buffer}

-- The client's loop over the bytes of a frame, where they all fit into the buffer: they stand in
-- it from `start` on, and all are in the checksum.
store_loop-bytes :
    (buf bytes rest : List ℕ) (start n : ℕ) (s : Stored)
    → length bytes ≡ n
    → start + s.count + n ≤ 512
    → s.checksum < 256
    → drop (s.count + 3) buf ≡ bytes ++ rest
    → store_loop buf start n s ≡ record {
      count = s.count + n;
      checksum = add_bytes s.checksum bytes;
      buffer = copy_bytes s.buffer (start + s.count) bytes;
    }
unfolding store_loop add_bytes copy_bytes
store_loop-bytes buf [] rest start zero s l fit c e = ground arith
store_loop-bytes buf [] rest start (suc n) s l fit c e = absurd (omega arith)
store_loop-bytes buf (b ∷ bytes) rest start zero s l fit c e = absurd (omega arith)
store_loop-bytes buf (b ∷ bytes) rest start (suc n) s l fit c e =
    let (byte, t) = drop-cons (s.count + 3) buf b (bytes ++ rest) e 0 in
    let next : Stored = record {
      count = s.count + 1;
      checksum = u8 (s.checksum + b);
      buffer = set s.buffer (start + s.count) b;
    } in
    let shift : s.count + 1 + 3 ≡ s.count + 3 + 1 = omega arith in
    let number : s.count + 1 + n ≡ s.count + suc n = omega arith in
    let place : start + (s.count + 1) ≡ start + s.count + 1 = omega arith in
    rw (lt→ltb (start + s.count) 512 (omega arith), byte)
      (store_loop-bytes buf bytes rest start n next (omega arith) (omega arith) (omega arith)
          (ap (λ k. drop k buf) shift ∙ t)
        ∙ (λ i. record {
          count = number i;
          checksum = add_bytes next.checksum bytes;
          buffer = copy_bytes next.buffer (place i) bytes;
        }))

-- The end of VD_CMD_WR_FILE with a sum of zero
after_store_accepts :
    {L : TcpLink} (c : Client L) (buf : List ℕ) (s : Stored)
    → u8 (s.checksum + byte_at buf (s.count + 3)) ≡ 0
    → s.count + 3 < 32
    → let done = after_store c buf s in
      (done.spi_status ≡ status_reset)
      × (done.vd_data ≡ record (c.vd_data) { buffer = s.buffer })
      × (done.fault ≡ c.fault)
unfolding after_store
after_store_accepts c buf s sum small = ground arith

module _ (offset : ℕ) (bytes : List ℕ) (l : length bytes ≡ 16) where
  sealed : ℕ
  sealed = seal_byte (5 ∷ offset ∷ 16 ∷ bytes)

  abbrev filled : List ℕ
  filled = 5 ∷ offset ∷ 16 ∷ (bytes ++ (sealed ∷ replicate 12 0))

  write_buffer : spi_buffer (write_frame offset bytes) ≡ filled
  unfolding spi_buffer write_frame sealed
  write_buffer =
      let size : length (bytes ++ (sealed ∷ [])) ≡ 17 =
        length-append bytes (sealed ∷ []) ∙ omega arith in
      ap (λ t. 5 ∷ offset ∷ 16 ∷ t)
        (take-append_ge 29 (bytes ++ (sealed ∷ [])) (replicate 32 0) (omega arith)
          ∙ append_assoc bytes (sealed ∷ []) _
          ∙ ap (λ k. bytes ++ (sealed ∷ take (29 - k) (replicate 32 0))) size)

  closing_byte : byte_at filled 19 ≡ sealed
  closing_byte =
      let rest = bytes ++ (sealed ∷ replicate 12 0) in
      sym (get_or-drop 16 rest 0 0)
      ∙ ap (λ ys. get_or ys 0 0) (drop-append 16 bytes (sealed ∷ replicate 12 0) l)

  closing_sum : u8 (add_bytes (u8 (5 + offset + 16)) bytes + byte_at filled 19) ≡ 0
  unfolding sealed total
  closing_sum = omega (
    arith,
    closing_byte,
    add_bytes-total (u8 (5 + offset + 16)) bytes (omega arith),
    seal_byte_closes (5 ∷ offset ∷ 16 ∷ bytes),
  )

  -- A frame of `vd_write` whose 16 bytes fit into the client's buffer is accepted: the bytes stand in
  -- the buffer at `offset` times 16 behind the position, all else of `vdData` is as the beginning of a
  -- write leaves it, the status is reset, and no access leaves an array.
  pub write_frame_stored :
      {L : TcpLink} (c : Client L)
      → (begin_write c).vd_data.file_pos + offset * 16 + 16 ≤ 512
      → let begun = begin_write c in
        let done = handle_wr_file c (spi_buffer (write_frame offset bytes)) in
        (done.spi_status ≡ status_reset)
        × (done.vd_data ≡ record (begun.vd_data) {
          buffer = copy_bytes begun.vd_data.buffer (begun.vd_data.file_pos + offset * 16) bytes;
        })
        × (done.fault ≡ begun.fault)
  unfolding handle_wr_file
  write_frame_stored c fit =
      let begun = begin_write c in
      let start = begun.vd_data.file_pos + offset * 16 in
      let number : start + 0 ≡ start = omega arith in
      let looped =
        store_loop-bytes filled bytes (sealed ∷ replicate 12 0) start 16
          (store_start begun.vd_data filled) l (omega arith) (omega arith) refl
        ∙ (λ i. record {
          count = 16;
          checksum = add_bytes (u8 (5 + offset + 16)) bytes;
          buffer = copy_bytes begun.vd_data.buffer (number i) bytes;
        }) in
      rw (write_buffer, looped) (after_store_accepts begun filled _ closing_sum (omega arith))
