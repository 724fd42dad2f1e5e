-- ===== src/Client/Invariant/Fault.antt =====
-- Accesses inside of the 32 bytes of `sendBuf` and `dataBuf` (`vdProcessCmd` in virtDisk.cpp of
-- WiFi-VirtDisk-Client).
use wi_fi_virt_disk.Base.{
  ℕ, zero, suc, ◌+◌, ◌*◌, ◌≤◌, ◌<◌, ◌≡◌, refl, ◌∙◌, Bool, ◌&&◌, ◌||◌, List, if◌then◌else◌, ◌==◌,
  ltb, leb, arith, if-cases, get_or, set, u8, min,
}
use wi_fi_virt_disk.Packet.{code, Command}
use wi_fi_virt_disk.Client.State.{TcpLink, Client, VdData, spi_on_data}
use wi_fi_virt_disk.Client.Control.{
  byte_at, handle_status, handle_sel_file, handle_seek_file, select_file, seek_file,
}
use wi_fi_virt_disk.Client.Read.{
  Filled, fill_loop, fill, read_file, fetch, handle_rd_file, handle_rd_next, read_sum,
}
use wi_fi_virt_disk.Client.Write.{
  Stored, store_loop, store_start, begin_write, after_store, handle_wr_file, write_next,
  flush_write, handle_wr_next,
}
use wi_fi_virt_disk.Client.Process.{dispatch, process_cmd, serve}

fill_loop-count :
    (d : VdData) (start k : ℕ) (f : Filled) → (fill_loop d start k f).count ≤ f.count + k
unfolding fill_loop
fill_loop-count d start zero f = omega arith
fill_loop-count d start (suc k) f =
    let byte = get_or d.buffer (start + f.count) 0 in
    let f' : Filled = record f {
      count = f.count + 1;
      checksum = u8 (f.checksum + byte);
      bytes = set f.bytes (f.count + 1) byte;
    } in
    if-cases (λ r. r.count ≤ f.count + suc k)
      (ltb (start + f.count) 512 && ltb (start + f.count) d.data_len) (fill_loop d start k f') f
      (λ t. omega (arith, fill_loop-count d start k f')) (λ e. omega arith)

store_loop-count :
    (buf : List ℕ) (start k : ℕ) (s : Stored) → (store_loop buf start k s).count ≤ s.count + k
unfolding store_loop
store_loop-count buf start zero s = omega arith
store_loop-count buf start (suc k) s =
    let byte = byte_at buf (s.count + 3) in
    let s' : Stored = record {
      count = s.count + 1;
      checksum = u8 (s.checksum + byte);
      buffer = set s.buffer (start + s.count) byte;
    } in
    if-cases (λ r. r.count ≤ s.count + suc k) (ltb (start + s.count) 512)
      (store_loop buf start k s') s (λ t. omega (arith, store_loop-count buf start k s'))
      (λ e. omega arith)

or_false : (a : Bool) (n : ℕ) → n < 32 → (a || leb 32 n) ≡ a
or_false a n h = ground arith

module _ {L : TcpLink} where
  fetch-fault : (c : Client L) → (fetch c).fault ≡ c.fault
  unfolding fetch
  fetch-fault c = refl

  read_file-fault : (c : Client L) (offset n : ℕ) → n ≤ 30 → (read_file c offset n).fault ≡ c.fault
  unfolding read_file fill
  read_file-fault c offset n h =
      let ready = if c.vd_data.data_len == 0 then fetch c else c in
      let same : ready.fault ≡ c.fault = ground (arith, fetch-fault c) in
      let f = fill ready.vd_data offset n in
      let count : f.count ≤ 0 + min n 32 =
        fill_loop-count ready.vd_data (ready.vd_data.file_pos + offset * 16) (min n 32) _ in
      or_false ready.fault (f.count + 1) (omega arith) ∙ same

  rd_file-fault :
      (c : Client L) (buf : List ℕ) → byte_at buf 2 ≤ 30 → (handle_rd_file c buf).fault ≡ c.fault
  unfolding handle_rd_file
  rd_file-fault c buf h =
      if-cases (λ d. d.fault ≡ c.fault) (read_sum buf == 0)
        (read_file c (byte_at buf 1) (byte_at buf 2)) _
        (λ t. read_file-fault c (byte_at buf 1) (byte_at buf 2) h) (λ f. refl)

  begin_write-fault : (c : Client L) → (begin_write c).fault ≡ c.fault
  unfolding begin_write
  begin_write-fault c = ground arith

  wr_file-fault :
      (c : Client L) (buf : List ℕ) → byte_at buf 2 ≤ 28 → (handle_wr_file c buf).fault ≡ c.fault
  unfolding handle_wr_file after_store
  wr_file-fault c buf h =
      let b = begin_write c in
      let s =
        store_loop buf (b.vd_data.file_pos + byte_at buf 1 * 16) (byte_at buf 2)
          (store_start b.vd_data buf) in
      let count =
        store_loop-count buf (b.vd_data.file_pos + byte_at buf 1 * 16) (byte_at buf 2)
          (store_start b.vd_data buf) in
      or_false b.fault (s.count + 3) (omega arith) ∙ begin_write-fault c

  others-fault :
      (c : Client L) (wifi : ℕ) (buf : List ℕ)
      → ((handle_status c wifi buf).fault ≡ c.fault)
        × ((handle_sel_file c buf).fault ≡ c.fault)
        × ((handle_rd_next c buf).fault ≡ c.fault)
        × ((handle_wr_next c buf).fault ≡ c.fault)
        × ((handle_seek_file c buf).fault ≡ c.fault)
  unfolding handle_status handle_sel_file select_file handle_rd_next handle_wr_next write_next
      flush_write handle_seek_file seek_file
  others-fault c wifi buf = ground arith

  -- No frame makes the client read or write behind its frame buffers, if a read asks for at most 30
  -- bytes and a write brings at most 28.
  pub serve-fault :
      (c : Client L) (wifi : ℕ) (frame : List ℕ)
      → (byte_at frame 0 ≡ code Command.rd_file → byte_at frame 2 ≤ 30)
      → (byte_at frame 0 ≡ code Command.wr_file → byte_at frame 2 ≤ 28)
      → (serve c wifi frame).fault ≡ c.fault
  unfolding serve process_cmd dispatch spi_on_data
  serve-fault c wifi frame hr hw =
      let d : Client L = spi_on_data c frame in
      let read : byte_at frame 0 ≡ 3 → (handle_rd_file d frame).fault ≡ d.fault =
        λ e. rd_file-fault d frame (hr e) in
      let write : byte_at frame 0 ≡ 5 → (handle_wr_file d frame).fault ≡ d.fault =
        λ e. wr_file-fault d frame (hw e) in
      ground (arith, read, write, others-fault d wifi frame)
