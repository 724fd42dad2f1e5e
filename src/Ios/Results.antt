-- ===== src/Ios/Results.antt =====
-- What the results of the IOS functions tell: `vd_open`, `vd_lseek`, `vd_status`, `vd_read` and
-- `vd_write` (virtDisk.cpp, S220718-R290823_IOS-Z80-MBC2).
use wi_fi_virt_disk.Base.{
  ℕ, zero, suc, ◌+◌, ◌-◌, ◌*◌, ◌≤◌, ◌<◌, ◌≡◌, List, none, some, arith, if◌then◌else◌, ltb, u8, take,
  drop, refl, ap, sym, ne→==_false, ◌∙◌, [],
}
use wi_fi_virt_disk.Spi.{spi_chksum_err}
use wi_fi_virt_disk.Ios.Link.{
  SpiLink, Master, wait_loop, wait_ready, command, rd_status, fr_ok, fr_not_ready, send,
}
use wi_fi_virt_disk.Ios.Control.{
  WifiState, status_loop, open_loop, seek_loop, status_frame, open_frame, seek_frame, vd_open,
  vd_lseek, vd_status,
}
use wi_fi_virt_disk.Ios.Read.{Reading, read_loop, receive, read_frame}
use wi_fi_virt_disk.Ios.Write.{Writing, write_loop, write_frame, finish_write, vd_write}

module _ {S : SpiLink} where
  wait_loop_status :
      (f d result : ℕ) (m : Master S)
      → result ≡ m.vd_status.status
      → (wait_loop f d result m).1 ≡ 0
      → (wait_loop f d result m).0.vd_status.status ≡ 0
  unfolding wait_loop rd_status
  wait_loop_status zero d result m same ok = absurd (omega arith)
  wait_loop_status (suc f) d result m same ok =
      let asked = rd_status (record m { wire = S.delay_us m.wire (d * 1000) }) in
      ground (arith, wait_loop_status f (d * 2) asked.vd_status.status asked refl)

  pub command_status :
      (m : Master S) (frame : List ℕ)
      → (command m frame).1 ≡ 0
      → (command m frame).0.vd_status.status ≡ 0
  unfolding command wait_ready
  command_status m frame ok =
      let sent = send m frame in
      let asked = rd_status (record sent { wire = S.delay_us sent.wire 500 }) in
      wait_loop_status 10 1 asked.vd_status.status asked refl ok

  open_loop_ok :
      (f attempts : ℕ) (path : List ℕ) (m : Master S)
      → (open_loop f attempts path m).1 ≡ fr_ok
      → ((open_loop f attempts path m).0.vd_status.status ≡ 0)
        × ((open_loop f attempts path m).0.vd_status.cmd_status ≡ 0)
  unfolding open_loop
  open_loop_ok zero attempts path m ok = absurd (omega arith)
  open_loop_ok (suc f) attempts path m ok =
      let m' = (command m (open_frame path)).0 in
      ground (arith, command_status m (open_frame path), open_loop_ok f (attempts + 2) [] m')

  seek_loop_ok :
      (f attempts ofs : ℕ) (m : Master S)
      → (seek_loop f attempts ofs m).1 ≡ fr_ok
      → ((seek_loop f attempts ofs m).0.vd_status.status ≡ 0)
        × ((seek_loop f attempts ofs m).0.vd_status.cmd_status ≡ 0)
  unfolding seek_loop
  seek_loop_ok zero attempts ofs m ok = absurd (omega arith)
  seek_loop_ok (suc f) attempts ofs m ok =
      let m' = (command m (seek_frame ofs)).0 in
      ground (arith, command_status m (seek_frame ofs), seek_loop_ok f (attempts + 2) ofs m')

  -- When `vd_open` returns FR_OK the last status that came in has no SPI error and no command
  -- error; and the same for `vd_lseek`.
  accepted_only :
      (path : List ℕ) (ofs : ℕ) (m : Master S)
      → ((vd_open path m).1 ≡ fr_ok
          → ((vd_open path m).0.vd_status.status ≡ 0)
            × ((vd_open path m).0.vd_status.cmd_status ≡ 0))
        × ((vd_lseek ofs m).1 ≡ fr_ok
            → ((vd_lseek ofs m).0.vd_status.status ≡ 0)
              × ((vd_lseek ofs m).0.vd_status.cmd_status ≡ 0))
  unfolding vd_open vd_lseek
  accepted_only path ofs m = (open_loop_ok 3 0 path m, seek_loop_ok 3 0 ofs m)

  status_loop_refused :
      (f attempts : ℕ) (w : WifiState) (m : Master S)
      → w.result ≡ fr_not_ready
      → (status_loop f attempts w m).1.result ≡ fr_not_ready
  unfolding status_loop
  status_loop_refused zero attempts w m h = h
  status_loop_refused (suc f) attempts w m h =
      let m' = (command m status_frame).0 in
      ground (arith, status_loop_refused f (attempts + 2) (record w { result = fr_not_ready }) m')

  -- If the first command of `vd_status` is answered with a checksum error, the function returns
  -- FR_NOT_READY, whatever the commands that it sends again give.
  status_stays_refused :
      (wifi srv : ℕ) (m : Master S)
      → (command m status_frame).1 ≡ spi_chksum_err
      → (vd_status wifi srv m).1.result ≡ fr_not_ready
  unfolding vd_status status_loop
  status_stays_refused wifi srv m bad =
      let m' = (command m status_frame).0 in
      ground (
        arith,
        status_loop_refused 2 2 (record { result = fr_not_ready; wifi = wifi; srv = srv }) m',
      )

  -- If the first frame of `vd_open` is answered with a checksum error, the function has forgotten
  -- the name: two names whose first frames leave the master in one state, with that answer, give
  -- the same state and result in the end.
  open_forgets_name :
      (path path' : List ℕ) (m : Master S)
      → (command m (open_frame path)).1 ≡ spi_chksum_err
      → command m (open_frame path') ≡ command m (open_frame path)
      → vd_open path' m ≡ vd_open path m
  unfolding vd_open open_loop
  open_forgets_name path path' m bad same = ground arith

  write_loop_complete :
      (f : ℕ) (buff : List ℕ) (w : Writing) (m : Master S)
      → w.offset < 2
      → w.data_len ≡ 16 * w.offset
      → 8 - w.attempts + (2 - w.offset) ≤ f
      → (write_loop f buff w m).1.status ≡ fr_ok
      → ((write_loop f buff w m).1.written ≡ some 32) × ((write_loop f buff w m).1.data_len ≡ 32)
  unfolding write_loop
  write_loop_complete zero buff w m o d h ok = absurd (omega arith)
  write_loop_complete (suc f) buff w m o d h ok =
      let m' = (command m (write_frame w.offset (take 16 (drop (w.offset * 16) buff)))).0 in
      let tried = record w { attempts = w.attempts + 1 } in
      let total = w.data_len + 16 in
      let stored = record tried {
        offset = w.offset + 1;
        data_len = total;
        written = if ltb 1 (w.offset + 1) then some total else w.written;
      } in
      ground (arith, write_loop_complete f buff stored m', write_loop_complete f buff tried m')

  finish_write_ok :
      (w : Writing) (m : Master S)
      → (finish_write w m).1.status ≡ fr_ok
      → (w.status ≡ fr_ok) × ((finish_write w m).1.written ≡ w.written)
  unfolding finish_write
  finish_write_ok w m ok = ground arith

  -- When `vd_write` of a segment that is not empty returns FR_OK, both halves of it were accepted,
  -- and `*bw` is 32.
  write_complete :
      (buff : List ℕ) (btw : ℕ) (m : Master S)
      → 0 < btw
      → (vd_write buff btw m).1.status ≡ fr_ok
      → (vd_write buff btw m).1.written ≡ some 32
  unfolding vd_write
  write_complete buff btw m b ok =
      let start : Writing = record {
        status = fr_ok;
        offset = 0;
        attempts = 0;
        data_len = 0;
        written = none;
      } in
      let w = (write_loop 10 buff start m).1 in
      let m' = (write_loop 10 buff start m).0 in
      let empty = finish_write (record start { written = some 0 }) m in
      let sent =
        ap (λ c. if c then empty else finish_write w m') (ne→==_false btw 0 (λ e. omega arith)) in
      let finished = finish_write_ok w m' (sym (ap (λ p. p.1.status) sent) ∙ ok) in
      let complete =
        write_loop_complete 10 buff start m (omega arith) refl (omega arith) finished.0 in
      ap (λ p. p.1.written) sent ∙ finished.1 ∙ complete.0

  -- If the client takes every command and each answer has a wrong checksum, `vd_read` sends its
  -- command for ever: no number of rounds ends its loop.
  pub read_never_ends :
      (f btr half : ℕ) (r : Reading) (m : Master S)
      → ((m' : Master S) → (command m' (read_frame half)).1 ≡ 0)
      → ((m' : Master S) → (command m' (read_frame half)).0.vd_status.cmd_status ≡ 0)
      → ((r' : Reading) (m' : Master S) → (receive btr r' m').1.offset ≡ r'.offset)
      → half < 2
      → r.offset ≡ half
      → read_loop f btr r m ≡ none
  unfolding read_loop
  read_never_ends zero btr half r m took done bad h at = refl
  read_never_ends (suc f) btr half r m took done bad h at =
      let tried = record r { attempts = u8 (r.attempts + 1) } in
      let m' = (command m (read_frame r.offset)).0 in
      let got = receive btr tried m' in
      let frame_at = ap (λ n. command m (read_frame n)) at in
      let again = read_never_ends f btr half got.1 got.0 took done bad h (bad tried m' ∙ at) in
      ground (arith, again, took m, done m, bad tried m', frame_at)
