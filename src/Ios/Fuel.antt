-- ===== src/Ios/Fuel.antt =====
-- The bounds of the IOS loops: with the fuel given to them no loop is cut short.
use wi_fi_virt_disk.Base.{
  ℕ, zero, suc, ◌+◌, ◌-◌, ◌*◌, ◌≤◌, ◌<◌, ◌≡◌, ◌≢◌, ap, List, none, some, arith, if◌then◌else◌, ltb,
  u8, take, drop,
}
use wi_fi_virt_disk.Ios.Link.{SpiLink, Master, wait_loop, command}
use wi_fi_virt_disk.Ios.Control.{WifiState, status_loop, open_loop, seek_loop}
use wi_fi_virt_disk.Ios.Read.{Reading, read_loop, next_loop, receive, read_frame}
use wi_fi_virt_disk.Ios.Write.{Writing, write_loop, write_frame}

three : (f : ℕ) → 3 ≤ f → f ≡ suc (suc (suc (f - 3)))
three f h = omega arith

five : (f : ℕ) → 5 ≤ f → f ≡ suc (suc (suc (suc (suc (f - 5)))))
five f h = omega arith

ten : (f : ℕ) → 10 ≤ f → f ≡ suc (suc (suc (suc (suc (suc (suc (suc (suc (suc (f - 10))))))))))
ten f h = omega arith

module _ {S : SpiLink} where
  -- `waitReady_spi` polls at most ten times more after the first poll: more fuel changes nothing.
  pub wait_loop_fuel :
      (f result : ℕ) (m : Master S) → 10 ≤ f → wait_loop f 1 result m ≡ wait_loop 10 1 result m
  unfolding wait_loop
  wait_loop_fuel f result m h = ap (λ n. wait_loop n 1 result m) (ten f h)

  -- The loops of `vd_status`, `vd_open` and `vd_lseek` end after three rounds: more fuel changes
  -- nothing.
  pub command_loops_fuel :
      (f : ℕ) (w : WifiState) (path : List ℕ) (ofs : ℕ) (m : Master S)
      → 3 ≤ f
      → (status_loop f 0 w m ≡ status_loop 3 0 w m)
        × (open_loop f 0 path m ≡ open_loop 3 0 path m)
        × (seek_loop f 0 ofs m ≡ seek_loop 3 0 ofs m)
  unfolding status_loop open_loop seek_loop
  command_loops_fuel f w path ofs m h = (
    ap (λ n. status_loop n 0 w m) (three f h),
    ap (λ n. open_loop n 0 path m) (three f h),
    ap (λ n. seek_loop n 0 ofs m) (three f h),
  )

  -- The loop that closes a transfer ends after five rounds.
  pub next_loop_fuel :
      (f : ℕ) (frame : List ℕ) (m : Master S)
      → 5 ≤ f
      → next_loop f 0 frame m ≡ next_loop 5 0 frame m
  unfolding next_loop
  next_loop_fuel f frame m h = ap (λ n. next_loop n 0 frame m) (five f h)

  -- The loop of `vd_write` ends by itself: with one round of fuel for each attempt that is left up to
  -- the eighth, and one for each half that is left, more fuel changes nothing. At its start that is
  -- ten, the fuel that `vd_write` gives it.
  write_loop_fuel :
      (f f' : ℕ) (buff : List ℕ) (w : Writing) (m : Master S)
      → w.offset < 2
      → 8 - w.attempts + (2 - w.offset) ≤ f
      → 8 - w.attempts + (2 - w.offset) ≤ f'
      → write_loop f buff w m ≡ write_loop f' buff w m
  unfolding write_loop
  write_loop_fuel zero f' buff w m o h h' = absurd (omega arith)
  write_loop_fuel (suc f) zero buff w m o h h' = absurd (omega arith)
  write_loop_fuel (suc f) (suc f') buff w m o h h' =
      let m' = (command m (write_frame w.offset (take 16 (drop (w.offset * 16) buff)))).0 in
      let tried = record w { attempts = w.attempts + 1 } in
      let total = w.data_len + 16 in
      let stored = record tried {
        offset = w.offset + 1;
        data_len = total;
        written = if ltb 1 (w.offset + 1) then some total else w.written;
      } in
      ground (arith, write_loop_fuel f f' buff stored m', write_loop_fuel f f' buff tried m')

  -- The loop of `vd_read` comes to an end within ten rounds, if each half whose bytes are asked for
  -- arrives with a correct checksum.
  pub read_loop_total :
      (fuel btr : ℕ) (r : Reading) (m : Master S)
      → ((r : Reading) (m : Master S) → (receive btr r m).1.offset ≡ r.offset + 1)
      → ((r : Reading) (m : Master S) → (receive btr r m).1.attempts ≡ r.attempts)
      → r.offset < 2
      → r.attempts + (2 - r.offset) ≤ 12
      → 8 - r.attempts + (2 - r.offset) ≤ fuel
      → read_loop fuel btr r m ≢ none
  unfolding read_loop
  read_loop_total zero btr r m good keeps o a h = absurd (omega arith)
  read_loop_total (suc fuel) btr r m good keeps o a h =
      let tried = record r { attempts = u8 (r.attempts + 1) } in
      let m' = (command m (read_frame r.offset)).0 in
      let r' = (receive btr tried m').1 in
      ground (
        arith,
        good tried m',
        keeps tried m',
        read_loop_total fuel btr r' (receive btr tried m').0 good keeps,
        read_loop_total fuel btr tried m' good keeps,
      )
