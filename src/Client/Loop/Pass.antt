-- ===== src/Client/Loop/Pass.antt =====
-- A pass of the client's main loop (`loop` in WiFi-VirtDisk-Client.ino): the flags and pins behind
-- it.
use wi_fi_virt_disk.Base.{ℕ, ◌<◌, ◌≡◌, refl, false, List, if◌then◌else◌, ◌==◌, arith}
use wi_fi_virt_disk.Client.State.{TcpLink, Client}
use wi_fi_virt_disk.Client.Control.{
  handle_status, handle_sel_file, handle_seek_file, select_file, seek_file,
}
use wi_fi_virt_disk.Client.Read.{handle_rd_file, handle_rd_next, read_file, fetch}
use wi_fi_virt_disk.Client.Write.{
  handle_wr_file, handle_wr_next, after_store, begin_write, write_next, flush_write,
}
use wi_fi_virt_disk.Client.Process.{dispatch, process_cmd}
use wi_fi_virt_disk.Client.Loop.{Poll, Board, reconnect, loop, wl_connected}
use wi_fi_virt_disk.Client.Loop.Flags.{flags_of, polled-flags}

module _ {L : TcpLink} where
  rd_file_keeps :
      (c : Client L) (buf : List ℕ) → (handle_rd_file c buf).tcp_srv_status ≡ c.tcp_srv_status
  unfolding handle_rd_file read_file fetch
  rd_file_keeps c buf = ground arith

  wr_file_keeps :
      (c : Client L) (buf : List ℕ) → (handle_wr_file c buf).tcp_srv_status ≡ c.tcp_srv_status
  unfolding handle_wr_file after_store begin_write
  wr_file_keeps c buf = ground arith

  wr_next_keeps :
      (c : Client L) (buf : List ℕ) → (handle_wr_next c buf).tcp_srv_status ≡ c.tcp_srv_status
  unfolding handle_wr_next write_next flush_write
  wr_next_keeps c buf = ground arith

  others_keep :
      (c : Client L) (wifi : ℕ) (buf : List ℕ)
      → ((handle_status c wifi buf).tcp_srv_status ≡ c.tcp_srv_status)
        × ((handle_sel_file c buf).tcp_srv_status ≡ c.tcp_srv_status)
        × ((handle_rd_next c buf).tcp_srv_status ≡ c.tcp_srv_status)
        × ((handle_seek_file c buf).tcp_srv_status ≡ c.tcp_srv_status)
  unfolding handle_status handle_sel_file select_file handle_rd_next handle_seek_file seek_file
  others_keep c wifi buf = ground arith

  -- No command changes the flags.
  pub process_cmd_keeps :
      (c : Client L) (wifi : ℕ) → (process_cmd c wifi).tcp_srv_status ≡ c.tcp_srv_status
  unfolding process_cmd dispatch
  process_cmd_keeps c wifi =
      let buf = c.spi_data_buf in
      ground (
        arith,
        rd_file_keeps c buf,
        wr_file_keeps c buf,
        wr_next_keeps c buf,
        others_keep c wifi buf,
      )

  -- With WiFi a pass sets the flags to the state of the two connections; without, it leaves them as
  -- they were, whatever has become of the connections.
  pub loop-flags :
      (p : Poll L) (b : Board L)
      → b.client.tcp_srv_status < 16
      → (loop p b).client.tcp_srv_status ≡ (
          if p.wifi_status == wl_connected
          then flags_of p.tcp_connected p.dbg_connected
          else b.client.tcp_srv_status)
  unfolding loop reconnect
  loop-flags p b h =
      let served = process_cmd b.client p.wifi_status in
      let kept = process_cmd_keeps b.client p.wifi_status in
      let small : served.tcp_srv_status < 16 = omega arith in
      ground (arith, kept, polled-flags p served small)

  pub process_cmd_idle :
      (c : Client L) (wifi : ℕ) → c.spi_data_rcvd ≡ false → process_cmd c wifi ≡ c
  unfolding process_cmd
  process_cmd_idle c wifi e = rw e refl
