-- ===== src/Board/Mount.antt =====
-- `vd_mount` with the client at the other end, whose main loop has set the flags of its connections.
use wi_fi_virt_disk.Base.{
  ◌||◌, some, ℕ, ◌<◌, ◌≡◌, ◌≢◌, refl, ap, ◌∙◌, not, ◌&&◌, if◌then◌else◌, ◌==◌, arith,
}
use wi_fi_virt_disk.Packet.{Command}
use wi_fi_virt_disk.Spi.{SpiStatus, spi_busy, seal_byte, add_bytes}
use wi_fi_virt_disk.Client.State.{TcpLink, Client, spi_on_data, status_reset}
use wi_fi_virt_disk.Client.Control.{status_sum, handle_status, byte_at}
use wi_fi_virt_disk.Client.Loop.{Poll, Board}
use wi_fi_virt_disk.Client.Invariant.Reach.{Reach}
use wi_fi_virt_disk.Client.Invariant.Reported.{last_online, reported, Reach-flags}
use wi_fi_virt_disk.Ios.Link.{SpiLink, Master, command, fr_ok, fr_not_ready}
use wi_fi_virt_disk.Ios.Control.{
  vd_mount, vd_status, status_loop, status_frame, srv_down, wl_connected,
}
use wi_fi_virt_disk.Board.Wiring.{spi_buffer, spi_link}
use wi_fi_virt_disk.Board.Round.{served, command-served, served-handle}

-- What `vd_status` makes of the WiFi status and the flags
abbrev pub mount_result : ℕ → ℕ → ℕ
mount_result wifi srv = if not (wifi == wl_connected) && srv_down srv then fr_not_ready else fr_ok

status_frame-bytes :
    (status_sum (spi_buffer status_frame) ≡ 0) × (byte_at (spi_buffer status_frame) 0 ≡ 1)
unfolding spi_buffer status_frame seal_byte add_bytes
status_frame-bytes = (refl, refl)

mount-answered :
    {S : SpiLink} (w s : ℕ) (m m' : Master S)
    → command m status_frame ≡ (m', 0)
    → vd_mount w s m ≡ (m', mount_result m'.vd_status.cmd_status m'.vd_status.cmd_data)
unfolding vd_mount vd_status status_loop
mount-answered w s m m' sent = rw sent refl

module _ {L : TcpLink} (wifi : ℕ) (m : Master (spi_link L wifi)) where
  abbrev answer : SpiStatus
  answer = record status_reset { cmd_status = wifi; cmd_data = m.wire.tcp_srv_status }

  served-status : (served wifi m status_frame).spi_status ≡ answer
  unfolding handle_status spi_on_data
  served-status =
      let (sum, cmd) = status_frame-bytes in
      ap (λ c. c.spi_status) (served-handle wifi m status_frame Command.status cmd) ∙ rw sum refl

  mount-status : (w s : ℕ) → (vd_mount w s m).1 ≡ mount_result wifi m.wire.tcp_srv_status
  mount-status w s =
      let shown = ap (λ c. c.status) served-status in
      let ready : (served wifi m status_frame).spi_status.status ≢ spi_busy =
        λ e. omega (arith, shown, e) in
      let answered : command m status_frame
          ≡ (record { wire = served wifi m status_frame; vd_status = answer }, 0) =
        command-served wifi m status_frame ready ∙ λ i.
        (record { wire = served wifi m status_frame; vd_status = served-status i }, shown i) in
      ap (λ r. r.1) (mount-answered w s m _ answered)

-- The IOS and its client, whose library answers with this WiFi status
abbrev pub at_client : {L : TcpLink} (wifi : ℕ) → Client L → SpiStatus → Master (spi_link L wifi)
at_client wifi c shown = record { wire = c; vd_status = shown }

-- After any run of frames of the master and passes of the client's main loop, in any order,
-- `vd_mount` returns FR_OK exactly if there is WiFi or the last pass with WiFi has found the server
-- connected, and FR_NOT_READY otherwise. The run has such a pass; the flags before it are any below
-- 16.
pub mount_after_run :
    {L : TcpLink} {b d : Board L} (wifi : ℕ) (shown : SpiStatus) (w s : ℕ) (r : Reach b d)
    (p : Poll L)
    → b.client.tcp_srv_status < 16
    → last_online r ≡ some p
    → (vd_mount w s (at_client wifi d.client shown)).1
      ≡ (if (wifi == 3) || p.tcp_connected then 0 else 2)
mount_after_run {b = b} {d} wifi shown w s r p small last =
    let flags = Reach-flags small r ∙ ap (reported b.client.tcp_srv_status) last in
    mount-status wifi (at_client wifi d.client shown) w s ∙ ground (arith, flags)
