-- ===== src/Board/Round.antt =====
-- A frame of the IOS and the status that it reads then, with the client at the other end.
use wi_fi_virt_disk.Base.{ℕ, ◌≡◌, ◌≢◌, refl, ap, List, ne→==_false, false}
use wi_fi_virt_disk.Spi.{spi_busy}
use wi_fi_virt_disk.Packet.{Command, code}
use wi_fi_virt_disk.Client.State.{TcpLink, Client, spi_on_data}
use wi_fi_virt_disk.Client.Control.{byte_at}
use wi_fi_virt_disk.Client.Process.{process_cmd, serve}
use wi_fi_virt_disk.Client.Reject.{handle, dispatch-handle}
use wi_fi_virt_disk.Ios.Link.{Master, send, rd_status, wait_ready, wait_loop, command}
use wi_fi_virt_disk.Board.Wiring.{spi_buffer, slave, spi_link}

module _ {L : TcpLink} (wifi : ℕ) (m : Master (spi_link L wifi)) (frame : List ℕ) where
  -- the client behind the frame
  abbrev pub served : Client L
  served = serve m.wire wifi (spi_buffer frame)

  -- A client that has left the busy state is not waited for: the master has its status at once.
  pub command-served :
      served.spi_status.status ≢ spi_busy
      → command m frame
        ≡ (record { wire = served; vd_status = served.spi_status }, served.spi_status.status)
  unfolding command send wait_ready wait_loop rd_status slave
  command-served ready = rw (ne→==_false served.spi_status.status spi_busy ready) refl

  pub served-handle :
      (cmd : Command)
      → byte_at (spi_buffer frame) 0 ≡ code cmd
      → served
        ≡ record (handle (spi_on_data m.wire (spi_buffer frame)) wifi cmd (spi_buffer frame)) {
          spi_data_rcvd = false;
        }
  unfolding serve process_cmd spi_on_data
  served-handle cmd e =
      let idle : Client L → Client L = λ c. record c { spi_data_rcvd = false } in
      ap idle
        (dispatch-handle (spi_on_data m.wire (spi_buffer frame)) wifi cmd (spi_buffer frame) e)
