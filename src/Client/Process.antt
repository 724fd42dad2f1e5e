-- ===== src/Client/Process.antt =====
-- `vdProcessCmd` (virtDisk.cpp of WiFi-VirtDisk-Client) as a whole
use wi_fi_virt_disk.Base.{ℕ, false, List, if◌then◌else◌, ◌==◌}
use wi_fi_virt_disk.Packet.{code, Command}
use wi_fi_virt_disk.Client.State.{TcpLink, Client, spi_on_data}
use wi_fi_virt_disk.Client.Control.{byte_at, handle_status, handle_sel_file, handle_seek_file}
use wi_fi_virt_disk.Client.Read.{handle_rd_file, handle_rd_next}
use wi_fi_virt_disk.Client.Write.{handle_wr_file, handle_wr_next}

-- The `switch` over the first byte. Its default only prints: the status register stays as it is.
unfoldable pub dispatch : {L : TcpLink} → Client L → ℕ → List ℕ → Client L
dispatch c wifi_status buf =
    let cmd = byte_at buf 0 in
    if cmd == code Command.status
    then handle_status c wifi_status buf
    else if cmd == code Command.sel_file
    then handle_sel_file c buf
    else if cmd == code Command.rd_file
    then handle_rd_file c buf
    else if cmd == code Command.rd_next
    then handle_rd_next c buf
    else if cmd == code Command.wr_file
    then handle_wr_file c buf
    else if cmd == code Command.wr_next
    then handle_wr_next c buf
    else if cmd == code Command.seek_file
    then handle_seek_file c buf
    else c

unfoldable pub process_cmd : {L : TcpLink} → Client L → ℕ → Client L
process_cmd c wifi_status =
    if c.spi_data_rcvd
    then record (dispatch c wifi_status c.spi_data_buf) { spi_data_rcvd = false }
    else c

-- One frame from the master: the interrupt, then the main loop's call
unfoldable pub serve : {L : TcpLink} → Client L → ℕ → List ℕ → Client L
serve c wifi_status frame = process_cmd (spi_on_data c frame) wifi_status
