-- ===== src/Server/Process.antt =====
-- `vdProcessCmd` (virtDisk.cpp of WiFi-VirtDisk-Server/src) as a whole
use wi_fi_virt_disk.Base.{if◌then◌else◌, ◌==◌}
use wi_fi_virt_disk.Packet.{Packet, code, Command}
use wi_fi_virt_disk.Server.Device.{LibDsk}
use wi_fi_virt_disk.Server.State.{Config, Server, Outcome, silent}
use wi_fi_virt_disk.Server.Select.{sel_file, seek_file}
use wi_fi_virt_disk.Server.Transfer.{rd_file, wr_file}

-- The commands that are only printed, and all unknown ones, get no reply.
unfoldable pub process_cmd : {D : LibDsk} → Config → Server D → Packet → Outcome D
process_cmd g s p =
    if p.cmd == code Command.sel_file
    then sel_file g s p
    else if p.cmd == code Command.rd_file
    then rd_file g s p
    else if p.cmd == code Command.wr_file
    then wr_file g s p
    else if p.cmd == code Command.seek_file
    then seek_file g s p
    else (s, p, silent)
