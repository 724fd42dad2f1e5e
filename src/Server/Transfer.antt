-- ===== src/Server/Transfer.antt =====
-- VD_CMD_RD_FILE and VD_CMD_WR_FILE of `vdProcessCmd` (virtDisk.cpp of WiFi-VirtDisk-Server/src)
use wi_fi_virt_disk.Base.{◌-◌, ◌++◌, if◌then◌else◌, str_eq, ◌==◌, length, replicate}
use wi_fi_virt_disk.Packet.{Packet, name_of}
use wi_fi_virt_disk.Packet.VdStatus
use wi_fi_virt_disk.Server.Stream.{read, write, tellg}
use wi_fi_virt_disk.Server.Device.{LibDsk}
use wi_fi_virt_disk.Server.State.{
  Config, Server, Outcome, err, message, is_emulated, sector_of, add_sector, replied, silent,
}

module _ {D : LibDsk} where
  open D use {dsk_lread, dsk_lwrite}

  -- VD_CMD_RD_FILE of an emulated disk: an error is only printed.
  unfoldable pub read_emulated : Server D → Packet → Outcome D
  read_emulated s p =
      let (disks', bytes, e) =
        dsk_lread s.disks s.drive.dev s.drive.geom s.sector (sector_of s.file_pos) in
      let done = record s { disks = disks'; sector = bytes; file_pos = add_sector s.file_pos } in
      (
        if e == 0 then done else message err done,
        record p { payload = bytes; data_len = 512; status = VdStatus.ok },
        replied,
      )

  -- VD_CMD_RD_FILE of a file: the bytes that are there, then zeros
  unfoldable pub read_plain : Server D → Packet → Outcome D
  read_plain s p =
      let (stream, got) = read s.file_stream s.files 512 in
      let count = length got in
      (
        record s {
          file_stream = stream;
          file_pos = if count == 512 then tellg stream else s.file_pos;
        },
        record p {
          payload = got ++ replicate (512 - count) 0;
          data_len = count;
          status = VdStatus.ok;
        },
        replied,
      )

  unfoldable pub rd_file : Config → Server D → Packet → Outcome D
  rd_file g s p =
      if str_eq s.filename (name_of p)
      then if is_emulated g s.filename then read_emulated s p else read_plain s p
      else (message err s, record p { status = VdStatus.file_rd_error }, replied)

  -- VD_CMD_WR_FILE of an emulated disk
  unfoldable pub write_emulated : Server D → Packet → Outcome D
  write_emulated s p =
      let (disks', e) =
        dsk_lwrite s.disks s.drive.dev s.drive.geom p.payload (sector_of s.file_pos) in
      let done = record s {
        disks = disks';
        sector = p.payload;
        file_pos = add_sector s.file_pos;
      } in
      (if e == 0 then done else message err done, p, replied)

  -- VD_CMD_WR_FILE of a file. `filePos` stays.
  unfoldable pub write_plain : Server D → Packet → Outcome D
  write_plain s p =
      let (stream, files') = write s.file_stream s.files p.payload in
      if s.file_stream.is_open
      then (record s { file_stream = stream; files = files' }, p, replied)
      else (s, p, silent)

  -- The packet goes back as it came.
  unfoldable pub wr_file : Config → Server D → Packet → Outcome D
  wr_file g s p =
      if str_eq s.filename (name_of p)
      then if is_emulated g s.filename then write_emulated s p else write_plain s p
      else (s, p, silent)
