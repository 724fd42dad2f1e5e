-- ===== src/Server/Select.antt =====
-- VD_CMD_SEL_FILE and VD_CMD_SEEK_FILE of `vdProcessCmd`, and `vdReloadDiskImage` (virtDisk.cpp of
-- WiFi-VirtDisk-Server/src)
use wi_fi_virt_disk.Base.{
  ℕ, Bool, true, false, not, ◌||◌, List, [], ◌∷◌, ◌++◌, none, some, if◌then◌else◌, str_eq, get_or,
  pos,
}
use wi_fi_virt_disk.Packet.{Packet, name_of}
use wi_fi_virt_disk.Packet.VdStatus
use wi_fi_virt_disk.Server.Stream.{open_file, close, clear, seekg, seekp, tellg}
use wi_fi_virt_disk.Server.Device.{
  LibDsk, DeviceError, no_error, dsk_error, bad_geometry, device_open, device_close,
}
use wi_fi_virt_disk.Server.State.{
  Config, Server, Outcome, err, info, message, emu_index, is_emulated, replied, silent,
}

-- "rcpmfs,"
abbrev pub rcpmfs : List ℕ
rcpmfs = b'r' ∷ b'c' ∷ b'p' ∷ b'm' ∷ b'f' ∷ b's' ∷ b',' ∷ []

abbrev pub failed : DeviceError → Bool
failed no_error = false
failed (dsk_error e) = true
failed bad_geometry = true

module _ {D : LibDsk} where
  -- "Check for previous open file", and the result of `Device_close`
  unfoldable pub close_previous : Server D → Server D × Bool
  close_previous s =
      let (drive', disks', e) = device_close D s.drive s.disks in
      let closed = record s { drive = drive'; disks = disks' } in
      let reported = if failed e then message err closed else message info closed in
      if s.drive.opened then (reported, failed e) else (s, false)

  -- "Open the disk image", and whether that failed
  unfoldable pub open_image : Server D → Server D × Bool
  open_image s =
      let (drive', disks', e) = device_open D s.drive s.disks s.disk_path s.devopts in
      let opened = record s { drive = drive'; disks = disks' } in
      let bad = not drive'.opened || failed e in (if bad then message err opened else opened, bad)

  -- VD_CMD_SEL_FILE of emulated disk `i`
  unfoldable pub select_emulated : Config → Server D → ℕ → Packet → Outcome D
  select_emulated g s i p =
      let chosen = record s {
        disk_path = get_or g.disk_emu_path i [];
        devopts = rcpmfs ++ get_or g.disk_emu_format i [];
      } in
      let (closed, _) = close_previous chosen in
      let (opened, _) = open_image (message info closed) in
      (opened, record p { status = VdStatus.ok }, replied)

  -- VD_CMD_SEL_FILE of a file
  unfoldable pub select_plain : Config → Server D → Packet → Outcome D
  select_plain g s p =
      let closed =
        if s.file_stream.is_open then record s { file_stream = close s.file_stream } else s in
      let stream = open_file closed.file_stream closed.files (g.file_path ++ closed.filename) in
      let ready = seekp (seekg (clear stream) 0) 0 in
      if stream.is_open
      then (
        record closed { file_stream = ready; file_pos = tellg ready },
        record p { status = VdStatus.ok },
        replied,
      )
      else (
        message err (record closed { file_stream = stream }),
        record p { status = VdStatus.disk_not_found },
        replied,
      )

  unfoldable pub sel_file : Config → Server D → Packet → Outcome D
  sel_file g s p =
      let named = record s { filename = name_of p } in
      elim (emu_index g.disk_emu_filename named.filename) [
        | some i ↦ select_emulated g named i p
        | none ↦ select_plain g named p
      ]

  -- VD_CMD_SEEK_FILE of an open file
  unfoldable pub seek_plain : Server D → ℕ → Server D
  seek_plain s offset =
      let stream = seekp (seekg (clear s.file_stream) offset) offset in
      record s { file_stream = stream; file_pos = tellg stream }

  unfoldable pub seek_file : Config → Server D → Packet → Outcome D
  seek_file g s p =
      let ok = record p { status = VdStatus.ok } in
      if str_eq s.filename (name_of p)
      then if is_emulated g s.filename
        then (record s { file_pos = pos p.file_offset }, ok, replied)
        else if s.file_stream.is_open
        then (seek_plain s p.file_offset, ok, replied)
        else (s, record p { status = VdStatus.disk_not_found }, silent)
      else (s, p, silent)

  -- `vdReloadDiskImage`
  unfoldable pub reload_disk_image : Server D → Server D × Bool
  reload_disk_image s =
      let (closed, close_failed) = close_previous s in
      let (opened, open_failed) = open_image closed in (opened, not (close_failed || open_failed))
