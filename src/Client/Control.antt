-- ===== src/Client/Control.antt =====
-- VD_CMD_STATUS, VD_CMD_SEL_FILE and VD_CMD_SEEK_FILE of `vdProcessCmd` (virtDisk.cpp of
-- WiFi-VirtDisk-Client). `buf` is the frame, `dataBuf` in the source.
use wi_fi_virt_disk.Base.{
  ℕ, zero, suc, ◌+◌, ◌*◌, ◌^◌, List, none, some, if◌then◌else◌, ◌==◌, get_or, take, drop, u8,
}
use wi_fi_virt_disk.Packet.{code, Command}
use wi_fi_virt_disk.Client.State.{
  TcpLink, Client, exchange, show_status, status_reset, status_chksum_err,
}

abbrev pub byte_at : List ℕ → ℕ → ℕ
byte_at buf i = get_or buf i 0

-- the sum of a frame of fixed length
abbrev pub status_sum : List ℕ → ℕ
status_sum buf = u8 (byte_at buf 0 + byte_at buf 1)

unfoldable pub handle_status : {L : TcpLink} → Client L → ℕ → List ℕ → Client L
handle_status c wifi_status buf =
    if status_sum buf == 0
    then show_status c
        (record status_reset { cmd_status = wifi_status; cmd_data = c.tcp_srv_status })
    else show_status c status_chksum_err

-- The loop over the name of a VD_CMD_SEL_FILE frame, with the rounds left: it adds up the bytes to
-- the first zero, or 13 of them, and the byte behind the one where it stopped.
unfoldable pub name_sum : List ℕ → ℕ → ℕ → ℕ → ℕ
name_sum buf zero i checksum = u8 (checksum + byte_at buf (i + 2))
name_sum buf (suc rounds) i checksum =
    let next = name_sum buf rounds (i + 1) (u8 (checksum + byte_at buf (i + 1))) in
    if byte_at buf (i + 1) == 0 then u8 (checksum + byte_at buf (i + 2)) else next

unfoldable pub select_sum : List ℕ → ℕ
select_sum buf = name_sum buf 13 0 (byte_at buf 0)

-- VD_CMD_SEL_FILE behind its checksum test
unfoldable pub select_file : {L : TcpLink} → Client L → List ℕ → Client L
select_file {L} c buf =
    let name = take 13 (drop 1 buf) in
    let request = record (c.packet) { cmd = code Command.sel_file; filename = name } in
    let (net', answer) = exchange L c.net request in
    let chosen = record c {
      vd_data = record (c.vd_data) { filename = name; file_pos = 0; data_len = 0 };
      packet = elim answer [ none ↦ request | some p ↦ p ];
      net = net';
    } in
    show_status chosen (record status_reset { cmd_status = elim answer [ none ↦ 1 | some p ↦ 0 ] })

unfoldable pub handle_sel_file : {L : TcpLink} → Client L → List ℕ → Client L
handle_sel_file c buf =
    if select_sum buf == 0 then select_file c buf else show_status c status_chksum_err

abbrev pub seek_sum : List ℕ → ℕ
seek_sum buf =
    u8 (
      byte_at buf 0 + byte_at buf 1 + byte_at buf 2 + byte_at buf 3 + byte_at buf 4 + byte_at buf 5)

-- the four bytes of the offset, the high one first; they do not overlap, so `|` is a sum
abbrev pub seek_offset : List ℕ → ℕ
seek_offset buf =
    byte_at buf 1 * 2 ^ 24 + byte_at buf 2 * 2 ^ 16 + byte_at buf 3 * 2 ^ 8 + byte_at buf 4

-- VD_CMD_SEEK_FILE behind its checksum test
unfoldable pub seek_file : {L : TcpLink} → Client L → List ℕ → Client L
seek_file {L} c buf =
    let request = record (c.packet) {
      cmd = code Command.seek_file;
      filename = c.vd_data.filename;
      file_offset = seek_offset buf;
    } in
    let (net', answer) = exchange L c.net request in
    show_status (record c { packet = elim answer [ none ↦ request | some p ↦ p ]; net = net' })
      (record status_reset { cmd_status = elim answer [ none ↦ 1 | some p ↦ 0 ] })

-- The buffered data are dropped on both branches.
unfoldable pub handle_seek_file : {L : TcpLink} → Client L → List ℕ → Client L
handle_seek_file c buf =
    let dropped = record (c.vd_data) { data_len = 0 } in
    if seek_sum buf == 0
    then record (seek_file c buf) { vd_data = dropped }
    else record (show_status c status_chksum_err) { vd_data = dropped }
