-- ===== src/Client/Write.antt =====
-- VD_CMD_WR_FILE and VD_CMD_WR_NEXT of `vdProcessCmd` (virtDisk.cpp of WiFi-VirtDisk-Client)
use wi_fi_virt_disk.Base.{
  ℕ, zero, suc, ◌+◌, ◌*◌, ◌||◌, List, none, some, if◌then◌else◌, ◌==◌, ltb, leb, set, u8, u16,
}
use wi_fi_virt_disk.Packet.{code, Command}
use wi_fi_virt_disk.Client.State.{
  TcpLink, Client, VdData, exchange, show_status, status_reset, status_chksum_err,
}
use wi_fi_virt_disk.Client.Control.{byte_at}
use wi_fi_virt_disk.Client.Read.{next_sum}

-- The variables of the loop that stores the bytes of a frame
pub record Stored : Type 0 where
  pub count : ℕ
  pub checksum : ℕ
  pub buffer : List ℕ

-- The loop, with the rounds left of `i < numOfBytes`; `start` is `filePos + offset * 16`.
unfoldable pub store_loop : List ℕ → ℕ → ℕ → Stored → Stored
store_loop buf start zero s = s
store_loop buf start (suc rounds) s =
    let byte = byte_at buf (s.count + 3) in
    let more = store_loop buf start rounds (record {
      count = s.count + 1;
      checksum = u8 (s.checksum + byte);
      buffer = set s.buffer (start + s.count) byte;
    }) in
    if ltb (start + s.count) 512 then more else s

-- With no data yet, the header of the packet for the server is filled in and the position reset.
unfoldable pub begin_write : {L : TcpLink} → Client L → Client L
begin_write c =
    if c.vd_data.data_len == 0
    then record c {
      packet = record (c.packet) { cmd = code Command.wr_file; filename = c.vd_data.filename };
      vd_data = record (c.vd_data) { file_pos = 0 };
    }
    else c

-- What follows the loop: the byte behind the last one closes the sum. A read behind `dataBuf[31]`
-- is a fault.
unfoldable pub after_store : {L : TcpLink} → Client L → List ℕ → Stored → Client L
after_store begun buf s =
    show_status
      (record begun {
        vd_data = record (begun.vd_data) { buffer = s.buffer };
        fault = begun.fault || leb 32 (s.count + 3);
      })
      (if u8 (s.checksum + byte_at buf (s.count + 3)) == 0 then status_reset else status_chksum_err)

-- the loop's variables at its start: the header is in the sum
abbrev pub store_start : VdData → List ℕ → Stored
store_start d buf = record {
  count = 0;
  checksum = u8 (byte_at buf 0 + byte_at buf 1 + byte_at buf 2);
  buffer = d.buffer;
}

-- The bytes are stored before the checksum is known.
unfoldable pub handle_wr_file : {L : TcpLink} → Client L → List ℕ → Client L
handle_wr_file c buf =
    let begun = begin_write c in
    after_store begun buf (
      store_loop buf (begun.vd_data.file_pos + byte_at buf 1 * 16) (byte_at buf 2)
        (store_start begun.vd_data buf))

-- A full buffer goes to the server; its answer, or that there is none, changes nothing but `vd`.
unfoldable pub flush_write : {L : TcpLink} → Client L → Client L
flush_write {L} c =
    let request = record (c.packet) { payload = c.vd_data.buffer; data_len = c.vd_data.data_len } in
    let (net', answer) = exchange L c.net request in
    record c {
      packet = elim answer [ none ↦ request | some p ↦ p ];
      vd_data = record (c.vd_data) { file_pos = 0; data_len = 0 };
      net = net';
    }

-- VD_CMD_WR_NEXT behind its checksum test
unfoldable pub write_next : {L : TcpLink} → Client L → ℕ → Client L
write_next c n =
    let grown = record c {
      vd_data = record (c.vd_data) {
        file_pos = c.vd_data.file_pos + n;
        data_len = u16 (c.vd_data.data_len + n);
      };
    } in
    if c.vd_data.file_pos + n == 512 then flush_write grown else grown

unfoldable pub handle_wr_next : {L : TcpLink} → Client L → List ℕ → Client L
handle_wr_next c buf =
    let n = byte_at buf 1 in
    if next_sum buf == 0
    then show_status (write_next c n) (record status_reset { cmd_data = n })
    else show_status c (record status_chksum_err { cmd_data = n })
