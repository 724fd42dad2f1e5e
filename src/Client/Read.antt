-- ===== src/Client/Read.antt =====
-- VD_CMD_RD_FILE and VD_CMD_RD_NEXT of `vdProcessCmd` (virtDisk.cpp of WiFi-VirtDisk-Client)
use wi_fi_virt_disk.Base.{
  ℕ, zero, suc, ◌+◌, ◌*◌, ◌&&◌, ◌||◌, List, Option, none, some, if◌then◌else◌, ◌==◌, ltb, leb,
  get_or, set, replicate, u8, not8, min,
}
use wi_fi_virt_disk.Packet.{Packet, code, Command}
use wi_fi_virt_disk.Packet.VdStatus
use wi_fi_virt_disk.Hspi.{set_data}
use wi_fi_virt_disk.Client.State.{
  TcpLink, Client, VdData, exchange, show_status, status_reset, status_chksum_err,
}
use wi_fi_virt_disk.Client.Control.{byte_at}

-- What an answer to VD_CMD_RD_FILE does to the client's buffer: nothing if there is none, or if the
-- server reports an error.
unfoldable pub take_answer : VdData → Option Packet → VdData
take_answer d none = d
take_answer d (some p) =
    if p.status == VdStatus.ok
    then record d { buffer = p.payload; data_len = p.data_len; file_pos = 0 }
    else d

unfoldable pub fetch : {L : TcpLink} → Client L → Client L
fetch {L} c =
    let request = record (c.packet) { cmd = code Command.rd_file; filename = c.vd_data.filename } in
    let (net', answer) = exchange L c.net request in
    record c {
      vd_data = take_answer c.vd_data answer;
      packet = elim answer [ none ↦ request | some p ↦ p ];
      net = net';
    }

-- The variables of the loop that fills `sendBuf`
pub record Filled : Type 0 where
  pub count : ℕ
  pub checksum : ℕ
  pub bytes : List ℕ

-- The loop, with the rounds left of `i < numOfBytes && i < sizeof(sendBuf)`; `start` is
-- `filePos + offset * 16`.
unfoldable pub fill_loop : VdData → ℕ → ℕ → Filled → Filled
fill_loop d start zero f = f
fill_loop d start (suc rounds) f =
    let byte = get_or d.buffer (start + f.count) 0 in
    let more = fill_loop d start rounds (record f {
      count = f.count + 1;
      checksum = u8 (f.checksum + byte);
      bytes = set f.bytes (f.count + 1) byte;
    }) in
    if ltb (start + f.count) 512 && ltb (start + f.count) d.data_len then more else f

-- The answer frame: the command, the bytes, the complement of 0xFF plus their sum
unfoldable pub fill : VdData → ℕ → ℕ → Filled
fill d offset n = fill_loop d (d.file_pos + offset * 16) (min n 32) (record {
  count = 0;
  checksum = u8 (255 + code Command.rd_file);
  bytes = set (replicate 32 0) 0 (code Command.rd_file);
})

-- VD_CMD_RD_FILE behind its checksum test. A write to `sendBuf[32]` or behind it is a fault.
unfoldable pub read_file : {L : TcpLink} → Client L → ℕ → ℕ → Client L
read_file c offset n =
    let ready = if c.vd_data.data_len == 0 then fetch c else c in
    let f = fill ready.vd_data offset n in
    let frame = set f.bytes (f.count + 1) (not8 f.checksum) in
    let sent = if ltb f.count n then f.count else n in
    show_status
      (record ready {
        send_buf = frame;
        regs = set_data frame (sent + 2);
        fault = ready.fault || leb 32 (f.count + 1);
      })
      (record status_reset { cmd_data = sent })

abbrev pub read_sum : List ℕ → ℕ
read_sum buf = u8 (byte_at buf 0 + byte_at buf 1 + byte_at buf 2 + byte_at buf 3)

unfoldable pub handle_rd_file : {L : TcpLink} → Client L → List ℕ → Client L
handle_rd_file c buf =
    if read_sum buf == 0
    then read_file c (byte_at buf 1) (byte_at buf 2)
    else show_status c (record status_chksum_err { cmd_data = byte_at buf 2 })

abbrev pub next_sum : List ℕ → ℕ
next_sum buf = u8 (byte_at buf 0 + byte_at buf 1 + byte_at buf 2)

-- the position after a read of `n` bytes, and the end of the buffer
unfoldable pub advance : VdData → ℕ → VdData
advance d n =
    let moved = d.file_pos + n in
    record d {
      file_pos = moved;
      data_len = if moved == d.data_len || moved == 512 then 0 else d.data_len;
    }

unfoldable pub handle_rd_next : {L : TcpLink} → Client L → List ℕ → Client L
handle_rd_next c buf =
    let n = byte_at buf 1 in
    if next_sum buf == 0
    then show_status (record c { vd_data = advance c.vd_data n })
        (record status_reset { cmd_data = n })
    else show_status c (record status_chksum_err { cmd_data = n })
