-- ===== src/Server/Main/Workers.antt =====
-- The threads of the server: `handleTcpClient` and `handleDbgClient` of WiFi-VirtDisk-Server.cpp, a
-- round of their loops at a time.
use wi_fi_virt_disk.Base.{
  ℕ, false, not, ◌||◌, List, [], ◌∷◌, ◌++◌, none, if◌then◌else◌, ◌==◌, length, take, drop,
  replicate, pos, negsuc,
}
use wi_fi_virt_disk.Packet.{packet_size, encode, decode}
use wi_fi_virt_disk.Server.Device.{LibDsk}
use wi_fi_virt_disk.Server.State.{Config}
use wi_fi_virt_disk.Server.Process.{process_cmd}
use wi_fi_virt_disk.Server.Main.{Thread, Hub, same_socket}

-- What `Receive` gives: bytes, an orderly close (0), or an error such as the timeout (below 0)
pub data Received : Type 0 where
  bytes : List ℕ → Received
  closed : Received
  failed : Received

-- the threads without that of a socket
abbrev pub without : ℕ → List Thread → List Thread
without socket [] = []
without socket (t ∷ ts) = if t.socket == socket then ts else t ∷ without socket ts

abbrev pub without_dbg : ℕ → List ℕ → List ℕ
without_dbg socket [] = []
without_dbg socket (s ∷ ss) = if s == socket then ss else s ∷ without_dbg socket ss

-- the threads with that of a socket as it is now
abbrev pub replaced : Thread → List Thread → List Thread
replaced now [] = []
replaced now (t ∷ ts) = if t.socket == now.socket then now ∷ ts else t ∷ replaced now ts

module _ {D : LibDsk} where
  -- The buffer is processed in place; what was behind the bytes received stays in it.
  unfoldable pub handle_bytes : Config → Thread → List ℕ → Hub D → Hub D
  handle_bytes g t got h =
      let received = got ++ drop (length got) t.buffer in
      let (server', p, ret) = process_cmd g h.server (decode (take packet_size received)) in
      let buffer' = encode p ++ drop packet_size received in
      let done = record h {
        tcp_threads = replaced (record t { buffer = buffer' }) h.tcp_threads;
        server = server';
      } in
      elim ret [
        | pos _ ↦ record done { sent = (t.socket, take packet_size buffer') ∷ h.sent }
        | negsuc _ ↦ done
      ]

  -- A round of `handleTcpClient`, from the test of the `while` on
  unfoldable pub tcp_round : Config → Thread → Received → Hub D → Hub D
  tcp_round g t r h =
      let left = record h { tcp_threads = without t.socket h.tcp_threads } in
      if not h.srv_running
      then left
      else if same_socket h.close_tcp t.socket
      then record left { close_tcp = none }
      else elim r [ bytes got ↦ handle_bytes g t got h | closed ↦ left | failed ↦ h ]

  -- The `switch` over `gDbgCmd`: the command is the first of the ten bytes of the buffer.
  unfoldable pub send_debug : ℕ → Hub D → Hub D
  send_debug socket h =
      if h.dbg_cmd == b'R' || h.dbg_cmd == b'U'
      then record h { sent = (socket, h.dbg_cmd ∷ replicate 9 0) ∷ h.sent; dbg_cmd = b' ' }
      else h

  -- A round of `handleDbgClient`, from one wait to the next. It sleeps while there is nothing for
  -- it; a thread that has been replaced leaves with the flag set.
  unfoldable pub dbg_round : ℕ → Hub D → Hub D
  dbg_round socket h =
      let others = without_dbg socket h.dbg_threads in
      let done = record (send_debug socket h) { dbg_data_ready = false } in
      if not h.dbg_data_ready
      then h
      else if same_socket h.close_dbg socket
      then record h { close_dbg = none; dbg_threads = others }
      else if h.srv_running
      then done
      else record done { dbg_threads = others }
