-- ===== src/Server/Main.antt =====
-- The main loop of the server (`main` in WiFi-VirtDisk-Server.cpp): the sockets that it hands to
-- threads, and the keys. What the threads share is in `Hub`.
pub mod Workers
pub mod Rounds
pub mod Handover
pub mod Shutdown
use wi_fi_virt_disk.Base.{
  ℕ, ◌+◌, ◌-◌, Bool, true, false, not, ◌&&◌, ◌||◌, List, [], ◌∷◌, ◌++◌, Option, none, some,
  if◌then◌else◌, ◌==◌, leb, replicate,
}
use wi_fi_virt_disk.Server.Device.{LibDsk, device_close}
use wi_fi_virt_disk.Server.State.{Server, err, info, message}
use wi_fi_virt_disk.Server.Stream.{close}
use wi_fi_virt_disk.Server.Select.{reload_disk_image}

-- A thread of `handleTcpClient`: its socket and its buffer of 1024 bytes
pub record Thread : Type 0 where
  pub socket : ℕ
  pub buffer : List ℕ

-- `none` is INVALID_SOCKET. The threads that run, in the order of their start, and what has been
-- sent, with its socket, the last first. `old_tcp` and `old_dbg` are variables of `main`.
pub record Hub (D : LibDsk) : Type 0 where
  pub srv_running : Bool
  pub close_tcp : Option ℕ
  pub close_dbg : Option ℕ
  pub old_tcp : Option ℕ
  pub old_dbg : Option ℕ
  pub dbg_cmd : ℕ
  pub dbg_data_ready : Bool
  pub tcp_threads : List Thread
  pub dbg_threads : List ℕ
  pub sent : List (ℕ × List ℕ)
  pub server : Server D

-- `a == b` of two sockets
abbrev pub same_socket : Option ℕ → ℕ → Bool
same_socket none b = false
same_socket (some a) b = a == b

-- `toupper`, in the C locale
abbrev pub to_upper : ℕ → ℕ
to_upper key = if leb b'a' key && leb key b'z' then key - 32 else key

-- The variable with the socket to close, and that with the last socket, when `main` gets a socket
abbrev pub hand_over : ℕ → Option ℕ → Option ℕ → Option ℕ × Option ℕ
hand_over socket close none = (close, some socket)
hand_over socket close (some old) =
    if old == socket then (close, some old) else (some old, some socket)

-- `oldDbgClient` is set and is another socket.
abbrev pub is_replaced : ℕ → Option ℕ → Bool
is_replaced socket none = false
is_replaced socket (some old) = not (old == socket)

module _ {D : LibDsk} where
  -- A connection to the VirtDisk server
  unfoldable pub accept_tcp : ℕ → Hub D → Hub D
  accept_tcp socket h =
      let (close', old') = hand_over socket h.close_tcp h.old_tcp in
      record h {
        close_tcp = close';
        old_tcp = old';
        tcp_threads = h.tcp_threads ++ (record { socket = socket; buffer = replicate 1024 0 }) ∷ [];
      }

  -- A connection to the debug server
  unfoldable pub accept_dbg : ℕ → Hub D → Hub D
  accept_dbg socket h =
      let (close', old') = hand_over socket h.close_dbg h.old_dbg in
      record h {
        close_dbg = close';
        old_dbg = old';
        dbg_data_ready = h.dbg_data_ready || is_replaced socket h.old_dbg;
        dbg_threads = h.dbg_threads ++ socket ∷ [];
      }

  -- `R` and `U`
  unfoldable pub debug_key : ℕ → Hub D → Hub D
  debug_key cmd h = record h { dbg_cmd = cmd; dbg_data_ready = true }

  -- `L`
  unfoldable pub reload_key : Hub D → Hub D
  reload_key h =
      let (server', ok) = reload_disk_image h.server in
      record h { server = if ok then message info server' else message err server' }

  -- A key that `isKeyPressed` has found
  unfoldable pub press_key : ℕ → Bool → Hub D → Hub D
  press_key key special h =
      let up = to_upper key in
      if special
      then h
      else if up == b'Q'
      then record h { srv_running = false }
      else if up == b'R'
      then debug_key b'R' h
      else if up == b'U'
      then debug_key b'U' h
      else if up == b'L'
      then reload_key h
      else h

  -- What follows the main loop: the open file and the emulated disk are closed.
  unfoldable pub close_disks : Hub D → Hub D
  close_disks h =
      let s = h.server in
      let closed =
        if s.file_stream.is_open then record s { file_stream = close s.file_stream } else s in
      let (drive', disks', _) = device_close D closed.drive closed.disks in
      record h { server = record closed { drive = drive'; disks = disks' } }
