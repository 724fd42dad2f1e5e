-- ===== src/Tests/Hubs.antt =====
-- The theorems on the main program of the server, with two threads for clients and two for debug
-- connections.
use wi_fi_virt_disk.Base.{
  ℕ, ◌≡◌, refl, Bool, true, false, List, [], ◌∷◌, Option, some, none, if◌then◌else◌, ◌==◌, arith,
  replicate, pos,
}
use wi_fi_virt_disk.Decimal.{to_string, stoi}
use wi_fi_virt_disk.Server.State.{Server}
use wi_fi_virt_disk.Server.Sizes.{FillsBuffer}
use wi_fi_virt_disk.Server.Settings.{
  Ini, IniKey, Settings, read_config, IsParallel, read_config-IsParallel,
}
use wi_fi_virt_disk.Server.Main.{Thread, Hub, accept_tcp, accept_dbg}
use wi_fi_virt_disk.Server.Main.Workers.{bytes, failed, tcp_round, dbg_round, handle_bytes}
use wi_fi_virt_disk.Server.Main.Rounds.{replaced_leaves, replaced_twice_stays, flag_taken}
use wi_fi_virt_disk.Server.Main.Handover.{Step, here, next, tcp_connected, last_served}
use wi_fi_virt_disk.Server.Main.Shutdown.{shutdown, shutdown-threads}
use wi_fi_virt_disk.Board.Wiring.{tcp_link}
use wi_fi_virt_disk.Board.Threads.{queued, tcp_round-tcp_link}
use wi_fi_virt_disk.Tests.Fixtures.{bad_disks, config, server}
use wi_fi_virt_disk.Tests.Bytes.{replicate-Bytes}

abbrev sized_server : Server bad_disks
sized_server = record (server (b'A' ∷ [])) { sector = replicate 512 0 }

abbrev first : Thread
first = record { socket = 4; buffer = replicate 1024 0 }

-- One client and one debug connection
abbrev hub : Bool → Hub bad_disks
hub running = record {
  srv_running = running;
  close_tcp = none;
  close_dbg = none;
  old_tcp = some 4;
  old_dbg = some 5;
  dbg_cmd = b' ';
  dbg_data_ready = false;
  tcp_threads = first ∷ [];
  dbg_threads = 5 ∷ [];
  sent = [];
  server = sized_server;
}

bad_disks-FillsBuffer : FillsBuffer bad_disks
bad_disks-FillsBuffer disks dev geom buffer n = refl

abbrev zeros : List ℕ
zeros = replicate 536 0

last_served_example :
    let second : Thread = record { socket = 7; buffer = replicate 1024 0 } in
    let d = accept_tcp 7 (hub true) in
    tcp_round config second (bytes zeros) d ≡ handle_bytes config second zeros d
unfolding accept_tcp
last_served_example =
    let one : Step config (hub true) (accept_tcp 7 (hub true)) = tcp_connected 7 in
    last_served config refl refl (next here one) (record { socket = 7; buffer = replicate 1024 0 })
      zeros refl refl

tcp_round-tcp_link_example :
    let d = tcp_round config first (bytes zeros) (hub true) in
    let n = (tcp_link bad_disks config).write (sized_server, []) zeros in
    (d.server ≡ n.0) × (d.sent ≡ queued 4 n.1 [])
tcp_round-tcp_link_example =
    tcp_round-tcp_link config first (hub true) refl refl bad_disks-FillsBuffer zeros refl
      (replicate-Bytes 536 0 (omega arith)) refl

-- `notify_one` wakes up the thread that has begun to sleep last.
abbrev last_asleep : List ℕ → Option ℕ
last_asleep [] = none
last_asleep (s ∷ []) = some s
last_asleep (s ∷ s' ∷ ss) = last_asleep (s' ∷ ss)

shutdown-threads_example :
    (d : Hub bad_disks) × (shutdown config (λ t. failed) last_asleep (hub false) ≡ some d)
    × (d.tcp_threads ≡ [])
    × (d.dbg_threads ≡ [])
shutdown-threads_example =
    shutdown-threads config (λ t. failed) last_asleep 5 (hub false) refl refl refl

replaced_leaves_example :
    tcp_round config first (bytes zeros) (accept_tcp 7 (hub true)) ≡ record (hub true) {
      old_tcp = some 7;
      tcp_threads = (record { socket = 7; buffer = replicate 1024 0 }) ∷ [];
    }
replaced_leaves_example =
    replaced_leaves config first (hub true) refl refl 7 (bytes zeros) (λ e. omega arith)

replaced_twice_stays_example :
    let d = accept_tcp 9 (accept_tcp 7 (hub true)) in
    tcp_round config first (bytes zeros) d ≡ handle_bytes config first zeros d
replaced_twice_stays_example =
    replaced_twice_stays config first (hub true) refl refl 7 9 zeros (λ e. omega arith)
      (λ e. omega arith)

flag_taken_example :
    let d = dbg_round 8 (accept_dbg 8 (hub true)) in
    (dbg_round 5 d ≡ d) × (d.dbg_threads ≡ 5 ∷ 8 ∷ []) × (d.close_dbg ≡ some 5)
flag_taken_example = flag_taken (hub true) 5 8 refl (λ e. omega arith) refl

-- One emulated disk, at port 9000
abbrev value_of : IniKey → Option (List ℕ)
value_of IniKey.server_port = some (to_string 9000)
value_of IniKey.file_path = none
value_of (IniKey.disk_emu_filename n) = if n == 0 then some (b'E' ∷ []) else none
value_of (IniKey.disk_emu_path n) = if n == 0 then some (b'/' ∷ []) else none
value_of (IniKey.disk_emu_format n) = if n == 0 then some [] else none

abbrev ini : Ini
ini = record { exists = true; load_failed = false; get_value = value_of }

abbrev defaults : Settings
defaults = record { server_port = []; dbg_server_port = []; config = config }

read_config-IsParallel_example :
    (s' : Settings) × (read_config ini defaults ≡ some (s', true))
    × (stoi s'.server_port ≡ some (pos 9000))
    × (stoi s'.dbg_server_port ≡ some (pos 9001))
    × IsParallel s'.config
read_config-IsParallel_example =
    read_config-IsParallel ini defaults 9000 refl refl refl (omega arith)
      (record { paths = refl; formats = refl })
