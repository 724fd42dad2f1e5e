-- ===== src/Tests/Loops.antt =====
-- The theorems on the main loop of the client and on its settings.
use wi_fi_virt_disk.Base.{
  ℕ, ◌≤◌, ◌≡◌, refl, inr, true, false, List, [], ◌∷◌, ◌++◌, Option, some, none, arith, length,
  replicate, c_string,
}
use wi_fi_virt_disk.Decimal.{atoi}
use wi_fi_virt_disk.Client.State.{status_reset, spi_on_data}
use wi_fi_virt_disk.Client.Process.{serve}
use wi_fi_virt_disk.Client.Loop.{Poll, Board, loop}
use wi_fi_virt_disk.Client.Loop.Pins.{starts, drive, both_low}
use wi_fi_virt_disk.Client.Settings.{vd_default_port, VdConfig, save_parameters, saved_port}
use wi_fi_virt_disk.Client.Invariant.{IsFrame}
use wi_fi_virt_disk.Client.Invariant.Reach.{Step, frame, pass, Reach, here, next}
use wi_fi_virt_disk.Client.Invariant.Reported.{last_online, reported, Reach-flags}
use wi_fi_virt_disk.Client.Invariant.Fault.{serve-fault}
use wi_fi_virt_disk.Server.Main.{Hub, press_key}
use wi_fi_virt_disk.Server.Main.Workers.{dbg_round}
use wi_fi_virt_disk.Ios.Control.{vd_mount}
use wi_fi_virt_disk.Board.Mount.{at_client, mount_after_run}
use wi_fi_virt_disk.Board.DebugKey.{key_restarts}
use wi_fi_virt_disk.Tests.Bytes.{replicate-Bytes}
use wi_fi_virt_disk.Tests.Fixtures.{bad_disks, dead_link, client, server}

-- A pass with WiFi, without the server, and with that byte from the debug server
abbrev polled : Option ℕ → Poll dead_link
polled byte = record {
  wifi_status = 3;
  tcp_connected = false;
  tcp_connect = λ n. n;
  dbg_connected = true;
  dbg_byte = byte;
  now = 0;
}

abbrev board : Board dead_link
board = record { client = client; pins = []; last_reconnect = 0; begins = 0 }

abbrev zero_frame : List ℕ
zero_frame = replicate 32 0

zero_frame-IsFrame : IsFrame zero_frame
zero_frame-IsFrame = record { frame_32 = refl; frame_bytes = replicate-Bytes 32 0 (omega arith) }

-- A frame, the pass that handles it, and another frame
abbrev got : Board dead_link
got = record board { client = spi_on_data client zero_frame }

abbrev handled : Board dead_link
handled = loop (polled none) got

abbrev shown : Board dead_link
shown = record handled { client = spi_on_data handled.client zero_frame }

abbrev first : Step board got
first = frame zero_frame zero_frame-IsFrame

abbrev third : Step handled shown
third = frame zero_frame zero_frame-IsFrame

abbrev a_run : Reach board shown
a_run = next (next (next here first) (pass (polled none))) third

its_last : last_online a_run ≡ some (polled none)
unfolding last_online
its_last = refl

Reach-flags_example : shown.client.tcp_srv_status ≡ reported 0 (last_online a_run)
Reach-flags_example = Reach-flags (omega arith) a_run

-- RD_FILE of 16 bytes
abbrev read_16 : List ℕ
read_16 = 3 ∷ 0 ∷ 16 ∷ replicate 29 0

serve-fault_example : (serve client 3 read_16).fault ≡ false
serve-fault_example = serve-fault client 3 read_16 (λ e. omega arith) (λ e. omega arith)

mount_after_run_example : (vd_mount 1 1 (at_client 6 shown.client status_reset)).1 ≡ 2
mount_after_run_example =
    mount_after_run 6 status_reset 1 1 a_run (polled none) (omega arith) its_last

abbrev running : Hub bad_disks
running = record {
  srv_running = true;
  close_tcp = none;
  close_dbg = none;
  old_tcp = none;
  old_dbg = some 5;
  dbg_cmd = b' ';
  dbg_data_ready = false;
  tcp_threads = [];
  dbg_threads = 5 ∷ [];
  sent = [];
  server = server (b'A' ∷ []);
}

key_restarts_example :
    let d = dbg_round 5 (press_key b'u' false running) in
    let pins = (loop (polled (some b'U')) board).pins in
    (d.sent ≡ (5, b'U' ∷ replicate 9 0) ∷ [])
    × (dbg_round 5 d ≡ d)
    × (starts pins both_low ≡ true ∷ [])
    × (drive pins both_low ≡ both_low)
key_restarts_example =
    key_restarts running (polled (some b'U')) board 5 b'u' b'U' refl (inr refl) refl refl refl refl
      refl

abbrev no_config : VdConfig
no_config = record { version = 0; vd_server = []; vd_port = [] }

-- The default port, with one byte more in the memory behind
saved_port_example :
    let port = vd_default_port in
    let saved = (save_parameters [] port no_config).vd_port in
    (length saved ≡ 5)
    × (length port ≤ 4 → c_string (saved ++ b'6' ∷ 0 ∷ []) ≡ port)
    × (length port ≡ 5 → c_string (saved ++ b'6' ∷ 0 ∷ []) ≡ port ++ c_string (b'6' ∷ 0 ∷ []))
unfolding atoi
saved_port_example = saved_port [] vd_default_port (b'6' ∷ 0 ∷ []) no_config tt refl
