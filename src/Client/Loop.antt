-- ===== src/Client/Loop.antt =====
-- The main loop of the client (`loop` in WiFi-VirtDisk-Client.ino): the command of the master, the
-- flags of the two TCP connections, the commands of the debug server, and the WiFi reconnect.
pub mod Flags
pub mod Pass
pub mod Pins
use wi_fi_virt_disk.Base.{
  ℕ, ◌+◌, ◌-◌, ◌/◌, ◌%◌, ◌^◌, Bool, true, false, List, [], ◌∷◌, Option, none, some, if◌then◌else◌,
  ◌==◌, ltb, u32, set_flag, clear_flag,
}
use wi_fi_virt_disk.Client.State.{TcpLink, Client}
use wi_fi_virt_disk.Client.Process.{process_cmd}

-- `srvStatus_t`, by the number of the bit
abbrev pub srv_connected : ℕ
srv_connected = 0

abbrev pub srv_disconnected : ℕ
srv_disconnected = 1

abbrev pub dbg_srv_connected : ℕ
dbg_srv_connected = 2

abbrev pub dbg_srv_disconnected : ℕ
dbg_srv_disconnected = 3

-- The value of WL_CONNECTED
abbrev pub wl_connected : ℕ
wl_connected = 3

-- RECONNECT_TIME
abbrev pub reconnect_time : ℕ
reconnect_time = 5000

-- What happens at Z80_RESET_PIN and Z80_USER_PIN, true for HIGH
pub data PinStep : Type 0 where
  write_reset : Bool → PinStep
  write_user : Bool → PinStep
  delay : ℕ → PinStep

-- The `switch` over the byte of the debug server
unfoldable pub debug_steps : ℕ → List PinStep
debug_steps cmd =
    if cmd == b'R'
    then write_reset true ∷ delay 200 ∷ write_reset false ∷ []
    else if cmd == b'U'
    then write_user true
      ∷ delay 200
      ∷ write_reset true
      ∷ delay 200
      ∷ write_reset false
      ∷ delay 2000
      ∷ write_user false
      ∷ []
    else []

-- What the libraries answer in one pass: the state of the WiFi and of the connections, the first
-- byte of what the debug server has sent, `millis`, and what a reconnect does to `tcpClient`
pub record Poll (L : TcpLink) : Type 0 where
  pub wifi_status : ℕ
  pub tcp_connected : Bool
  pub tcp_connect : L.Net → L.Net
  pub dbg_connected : Bool
  pub dbg_byte : Option ℕ
  pub now : ℕ

-- The client, what the last pass did to the pins, `lastReconnect`, and the calls of `WiFi.begin`
pub record Board (L : TcpLink) : Type 0 where
  pub client : Client L
  pub pins : List PinStep
  pub last_reconnect : ℕ
  pub begins : ℕ

module _ {L : TcpLink} where
  -- The part for the VirtDisk server
  unfoldable pub poll_server : Poll L → Client L → Client L
  poll_server p c =
      let st = c.tcp_srv_status in
      if p.tcp_connected
      then record c { tcp_srv_status = set_flag (clear_flag st srv_disconnected) srv_connected }
      else record c {
        tcp_srv_status = set_flag (clear_flag st srv_connected) srv_disconnected;
        net = p.tcp_connect c.net;
      }

  -- The part for the debug server
  unfoldable pub poll_debug : Poll L → Client L → Client L × List PinStep
  poll_debug p c =
      let st = c.tcp_srv_status in
      let steps : List PinStep = elim p.dbg_byte [ none ↦ [] | some b ↦ debug_steps b ] in
      if p.dbg_connected
      then (
        record c {
          tcp_srv_status = set_flag (clear_flag st dbg_srv_disconnected) dbg_srv_connected;
        },
        steps,
      )
      else (
        record c {
          tcp_srv_status = set_flag (clear_flag st dbg_srv_connected) dbg_srv_disconnected;
        },
        [],
      )

  -- Without WiFi: the difference of the times is that of a 32-bit `unsigned long`.
  unfoldable pub reconnect : Poll L → Board L → Board L
  reconnect p b =
      if ltb reconnect_time (u32 (p.now + 2 ^ 32 - b.last_reconnect))
      then record b { last_reconnect = p.now; begins = b.begins + 1 }
      else b

  -- `loop`
  unfoldable pub loop : Poll L → Board L → Board L
  loop p b =
      let served = process_cmd b.client p.wifi_status in
      let (polled, steps) = poll_debug p (poll_server p served) in
      if p.wifi_status == wl_connected
      then record b { client = polled; pins = steps }
      else reconnect p (record b { client = served; pins = [] })
