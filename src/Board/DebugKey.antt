-- ===== src/Board/DebugKey.antt =====
-- A key at the server that restarts the Z80: `main` and `handleDbgClient` of
-- WiFi-VirtDisk-Server.cpp, and `loop` of WiFi-VirtDisk-Client.ino.
use wi_fi_virt_disk.Base.{
  ℕ, ◌≡◌, ◌⊎◌, inl, inr, refl, ap, ◌∙◌, true, false, [], ◌∷◌, some, replicate, if◌then◌else◌, ◌==◌,
  get_or,
}
use wi_fi_virt_disk.Client.State.{TcpLink}
use wi_fi_virt_disk.Client.Loop.{
  Poll, PinStep, loop, poll_debug, poll_server, reconnect, debug_steps, wl_connected,
}
use wi_fi_virt_disk.Client.Loop as Loop
use wi_fi_virt_disk.Client.Loop.Pins.{starts, drive, both_low, debug_steps-starts}
use wi_fi_virt_disk.Server.Device.{LibDsk}
use wi_fi_virt_disk.Server.Main.{Hub, same_socket, to_upper, press_key, debug_key}
use wi_fi_virt_disk.Server.Main.Workers.{dbg_round, send_debug}

asleep : {D : LibDsk} (socket : ℕ) (d : Hub D) → d.dbg_data_ready ≡ false → dbg_round socket d ≡ d
unfolding dbg_round
asleep socket d e = rw e refl

known_start :
    (cmd : ℕ)
    → (cmd ≡ b'R') ⊎ (cmd ≡ b'U')
    → (if cmd == b'R' then false ∷ [] else if cmd == b'U' then true ∷ [] else [])
      ≡ (cmd == b'U') ∷ []
known_start cmd (inl e) = rw e refl
known_start cmd (inr e) = rw e refl

module _ {D : LibDsk} (h : Hub D) (socket key cmd : ℕ) (up : to_upper key ≡ cmd)
    (known : (cmd ≡ b'R') ⊎ (cmd ≡ b'U')) where
  pressed : press_key key false h ≡ debug_key cmd h
  unfolding press_key
  pressed = elim known [ inl e ↦ rw (up, e) refl | inr e ↦ rw (up, e) refl ]

  woken :
      (c : ℕ)
      → (c ≡ b'R') ⊎ (c ≡ b'U')
      → h.srv_running ≡ true
      → same_socket h.close_dbg socket ≡ false
      → dbg_round socket (debug_key c h) ≡ record h {
        sent = (socket, c ∷ replicate 9 0) ∷ h.sent;
        dbg_cmd = b' ';
        dbg_data_ready = false;
      }
  unfolding debug_key dbg_round send_debug
  woken c (inl e) run going = rw (e, run, going) refl
  woken c (inr e) run going = rw (e, run, going) refl

module _ {L : TcpLink} (p : Poll L) (b : Loop.Board L) (cmd : ℕ) where
  pass-pins :
      p.wifi_status ≡ wl_connected
      → p.dbg_connected ≡ true
      → p.dbg_byte ≡ some cmd
      → (loop p b).pins ≡ debug_steps cmd
  unfolding loop poll_debug
  pass-pins wifi there byte = rw (wifi, there, byte) refl

-- The key `R` or `U` at the running server, small or capital, is sent once by the thread of the debug
-- server that wakes up and has not been replaced; a client with WiFi and the debug connection that
-- reads the first byte sent then starts the Z80 once, for `U` with the user button down, and leaves
-- both pins low.
pub key_restarts :
    {D : LibDsk} {L : TcpLink} (h : Hub D) (p : Poll L) (b : Loop.Board L) (socket key cmd : ℕ)
    → to_upper key ≡ cmd
    → (cmd ≡ b'R') ⊎ (cmd ≡ b'U')
    → h.srv_running ≡ true
    → same_socket h.close_dbg socket ≡ false
    → p.wifi_status ≡ wl_connected
    → p.dbg_connected ≡ true
    → p.dbg_byte ≡ some (get_or (cmd ∷ replicate 9 0) 0 0)
    → let d = dbg_round socket (press_key key false h) in
      (d.sent ≡ (socket, cmd ∷ replicate 9 0) ∷ h.sent)
      × (dbg_round socket d ≡ d)
      × (starts (loop p b).pins both_low ≡ (cmd == b'U') ∷ [])
      × (drive (loop p b).pins both_low ≡ both_low)
key_restarts h p b socket key cmd up known run going wifi there byte =
    let sent =
      ap (dbg_round socket) (pressed h socket key cmd up known)
      ∙ woken h socket key cmd up known cmd known run going in
    let pins = pass-pins p b cmd wifi there byte in
    let (low, once) = debug_steps-starts cmd in
    (
      ap (λ x. x.sent) sent,
      asleep socket (dbg_round socket (press_key key false h)) (ap (λ x. x.dbg_data_ready) sent),
      ap (λ s. starts s both_low) pins ∙ once ∙ known_start cmd known,
      ap (λ s. drive s both_low) pins ∙ low,
    )
