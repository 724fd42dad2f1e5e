-- ===== src/Client/Loop/Flags.antt =====
-- The flags in `tcpSrvStatus` through a pass of the client's main loop.
use wi_fi_virt_disk.Base.{
  set_flag, clear_flag, ℕ, ◌+◌, ◌*◌, ◌/◌, ◌%◌, ◌<◌, ◌≡◌, Bool, List, [], none, some, if◌then◌else◌,
  arith, if-cases,
}
use wi_fi_virt_disk.Client.State.{TcpLink, Client}
use wi_fi_virt_disk.Client.Loop.{
  Poll, poll_server, poll_debug, PinStep, debug_steps, srv_connected, srv_disconnected,
  dbg_srv_connected, dbg_srv_disconnected,
}

low_flags :
    (x : ℕ)
    → (set_flag (clear_flag x 1) 0 ≡ x / 4 * 4 + 1) × (set_flag (clear_flag x 0) 1 ≡ x / 4 * 4 + 2)
low_flags x = ground arith

high_flags :
    (x : ℕ)
    → (set_flag (clear_flag x 3) 2 ≡ x / 16 * 16 + 4 + x % 4)
      × (set_flag (clear_flag x 2) 3 ≡ x / 16 * 16 + 8 + x % 4)
high_flags x = ground arith

-- The flags that the state of the two connections gives
unfoldable pub flags_of : Bool → Bool → ℕ
flags_of tcp dbg = (if tcp then 1 else 2) + (if dbg then 4 else 8)

module _ {L : TcpLink} where
  server_flags :
      (p : Poll L) (c : Client L)
      → (poll_server p c).tcp_srv_status
        ≡ c.tcp_srv_status / 4 * 4 + (if p.tcp_connected then 1 else 2)
  unfolding poll_server
  server_flags p c =
      let x = c.tcp_srv_status in
      if-cases {A = Client L}
        (λ d. d.tcp_srv_status ≡ x / 4 * 4 + (if p.tcp_connected then 1 else 2)) p.tcp_connected
        (record c { tcp_srv_status = set_flag (clear_flag x srv_disconnected) srv_connected })
        (record c {
          tcp_srv_status = set_flag (clear_flag x srv_connected) srv_disconnected;
          net = p.tcp_connect c.net;
        })
        (λ t. rw t (low_flags x).0) (λ f. rw f (low_flags x).1)

  debug_flags :
      (p : Poll L) (c : Client L)
      → (poll_debug p c).0.tcp_srv_status
        ≡ c.tcp_srv_status / 16 * 16 + (if p.dbg_connected then 4 else 8) + c.tcp_srv_status % 4
  unfolding poll_debug
  debug_flags p c =
      let x = c.tcp_srv_status in
      let steps : List PinStep = elim p.dbg_byte [ none ↦ [] | some b ↦ debug_steps b ] in
      if-cases {A = Client L × List PinStep}
        (λ d. d.0.tcp_srv_status ≡ x / 16 * 16 + (if p.dbg_connected then 4 else 8) + x % 4)
        p.dbg_connected
        (
          record c {
            tcp_srv_status = set_flag (clear_flag x dbg_srv_disconnected) dbg_srv_connected;
          },
          steps,
        )
        (
          record c {
            tcp_srv_status = set_flag (clear_flag x dbg_srv_connected) dbg_srv_disconnected;
          },
          [],
        )
        (λ t. rw t (high_flags x).0) (λ f. rw f (high_flags x).1)

  pub polled-flags :
      (p : Poll L) (c : Client L)
      → c.tcp_srv_status < 16
      → (poll_debug p (poll_server p c)).0.tcp_srv_status ≡ flags_of p.tcp_connected p.dbg_connected
  unfolding flags_of
  polled-flags p c h = ground (arith, server_flags p c, debug_flags p (poll_server p c))
