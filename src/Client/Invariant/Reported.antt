-- ===== src/Client/Invariant/Reported.antt =====
-- The flags of the connections in the runs of the client (`tcpSrvStatus`, `loop` of
-- WiFi-VirtDisk-Client.ino).
use wi_fi_virt_disk.Base.{
  ℕ, ◌+◌, ◌<◌, ◌≡◌, refl, ◌∙◌, Option, none, some, ◌==◌, if◌then◌else◌, arith, Bool-cases, inl, inr,
  List,
}
use wi_fi_virt_disk.Client.State.{TcpLink, spi_on_data}
use wi_fi_virt_disk.Client.Loop.{Poll, Board}
use wi_fi_virt_disk.Client.Loop.Flags.{flags_of}
use wi_fi_virt_disk.Client.Loop.Pass.{loop-flags}
use wi_fi_virt_disk.Client.Invariant.Reach.{frame, pass, Reach, here, next}

module _ {L : TcpLink} where
  -- What the libraries have answered in the last pass of a run that had WiFi (3 is WL_CONNECTED)
  unfoldable pub last_online : {b d : Board L} → Reach b d → Option (Poll L)
  last_online here = none
  last_online (next r (frame buf f)) = last_online r
  last_online (next r (pass p)) = if p.wifi_status == 3 then some p else last_online r

  -- The flags that a report asks for: bit 0 or 1 for the server, bit 2 or 3 for the debug server
  abbrev pub reported : ℕ → Option (Poll L) → ℕ
  reported first none = first
  reported first (some p) = (if p.tcp_connected then 1 else 2) + (if p.dbg_connected then 4 else 8)

  spi_on_data_keeps :
      (b : Board L) (buf : List ℕ)
      → (spi_on_data b.client buf).tcp_srv_status ≡ b.client.tcp_srv_status
  unfolding spi_on_data
  spi_on_data_keeps b buf = ground arith

  reported_small : (first : ℕ) (o : Option (Poll L)) → first < 16 → reported first o < 16
  reported_small first none h = h
  reported_small first (some p) h = ground arith

  -- In every run of frames of the master and passes of the main loop, in any order, the flags are
  -- those of the last pass that had WiFi: 1 if the server was connected there and 2 if not, and
  -- 4 or 8 in the same way for the debug server. Before such a pass they are the first flags, which
  -- are less than 16.
  pub Reach-flags :
      {b d : Board L}
      → b.client.tcp_srv_status < 16
      → (r : Reach b d) → d.client.tcp_srv_status ≡ reported b.client.tcp_srv_status (last_online r)
  unfolding last_online flags_of
  Reach-flags small here = refl
  Reach-flags small (next {d = d} r (frame buf f)) = spi_on_data_keeps d buf ∙ Reach-flags small r
  Reach-flags {b = b} small (next {d = d} r (pass p)) =
      let before = Reach-flags small r in
      let first = b.client.tcp_srv_status in
      let low = reported_small first (last_online r) small in
      let flags = loop-flags p d (omega (arith, before, low)) in
      elim (Bool-cases (p.wifi_status == 3)) [
        | inl online ↦ rw online (flags ∙ ground (arith, online))
        | inr offline ↦ rw offline (flags ∙ rw offline before)
      ]
