-- ===== src/Board/Threads.antt =====
-- What a thread of the server does with the bytes of the client (`handleTcpClient` of
-- WiFi-VirtDisk-Server.cpp), against the network that `Board.Wiring` gives the client.
use wi_fi_virt_disk.Base.{
  ℕ, ◌≡◌, refl, sym, ap, ◌∙◌, true, false, List, [], ◌∷◌, ◌++◌, arith, length, take, drop,
  take-append, pos, negsuc, subst,
}
use wi_fi_virt_disk.Packet.{Packet, packet_size, encode, decode}
use wi_fi_virt_disk.Packet.Wire.{length-encode}
use wi_fi_virt_disk.Packet.Sizes.{decode-IsPacket}
use wi_fi_virt_disk.Hspi.Words.{Bytes}
use wi_fi_virt_disk.Server.Device.{LibDsk}
use wi_fi_virt_disk.Server.State.{Config, Outcome}
use wi_fi_virt_disk.Server.Process.{process_cmd}
use wi_fi_virt_disk.Server.Sizes.{FillsBuffer, process_cmd-IsSized}
use wi_fi_virt_disk.Server.Main.{Thread, Hub, same_socket}
use wi_fi_virt_disk.Server.Main.Workers.{bytes, tcp_round, handle_bytes}
use wi_fi_virt_disk.Board.Wiring.{tcp_link, reply_bytes}

-- what has been sent, after the bytes of a reply, if there are any
abbrev pub queued : ℕ → List ℕ → List (ℕ × List ℕ) → List (ℕ × List ℕ)
queued socket [] sent = sent
queued socket (b ∷ bs) sent = (socket, b ∷ bs) ∷ sent

-- The packet that a thread sees after a receive
abbrev pub seen : Thread → List ℕ → Packet
seen t got = decode (take packet_size (got ++ drop (length got) t.buffer))

module _ {D : LibDsk} (g : Config) (t : Thread) (h : Hub D) (run : h.srv_running ≡ true)
    (going : same_socket h.close_tcp t.socket ≡ false) where
  round-handle : (got : List ℕ) → tcp_round g t (bytes got) h ≡ handle_bytes g t got h
  unfolding tcp_round
  round-handle got = rw (run, going) refl

  handle_bytes-server :
      (got : List ℕ) → (handle_bytes g t got h).server ≡ (process_cmd g h.server (seen t got)).0
  unfolding handle_bytes
  handle_bytes-server got = ground arith

  sent-queued :
      (o : Outcome D) (rest : List ℕ)
      → length (encode o.1) ≡ packet_size
      → (elim (o.2) as (λ _. List (ℕ × List ℕ)) [
        | pos _ ↦ (t.socket, take packet_size (encode o.1 ++ rest)) ∷ h.sent
        | negsuc _ ↦ h.sent
      ])
        ≡ queued t.socket (reply_bytes o) h.sent
  unfolding encode
  sent-queued (s, p, pos n) rest l =
      ap (λ b. (t.socket, b) ∷ h.sent) (take-append packet_size (encode p) rest l)
  sent-queued (s, p, negsuc n) rest l = refl

  handle_bytes-sent :
      (got : List ℕ)
      → let o = process_cmd g h.server (seen t got) in
        length (encode o.1) ≡ packet_size
        → (handle_bytes g t got h).sent ≡ queued t.socket (reply_bytes o) h.sent
  unfolding handle_bytes
  handle_bytes-sent got l =
      let o = process_cmd g h.server (seen t got) in
      ground arith ∙ sent-queued o (drop packet_size (got ++ drop (length got) t.buffer)) l

  -- A whole packet of bytes has on the server and on the socket the effect that the network of the
  -- model has: the same state, and the same reply or none. The sector buffer has its size, and a
  -- logical read of LibDsk fills it.
  pub tcp_round-tcp_link :
      FillsBuffer D
      → (raw : List ℕ) → length raw ≡ packet_size
      → Bytes raw
      → length h.server.sector ≡ 512
      → let d = tcp_round g t (bytes raw) h in
        let n = (tcp_link D g).write (h.server, []) raw in
        (d.server ≡ n.0) × (d.sent ≡ queued t.socket n.1 h.sent)
  tcp_round-tcp_link fills raw l b sector =
      let whole : seen t raw ≡ decode raw =
        ap decode (take-append packet_size raw (drop (length raw) t.buffer) l) in
      let sized =
        process_cmd-IsSized fills g h.server (decode raw) sector (decode-IsPacket raw l b) in
      let size : length (encode (process_cmd g h.server (seen t raw)).1) ≡ packet_size =
        subst (λ p. length (encode (process_cmd g h.server p).1) ≡ packet_size) (sym whole)
          (length-encode (process_cmd g h.server (decode raw)).1 sized.packet_sizes) in
      (
        ap (λ d. d.server) (round-handle raw)
            ∙ handle_bytes-server raw
            ∙ ap (λ p. (process_cmd g h.server p).0) whole,
        ap (λ d. d.sent) (round-handle raw)
            ∙ handle_bytes-sent raw size
            ∙ ap (λ p. queued t.socket (reply_bytes (process_cmd g h.server p)) h.sent) whole,
      )
