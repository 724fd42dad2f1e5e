-- ===== src/Board/Network.antt =====
-- A packet of the client, the server that handles it, and its reply back at the client.
use wi_fi_virt_disk.Base.{
  take-all, drop-all, ℕ, suc, ◌≡◌, refl, ap, ◌∙◌, List, [], some, length, pos, negsuc, true,
}
use wi_fi_virt_disk.Packet.{Packet, packet_size, encode, decode, IsPacket}
use wi_fi_virt_disk.Packet.Wire.{length-encode, decode-encode}
use wi_fi_virt_disk.Client.State.{TcpLink, wait_loop, wait_for_tcp_data, exchange}
use wi_fi_virt_disk.Server.Device.{LibDsk}
use wi_fi_virt_disk.Server.State.{Config, Server, Outcome, replied}
use wi_fi_virt_disk.Server.Process.{process_cmd}
use wi_fi_virt_disk.Board.Wiring.{tcp_link, reply_bytes}

reply_bytes-replied : {D : LibDsk} (o : Outcome D) → o.2 ≡ replied → reply_bytes o ≡ encode o.1
reply_bytes-replied (s, p, pos n) e = refl
reply_bytes-replied (s, p, negsuc n) e = cc

exchange-arrived :
    (L : TcpLink) (n waited : L.Net) (p : Packet)
    → wait_loop L 500 (L.write n (encode p)) ≡ (waited, true)
    → exchange L n p ≡ ((L.read waited packet_size).0, some (decode (L.read waited packet_size).1))
unfolding exchange wait_for_tcp_data
exchange-arrived L n waited p e = rw e refl

module _ (D : LibDsk) (g : Config) where
  -- A reply that is there is seen at the first poll.
  wait-arrived :
      (rounds : ℕ) (s : Server D) (bytes : List ℕ)
      → length bytes ≡ packet_size
      → wait_loop (tcp_link D g) (suc rounds) (s, bytes) ≡ ((s, bytes), true)
  unfolding wait_loop
  wait-arrived rounds s bytes l = rw l refl

  -- What the client gets for a packet, where the server's answer is a reply of the right size
  pub exchange-reply :
      (s : Server D) (p : Packet)
      → IsPacket p
      → let o = process_cmd g s p in
        o.2 ≡ replied → IsPacket o.1 → exchange (tcp_link D g) (s, []) p ≡ ((o.0, []), some o.1)
  exchange-reply s p v r v' =
      let o = process_cmd g s p in
      let bytes = encode o.1 in
      let sent : (tcp_link D g).write (s, []) (encode p) ≡ (o.0, bytes) =
        ap (λ q. ((process_cmd g s q).0, reply_bytes (process_cmd g s q))) (decode-encode p v)
        ∙ ap (λ b. (o.0, b)) (reply_bytes-replied o r) in
      let size = length-encode o.1 v' in
      exchange-arrived (tcp_link D g) (s, []) (o.0, bytes) p
        (ap (wait_loop (tcp_link D g) 500) sent ∙ wait-arrived 499 o.0 bytes size)
      ∙ λ i. (
        (o.0, drop-all 536 bytes size i),
        some ((ap decode (take-all 536 bytes size) ∙ decode-encode o.1 v') i),
      )
