-- ===== src/Server/Main/Rounds.antt =====
-- A connection that is replaced by another one: what the old thread does then (`main`,
-- `handleTcpClient` and `handleDbgClient` of WiFi-VirtDisk-Server.cpp).
use wi_fi_virt_disk.Base.{
  ℕ, ◌≡◌, ◌≢◌, refl, sym, ap, ◌∙◌, true, false, not, ◌||◌, List, [], ◌∷◌, ◌++◌, Option, none, some,
  arith, ne→==_false, ==_refl, replicate,
}
use wi_fi_virt_disk.Server.Device.{LibDsk}
use wi_fi_virt_disk.Server.State.{Config}
use wi_fi_virt_disk.Server.Main.{Thread, Hub, hand_over, is_replaced, accept_tcp, accept_dbg}
use wi_fi_virt_disk.Server.Main.Workers.{
  Received, bytes, tcp_round, dbg_round, handle_bytes, send_debug, without,
}

-- the other thread's
abbrev fresh : ℕ → Thread
fresh socket = record { socket = socket; buffer = replicate 1024 0 }

hand_over_ne :
    (socket last : ℕ) (close : Option ℕ)
    → last ≢ socket
    → hand_over socket close (some last) ≡ (some last, some socket)
hand_over_ne socket last close ne = rw (ne→==_false last socket ne) refl

module _ {D : LibDsk} (g : Config) (t : Thread) (h : Hub D) (run : h.srv_running ≡ true)
    (last : h.old_tcp ≡ some t.socket) where
  -- what `main` leaves for another socket
  accepted :
      (new : ℕ)
      → t.socket ≢ new
      → accept_tcp new h ≡ record h {
        close_tcp = some t.socket;
        old_tcp = some new;
        tcp_threads = h.tcp_threads ++ fresh new ∷ [];
      }
  unfolding accept_tcp
  accepted new ne =
      let e = ap (hand_over new h.close_tcp) last ∙ hand_over_ne new t.socket h.close_tcp ne in
      λ i. record h {
        close_tcp = (e i).0;
        old_tcp = (e i).1;
        tcp_threads = h.tcp_threads ++ fresh new ∷ [];
      }

  told_to_leave :
      (r : Received) (d : Hub D)
      → d.srv_running ≡ true
      → d.close_tcp ≡ some t.socket
      → tcp_round g t r d
        ≡ record d { close_tcp = none; tcp_threads = without t.socket d.tcp_threads }
  unfolding tcp_round
  told_to_leave r d run' e = rw (run', e, ==_refl t.socket) refl

  not_told :
      (got : List ℕ) (d : Hub D) (other : ℕ)
      → d.srv_running ≡ true
      → d.close_tcp ≡ some other
      → other ≢ t.socket
      → tcp_round g t (bytes got) d ≡ handle_bytes g t got d
  unfolding tcp_round
  not_told got d other run' e ne = rw (run', e, ne→==_false other t.socket ne) refl

  -- While the server runs: another connection takes the place of the last one. If the old thread
  -- gets its turn before a third connection, it leaves without looking at what it has received, the
  -- mark is taken back, and nothing is processed or sent.
  pub replaced_leaves :
      (new : ℕ) (r : Received)
      → t.socket ≢ new
      → tcp_round g t r (accept_tcp new h) ≡ record h {
        close_tcp = none;
        old_tcp = some new;
        tcp_threads = without t.socket (h.tcp_threads ++ fresh new ∷ []);
      }
  replaced_leaves new r ne =
      ap (tcp_round g t r) (accepted new ne)
      ∙ told_to_leave r
          (record h {
            close_tcp = some t.socket;
            old_tcp = some new;
            tcp_threads = h.tcp_threads ++ fresh new ∷ [];
          })
          run refl

  -- If a third connection comes before the old thread gets its turn, the mark for it is lost: the
  -- thread goes on to process what it receives.
  pub replaced_twice_stays :
      (new newer : ℕ) (got : List ℕ)
      → t.socket ≢ new
      → new ≢ newer
      → let d = accept_tcp newer (accept_tcp new h) in
        tcp_round g t (bytes got) d ≡ handle_bytes g t got d
  unfolding accept_tcp
  replaced_twice_stays new newer got ne ne' =
      let d = accept_tcp newer (accept_tcp new h) in
      let first = ap (λ x. x.old_tcp) (accepted new ne) in
      let mark : d.close_tcp ≡ some new =
        ap (λ x. (hand_over newer (accept_tcp new h).close_tcp x).0) first
        ∙ ap (λ x. x.0) (hand_over_ne newer new (accept_tcp new h).close_tcp ne') in
      not_told got d new run mark (λ e. ne (sym e))

module _ {D : LibDsk} (h : Hub D) (old new : ℕ) (last : h.old_dbg ≡ some old) (ne : old ≢ new) where
  dbg_accepted : accept_dbg new h ≡ record h {
    close_dbg = some old;
    old_dbg = some new;
    dbg_data_ready = true;
    dbg_threads = h.dbg_threads ++ new ∷ [];
  }
  unfolding accept_dbg
  dbg_accepted =
      let e = ap (hand_over new h.close_dbg) last ∙ hand_over_ne new old h.close_dbg ne in
      let other : is_replaced new h.old_dbg ≡ true =
        ap (is_replaced new) last ∙ ap not (ne→==_false old new ne) in
      let ready : (h.dbg_data_ready || is_replaced new h.old_dbg) ≡ true = ground (arith, other) in
      λ i. record h {
        close_dbg = (e i).0;
        old_dbg = (e i).1;
        dbg_data_ready = ready i;
        dbg_threads = h.dbg_threads ++ new ∷ [];
      }

  taken :
      h.srv_running ≡ true
      → let d = dbg_round new (accept_dbg new h) in
        (d.dbg_data_ready ≡ false)
        × (d.dbg_threads ≡ h.dbg_threads ++ new ∷ [])
        × (d.close_dbg ≡ some old)
  unfolding dbg_round send_debug
  taken run =
      rw (dbg_accepted, run, ne→==_false old new ne) (ground arith, ground arith, ground arith)

  asleep : (d : Hub D) → d.dbg_data_ready ≡ false → dbg_round old d ≡ d
  unfolding dbg_round
  asleep d e = rw e refl

  -- While the server runs: if the new thread of the debug server comes first, it takes the flag that
  -- was meant for the old one. The old thread then sleeps on; both threads are there, and the mark
  -- is still set.
  pub flag_taken :
      h.srv_running ≡ true
      → let d = dbg_round new (accept_dbg new h) in
        (dbg_round old d ≡ d)
        × (d.dbg_threads ≡ h.dbg_threads ++ new ∷ [])
        × (d.close_dbg ≡ some old)
  flag_taken run =
      let (ready, threads, mark) = taken run in
      (asleep (dbg_round new (accept_dbg new h)) ready, threads, mark)
