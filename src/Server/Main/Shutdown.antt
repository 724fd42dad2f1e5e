-- ===== src/Server/Main/Shutdown.antt =====
-- The end of the server (`main` in WiFi-VirtDisk-Server.cpp): it waits for all threads.
use wi_fi_virt_disk.Base.{
  ℕ, ◌≡◌, refl, ap, ◌∙◌, Bool, true, false, List, [], ◌∷◌, Option, none, some, if◌then◌else◌, ◌==◌,
  arith, ==_refl,
}
use wi_fi_virt_disk.Server.Device.{LibDsk}
use wi_fi_virt_disk.Server.State.{Config}
use wi_fi_virt_disk.Server.Main.{Thread, Hub, close_disks}
use wi_fi_virt_disk.Server.Main.Workers.{
  Received, tcp_round, dbg_round, send_debug, without, without_dbg,
}

-- The thread of that socket has not ended.
abbrev is_waiting : ℕ → List ℕ → Bool
is_waiting socket [] = false
is_waiting socket (s ∷ ss) = if s == socket then true else is_waiting socket ss

module _ {D : LibDsk} where
  -- The loop of `join` over `tcpClientThreads`: each thread makes the round at whose start it sees
  -- that the server does not run.
  unfoldable pub join_tcp : Config → (Thread → Received) → List Thread → Hub D → Hub D
  join_tcp g r [] h = h
  join_tcp g r (t ∷ ts) h = join_tcp g r ts (tcp_round g t (r t) h)

  -- The round of the thread that `notify_one` wakes up, if one sleeps
  abbrev wake_up : Option ℕ → Hub D → Hub D
  wake_up none h = h
  wake_up (some socket) h = dbg_round socket h

  -- The loop over `dbgClientThreads`: the flag is set for each thread, and `wake` chooses the one of
  -- those asleep that wakes up. `none` is a `join` that does not end, as the thread sleeps on. The
  -- threads that have ended before are left out; a `join` of them returns.
  unfoldable pub join_dbg : (List ℕ → Option ℕ) → List ℕ → Hub D → Option (Hub D)
  join_dbg wake [] h = some h
  join_dbg wake (s ∷ ss) h =
      let d = wake_up (wake h.dbg_threads) (record h { dbg_data_ready = true }) in
      let rest = join_dbg wake ss d in if is_waiting s d.dbg_threads then none else rest

  -- What follows the main loop
  unfoldable pub shutdown :
      Config → (Thread → Received) → (List ℕ → Option ℕ) → Hub D → Option (Hub D)
  shutdown g r wake h =
      let closed = close_disks h in
      let joined = join_tcp g r closed.tcp_threads closed in join_dbg wake joined.dbg_threads joined

  -- A state that `Q` has led to, with these threads left
  abbrev Stopping : List Thread → List ℕ → Hub D → Type 0
  Stopping ts ss h = (h.srv_running ≡ false) × (h.tcp_threads ≡ ts) × (h.dbg_threads ≡ ss)

  stopped_round :
      (g : Config) (r : Received) (t : Thread) (h : Hub D)
      → h.srv_running ≡ false
      → tcp_round g t r h ≡ record h { tcp_threads = without t.socket h.tcp_threads }
  unfolding tcp_round
  stopped_round g r t h run = rw run refl

  join_tcp-Stopping :
      (g : Config) (r : Thread → Received) (ts : List Thread) (ss : List ℕ) (h : Hub D)
      → Stopping ts ss h
      → Stopping [] ss (join_tcp g r ts h)
  unfolding join_tcp
  join_tcp-Stopping g r [] ss h v = v
  join_tcp-Stopping g r (t ∷ ts) ss h (run, left, dbg) =
      let e = stopped_round g (r t) t h run in
      let first : without t.socket (t ∷ ts) ≡ ts = rw (==_refl t.socket) refl in
      join_tcp-Stopping g r ts ss (tcp_round g t (r t) h) (
        ap (λ d. d.srv_running) e ∙ run,
        ap (λ d. d.tcp_threads) e ∙ ap (without t.socket) left ∙ first,
        ap (λ d. d.dbg_threads) e ∙ dbg,
      )

  woken_round :
      (s : ℕ) (h : Hub D)
      → h.srv_running ≡ false
      → let d = dbg_round s (record h { dbg_data_ready = true }) in
        (d.srv_running ≡ false)
        × (d.tcp_threads ≡ h.tcp_threads)
        × (d.dbg_threads ≡ without_dbg s h.dbg_threads)
  unfolding dbg_round send_debug
  woken_round s h run = (ground (arith, run), ground (arith, run), ground (arith, run))

  woken_threads :
      (wake : List ℕ → Option ℕ) (s : ℕ) (ss : List ℕ) (h : Hub D)
      → h.srv_running ≡ false
      → h.dbg_threads ≡ ss
      → wake ss ≡ some s
      → let d = wake_up (wake h.dbg_threads) (record h { dbg_data_ready = true }) in
        (d.tcp_threads ≡ h.tcp_threads) × (d.dbg_threads ≡ without_dbg s ss)
  woken_threads wake s ss h run asleep chosen =
      let (_, left, dbg) = woken_round s h run in
      let e = ap wake asleep ∙ chosen in rw e (left, dbg ∙ ap (without_dbg s) asleep)

  single_joined :
      (wake : List ℕ → Option ℕ) (s : ℕ) (h : Hub D)
      → Stopping [] (s ∷ []) h
      → wake (s ∷ []) ≡ some s
      → (d : Hub D) × (join_dbg wake (s ∷ []) h ≡ some d)
        × (d.tcp_threads ≡ [])
        × (d.dbg_threads ≡ [])
  unfolding join_dbg
  single_joined wake s h (run, left, dbg) chosen =
      let d = wake_up (wake h.dbg_threads) (record h { dbg_data_ready = true }) in
      let (tcp, gone) = woken_threads wake s (s ∷ []) h run dbg chosen in
      let none_left : d.dbg_threads ≡ [] = gone ∙ ap (λ b. if b then [] else s ∷ []) (==_refl s) in
      (d, ap (λ l. if is_waiting s l then none else some d) none_left, tcp ∙ left, none_left)

  close_disks-Stopping :
      (h : Hub D) → h.srv_running ≡ false → Stopping h.tcp_threads h.dbg_threads (close_disks h)
  unfolding close_disks
  close_disks-Stopping h run = (run, refl, refl)

  joined-Stopping :
      (g : Config) (r : Thread → Received) (ss : List ℕ) (h : Hub D)
      → h.srv_running ≡ false
      → h.dbg_threads ≡ ss
      → let closed = close_disks h in Stopping [] ss (join_tcp g r closed.tcp_threads closed)
  unfolding close_disks
  joined-Stopping g r ss h run asleep =
      let closed = close_disks h in
      let (run', left, dbg) = close_disks-Stopping h run in
      join_tcp-Stopping g r closed.tcp_threads ss closed (run', left, dbg ∙ asleep)

  -- After `Q`, with one debug thread, which `notify_one` wakes up: the waits of `main` end, and
  -- whatever the clients send, no thread is left.
  pub shutdown-threads :
      (g : Config) (r : Thread → Received) (wake : List ℕ → Option ℕ) (s : ℕ) (h : Hub D)
      → h.srv_running ≡ false
      → h.dbg_threads ≡ s ∷ []
      → wake (s ∷ []) ≡ some s
      → (d : Hub D) × (shutdown g r wake h ≡ some d) × (d.tcp_threads ≡ []) × (d.dbg_threads ≡ [])
  unfolding shutdown
  shutdown-threads g r wake s h run one chosen =
      let closed = close_disks h in
      let joined = join_tcp g r closed.tcp_threads closed in
      let v = joined-Stopping g r (s ∷ []) h run one in
      let (d, ends, tcp, dbg) = single_joined wake s joined v chosen in
      (d, ap (λ l. join_dbg wake l joined) v.2 ∙ ends, tcp, dbg)
