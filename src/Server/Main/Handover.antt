-- ===== src/Server/Main/Handover.antt =====
-- The hand-over of a connection from an old thread to a new one, over the runs of the server
-- (`main`, `handleTcpClient` and `handleDbgClient` of WiFi-VirtDisk-Server.cpp).
use wi_fi_virt_disk.Base.{
  ℕ, ◌≡◌, ◌≢◌, refl, sym, Bool, true, false, ◌&&◌, List, Option, none, some, if◌then◌else◌, ◌==◌,
  arith, ne→==_false, if-cases, subst,
}
use wi_fi_virt_disk.Server.Device.{LibDsk}
use wi_fi_virt_disk.Server.State.{Config}
use wi_fi_virt_disk.Server.Main.{
  Thread, Hub, hand_over, same_socket, accept_tcp, accept_dbg, press_key, debug_key, reload_key,
}
use wi_fi_virt_disk.Server.Main.Workers.{
  Received, bytes, closed, failed, tcp_round, dbg_round, handle_bytes, send_debug,
}

-- One of the threads does something, in any order.
pub data Step {D : LibDsk} (g : Config) (h : Hub D) : Hub D → Type 0 where
  tcp_connected : (socket : ℕ) → Step g h (accept_tcp socket h)
  dbg_connected : (socket : ℕ) → Step g h (accept_dbg socket h)
  key_pressed : (key : ℕ) (special : Bool) → Step g h (press_key key special h)
  tcp_served : (t : Thread) (r : Received) → Step g h (tcp_round g t r h)
  dbg_served : (socket : ℕ) → Step g h (dbg_round socket h)

pub data Reach {D : LibDsk} (g : Config) (h : Hub D) : Hub D → Type 0 where
  here : Reach g h h
  next : {h' h'' : Hub D} → Reach g h h' → Step g h' h'' → Reach g h h''

-- The socket that is to be closed is not the last one.
abbrev pub Apart : Option ℕ → Option ℕ → Type 0
Apart none old = Unit {0}
Apart (some s) none = ⊥
Apart (some s) (some o) = s ≢ o

abbrev pub IsHub : {D : LibDsk} → Hub D → Type 0
IsHub h = Apart h.close_tcp h.old_tcp × Apart h.close_dbg h.old_dbg

Apart-kept :
    (close old : Option ℕ) (b : Bool) → Apart close old → Apart (if b then none else close) old
Apart-kept close old true a = tt
Apart-kept close old false a = a

hand_over-Apart :
    (socket : ℕ) (close old : Option ℕ)
    → Apart close old
    → Apart (hand_over socket close old).0 (hand_over socket close old).1
hand_over-Apart socket none none a = tt
hand_over-Apart socket (some s) none a = absurd a
hand_over-Apart socket close (some old) a =
    if-cases {A = Option ℕ × Option ℕ} (λ r. Apart r.0 r.1) (old == socket) (close, some old)
      (some old, some socket) (λ t. a) (λ f e. differs e f)
  where
    differs : old ≡ socket → (old == socket) ≡ false → ⊥
    differs e f = ground arith

same_socket-last :
    (close : Option ℕ) (socket : ℕ) → Apart close (some socket) → same_socket close socket ≡ false
same_socket-last none socket a = refl
same_socket-last (some s) socket a = ne→==_false s socket a

-- The last sockets stay, and the sockets to close are those given.
abbrev Marks : {D : LibDsk} → Hub D → Option ℕ → Option ℕ → Hub D → Type 0
Marks h tcp dbg d =
    (d.old_tcp ≡ h.old_tcp) × (d.old_dbg ≡ h.old_dbg) × (d.close_tcp ≡ tcp) × (d.close_dbg ≡ dbg)

module _ {D : LibDsk} where
  press_key-Marks :
      (key : ℕ) (special : Bool) (h : Hub D)
      → Marks h h.close_tcp h.close_dbg (press_key key special h)
  unfolding press_key debug_key reload_key
  press_key-Marks key special h = (ground arith, ground arith, ground arith, ground arith)

  dbg_round-Marks :
      (socket : ℕ) (h : Hub D)
      → let closing = h.dbg_data_ready && same_socket h.close_dbg socket in
        Marks h h.close_tcp (if closing then none else h.close_dbg) (dbg_round socket h)
  unfolding dbg_round send_debug
  dbg_round-Marks socket h = (ground arith, ground arith, ground arith, ground arith)

module _ {D : LibDsk} (g : Config) where
  handle_bytes-Marks :
      (t : Thread) (got : List ℕ) (h : Hub D)
      → Marks h h.close_tcp h.close_dbg (handle_bytes g t got h)
  unfolding handle_bytes
  handle_bytes-Marks t got h = (ground arith, ground arith, ground arith, ground arith)

  tcp_round-Marks :
      (t : Thread) (r : Received) (h : Hub D)
      → let closing = h.srv_running && same_socket h.close_tcp t.socket in
        Marks h (if closing then none else h.close_tcp) h.close_dbg (tcp_round g t r h)
  unfolding tcp_round
  tcp_round-Marks t (bytes got) h =
      let (o, p, c, d) = handle_bytes-Marks t got h in
      (ground (arith, o), ground (arith, p), ground (arith, c), ground (arith, d))
  tcp_round-Marks t closed h = (ground arith, ground arith, ground arith, ground arith)
  tcp_round-Marks t failed h = (ground arith, ground arith, ground arith, ground arith)

  marked-IsHub :
      (h d : Hub D) (b c : Bool)
      → Marks h (if b then none else h.close_tcp) (if c then none else h.close_dbg) d
      → IsHub h
      → IsHub d
  marked-IsHub h d b c (o, p, e, f) (x, y) = (
    subst (λ z. Apart z d.old_tcp) (sym e)
        (subst (Apart _) (sym o) (Apart-kept h.close_tcp h.old_tcp b x)),
    subst (λ z. Apart z d.old_dbg) (sym f)
        (subst (Apart _) (sym p) (Apart-kept h.close_dbg h.old_dbg c y)),
  )

  Step-IsHub : {h d : Hub D} → Step g h d → IsHub h → IsHub d
  unfolding accept_tcp accept_dbg
  Step-IsHub {h = h} (tcp_connected socket) (x, y) =
      (hand_over-Apart socket h.close_tcp h.old_tcp x, y)
  Step-IsHub {h = h} (dbg_connected socket) (x, y) =
      (x, hand_over-Apart socket h.close_dbg h.old_dbg y)
  Step-IsHub {h = h} (key_pressed key special) v =
      marked-IsHub h (press_key key special h) false false (press_key-Marks key special h) v
  Step-IsHub {h = h} (tcp_served t r) v =
      marked-IsHub h (tcp_round g t r h) _ false (tcp_round-Marks t r h) v
  Step-IsHub {h = h} (dbg_served socket) v =
      marked-IsHub h (dbg_round socket h) false _ (dbg_round-Marks socket h) v

  Reach-IsHub : {h d : Hub D} → IsHub h → Reach g h d → IsHub d
  Reach-IsHub v here = v
  Reach-IsHub v (next r s) = Step-IsHub s (Reach-IsHub v r)

  tcp_round-served :
      (t : Thread) (got : List ℕ) (h : Hub D)
      → h.srv_running ≡ true
      → same_socket h.close_tcp t.socket ≡ false
      → tcp_round g t (bytes got) h ≡ handle_bytes g t got h
  unfolding tcp_round
  tcp_round-served t got h run e = rw (run, e) refl

  -- In every run from a start where no socket is to be closed, and in every order of the steps, the
  -- thread of the last connection is never told to leave: what it receives while the server runs is
  -- processed.
  pub last_served :
      {h d : Hub D}
      → h.close_tcp ≡ none
      → h.close_dbg ≡ none
      → Reach g h d
      → (t : Thread) (got : List ℕ) → d.old_tcp ≡ some t.socket
      → d.srv_running ≡ true
      → tcp_round g t (bytes got) d ≡ handle_bytes g t got d
  last_served {h} {d} c c' r t got last run =
      let start : IsHub h =
        (subst (λ z. Apart z h.old_tcp) (sym c) tt, subst (λ z. Apart z h.old_dbg) (sym c') tt) in
      let apart = (Reach-IsHub start r).0 in
      tcp_round-served t got d run
        (same_socket-last d.close_tcp t.socket (subst (Apart d.close_tcp) last apart))
