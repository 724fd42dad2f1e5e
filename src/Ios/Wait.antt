-- ===== src/Ios/Wait.antt =====
-- The wait for the client at the start (`setup` in S220718-R290823_IOS-Z80-MBC2.ino).
use wi_fi_virt_disk.Base.{
  zero, suc, ◌+◌, ◌≢◌, leb, Bool-cases, ℕ, ◌%◌, ◌≡◌, ◌⊎◌, inl, inr, refl, Bool, true, false, ◌&&◌,
  ◌||◌, List, [], ◌∷◌, Option, none, some, if◌then◌else◌, if-cases, ◌==◌, arith,
}
use wi_fi_virt_disk.Spi.{spi_chksum_err}
use wi_fi_virt_disk.Ios.Link.{SpiLink, Master, command, fr_ok, fr_not_ready, max_attempts}
use wi_fi_virt_disk.Ios.Control.{wl_connected, WifiState, status_frame, status_loop, vd_status}

-- ESC
abbrev escape : ℕ
escape = 0x1B

-- The client is in the WiFi and has its server.
abbrev is_up : WifiState → Bool
is_up w = (w.wifi == wl_connected) && (w.srv % 2 == 1)

-- ESC is among the characters.
unfoldable pub has_escape : List ℕ → Bool
has_escape [] = false
has_escape (key ∷ keys) = (key == escape) || has_escape keys

-- The client answers no status command without an error.
abbrev pub Deaf : SpiLink → Type 0
Deaf S = (m : Master S) → (command m status_frame).1 ≢ 0

module _ {S : SpiLink} where
  -- The loop that waits for the client, with what `Serial.read` gives in each round: the state, the
  -- last status, and whether it was cancelled
  unfoldable pub wait_rounds : List ℕ → WifiState → Master S → Option (Master S × WifiState × Bool)
  wait_rounds [] w m = none
  wait_rounds (key ∷ keys) w m =
      let (m', now) = vd_status w.wifi w.srv m in
      let rest = wait_rounds keys now m' in
      if key == escape then some (m, w, true) else if is_up now then some (m', now, false) else rest

  -- The wait, with what the variables for the status hold before
  unfoldable pub wait_client : ℕ → ℕ → List ℕ → Master S → Option (Master S × WifiState × Bool)
  wait_client wifi srv keys m = let (m', w) = vd_status wifi srv m in wait_rounds keys w m'

  deaf_status :
      (fuel attempts : ℕ) (w : WifiState) (m : Master S)
      → Deaf S
      → is_up w ≡ false
      → is_up (status_loop fuel attempts w m).1 ≡ false
  unfolding status_loop
  deaf_status zero attempts w m deaf down = down
  deaf_status (suc fuel) attempts w m deaf down =
      let Down : Master S × WifiState → Type 0 = λ r. is_up r.1 ≡ false in
      let (m', spi_stat) = command m status_frame in
      let refused = record w { result = fr_not_ready } in
      let rest = deaf_status fuel (attempts + 2) refused m' deaf down in
      if-cases Down (spi_stat == spi_chksum_err) _ _
        (λ t. if-cases Down (leb (attempts + 2) max_attempts) _ _ (λ _. rest) (λ _. down))
        (λ f.
          if-cases Down (spi_stat == 0) _ _ (λ z. absurd (deaf m (ground (arith, z)))) (λ _. refl))

  deaf_rounds :
      (keys : List ℕ) (w : WifiState) (m : Master S)
      → Deaf S
      → is_up w ≡ false
      → (has_escape keys ≡ false → wait_rounds keys w m ≡ none)
        × (has_escape keys ≡ true
            → (m' : Master S) × (v : WifiState) × (wait_rounds keys w m ≡ some (m', v, true)))
  unfolding wait_rounds has_escape vd_status
  deaf_rounds [] w m deaf down = (λ _. refl, λ e. absurd (cc))
  deaf_rounds (key ∷ keys) w m deaf down =
      let (m', now) = vd_status w.wifi w.srv m in
      let still =
        deaf_status 3 0 (record { result = fr_ok; wifi = w.wifi; srv = w.srv }) m deaf down in
      let (waits, ends) = deaf_rounds keys now m' deaf still in
      elim (Bool-cases (key == escape)) [
        | inl t ↦ (λ e. absurd (ground (arith, e, t)), λ _. (m, w, rw t refl))
        | inr f ↦ (
          λ e. rw (f, still) (waits (ground (arith, e, f))),
          λ e. let (n, v, end) = ends (ground (arith, e, f)) in (n, v, rw (f, still) end),
        )
      ]

  -- At a client that answers no status command without an error, and with variables that do not show
  -- one that is up at first, the wait goes on through all characters without ESC, and the first ESC
  -- ends it as cancelled: it never ends by itself.
  pub wait_client-Deaf :
      (wifi srv : ℕ) (keys : List ℕ) (m : Master S)
      → Deaf S
      → (wifi ≢ 3) ⊎ (srv % 2 ≡ 0)
      → (has_escape keys ≡ false → wait_client wifi srv keys m ≡ none)
        × (has_escape keys ≡ true
            → (m' : Master S) × (v : WifiState) × (wait_client wifi srv keys m
                ≡ some (m', v, true)))
  unfolding wait_client vd_status
  wait_client-Deaf wifi srv keys m deaf down =
      let first : WifiState = record { result = fr_ok; wifi = wifi; srv = srv } in
      let start : is_up first ≡ false = ground (arith, down) in
      let (m', w) = vd_status wifi srv m in
      deaf_rounds keys w m' deaf (deaf_status 3 0 first m deaf start)
