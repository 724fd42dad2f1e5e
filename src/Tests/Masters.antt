-- ===== src/Tests/Masters.antt =====
-- The theorems on the IOS at slaves that always answer the same.
use wi_fi_virt_disk.Base.{
  false, inr, ℕ, zero, suc, min, u8, ap, ◌∙◌, ◌+◌, ◌<◌, ◌≡◌, ◌≢◌, true, some, refl, List, [], ◌∷◌,
  none, arith, take, replicate, if◌then◌else◌, ◌==◌, get_or,
}
use wi_fi_virt_disk.Spi.{spi_chksum_err, add_bytes}
use wi_fi_virt_disk.Client.State.{status_reset}
use wi_fi_virt_disk.Ios.Link.{
  SpiLink, Master, command, send, wait_ready, wait_loop, rd_status, fr_ok, rd_data,
}
use wi_fi_virt_disk.Ios.Control.{WifiState}
use wi_fi_virt_disk.Ios.Wait.{has_escape, wait_client, Deaf, wait_client-Deaf}
use wi_fi_virt_disk.Ios.Read.{Reading, read_loop, receive, read_frame, body}
use wi_fi_virt_disk.Ios.Fuel.{read_loop_total}
use wi_fi_virt_disk.Ios.Results.{read_never_ends}

-- A slave whose status is the four bytes given and whose data are those given
abbrev fixed : List ℕ → List ℕ → SpiLink
fixed status bytes = record {
  Wire = ℕ;
  transfer = λ w sent n. (w, take n (if get_or sent 0 0 == rd_data then bytes else status));
  delay_us = λ w us. w;
}

-- All is well, and the data are zeros, which fit their checksum
abbrev pub good_slave : SpiLink
good_slave = fixed (replicate 4 0) (0 ∷ [])

-- All is well, but a first byte of 1 and zeros, which do not add up to zero
abbrev garbled_slave : SpiLink
garbled_slave = fixed (replicate 4 0) (1 ∷ [])

-- Each frame is answered with a checksum error.
abbrev refusing_slave : SpiLink
refusing_slave = fixed (spi_chksum_err ∷ replicate 3 0) []

abbrev pub good : Master good_slave
good = record { wire = 0; vd_status = status_reset }

abbrev garbled : Master garbled_slave
garbled = record { wire = 0; vd_status = status_reset }

abbrev refusing : Master refusing_slave
refusing = record { wire = 0; vd_status = status_reset }

refused : (frame : List ℕ) → (command refusing frame).1 ≡ spi_chksum_err
unfolding command wait_ready wait_loop rd_status send
refused frame = refl

same_wire : (frame frame' : List ℕ) → command refusing frame' ≡ command refusing frame
unfolding command wait_ready wait_loop rd_status send
same_wire frame frame' = refl

abbrev start : ℕ → Reading
start half = record {
  status = fr_ok;
  offset = half;
  attempts = 0;
  data_len = 0;
  buff = replicate 32 0;
  taken = none;
}

took : (m : Master garbled_slave) → (command m (read_frame 0)).1 ≡ 0
unfolding command wait_ready wait_loop rd_status send
took m = refl

done : (m : Master garbled_slave) → (command m (read_frame 0)).0.vd_status.cmd_status ≡ 0
unfolding command wait_ready wait_loop rd_status send
done m = refl

-- The bytes of a slave that sends `c` and nothing else
abbrev lone : ℕ → ℕ → List ℕ
lone c n = take n (c ∷ [])

nothing_there : (n j : ℕ) → get_or (take {A = ℕ} n []) j 0 ≡ 0
nothing_there zero j = refl
nothing_there (suc n) j = refl

zeros_behind : (c n j : ℕ) → get_or (lone c n) (j + 1) 0 ≡ 0
zeros_behind c zero j = refl
zeros_behind c (suc n) j =
    let e : j + 1 ≡ suc j = omega arith in
    ap (λ k. get_or (lone c (suc n)) k 0) e ∙ nothing_there n j

first_byte : (c n : ℕ) → get_or (lone c (n + 2)) 0 0 ≡ c
first_byte c n = let e : n + 2 ≡ suc (suc n) = omega arith in ap (λ k. get_or (lone c k) 0 0) e

sum_stays : (c n i k : ℕ) → c < 256 → add_bytes c (body (lone c n) i k) ≡ c
unfolding add_bytes body
sum_stays c n i zero h = refl
sum_stays c n i (suc k) h =
    let same : u8 (c + get_or (lone c n) (i + 1) 0) ≡ c = omega (arith, zeros_behind c n i) in
    ap (λ x. add_bytes x (body (lone c n) (i + 1) k)) same ∙ sum_stays c n (i + 1) k h

-- The checksum of that slave's answer of `k` bytes
lone_sum :
    (c k : ℕ)
    → c < 256
    → let bytes = lone c (k + 2) in
      u8 (add_bytes (u8 (get_or bytes 0 0)) (body bytes 0 k) + get_or bytes (k + 1) 0) ≡ c
lone_sum c k h =
    let small : u8 c ≡ c = omega arith in
    rw (first_byte c k, zeros_behind c (k + 2) k, small, sum_stays c (k + 2) 0 k h) (omega arith)

garbled_data : (r : Reading) (m : Master garbled_slave) → (receive 16 r m).1.offset ≡ r.offset
unfolding receive
garbled_data r m = rw (lone_sum 1 (min m.vd_status.cmd_data 16) (omega arith)) refl

good_data : (r : Reading) (m : Master good_slave) → (receive 16 r m).1.offset ≡ r.offset + 1
unfolding receive
good_data r m = rw (lone_sum 0 (min m.vd_status.cmd_data 16) (omega arith)) refl

good_attempts : (r : Reading) (m : Master good_slave) → (receive 16 r m).1.attempts ≡ r.attempts
unfolding receive
good_attempts r m = rw (lone_sum 0 (min m.vd_status.cmd_data 16) (omega arith)) refl

read_loop_total_example : read_loop 10 16 (start 0) good ≢ none
read_loop_total_example =
    read_loop_total 10 16 (start 0) good good_data good_attempts (omega arith) (omega arith)
      (omega arith)

read_never_ends_example : read_loop 300 16 (start 0) garbled ≡ none
read_never_ends_example =
    read_never_ends 300 16 0 (start 0) garbled took done garbled_data (omega arith) refl

refusing-Deaf : Deaf refusing_slave
unfolding command wait_ready wait_loop rd_status send
refusing-Deaf m e = omega (arith, e)

-- The client refuses each command; ESC comes with the third round.
wait_client-Deaf_example :
    let keys : List ℕ = 0 ∷ b'x' ∷ 27 ∷ [] in
    (has_escape keys ≡ false → wait_client 0 0 keys refusing ≡ none)
    × (has_escape keys ≡ true
        → (m' : Master refusing_slave) × (v : WifiState) × (wait_client 0 0 keys refusing
            ≡ some (m', v, true)))
wait_client-Deaf_example =
    wait_client-Deaf 0 0 (0 ∷ b'x' ∷ 27 ∷ []) refusing refusing-Deaf (inr refl)
