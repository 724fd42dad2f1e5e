-- ===== src/Ios/Receive.antt =====
-- A half that arrives: the second transmission of a round of `vd_read`, with a correct answer.
use wi_fi_virt_disk.Base.{
  ℕ, zero, suc, ◌+◌, ◌*◌, ◌≤◌, ◌<◌, ◌≡◌, refl, ap, ◌∙◌, sym, List, [], ◌∷◌, some, arith, u8, not8,
  get_or, set, ltb, if◌then◌else◌, min,
}
use wi_fi_virt_disk.Spi.{add_bytes}
use wi_fi_virt_disk.Spi.Checksum.{add_bytes-total}
use wi_fi_virt_disk.Client.Fill.{window}
use wi_fi_virt_disk.Ios.Link.{SpiLink, Master, rd_data}
use wi_fi_virt_disk.Ios.Read.{Reading, receive, body, copy_bytes}

-- The bytes behind the command byte of an answer are those of the list that they were copied from.
pub body-window :
    (bytes xs : List ℕ) (i at k : ℕ)
    → ((j : ℕ) → j < k → get_or bytes (i + j + 1) 0 ≡ get_or xs (at + j) 0)
    → body bytes i k ≡ window xs at k
unfolding body window
body-window bytes xs i at zero h = refl
body-window bytes xs i at (suc k) h =
    let here : i + 0 + 1 ≡ i + 1 = omega arith in
    let there : at + 0 ≡ at = omega arith in
    let first =
      ap (λ n. get_or bytes n 0) (sym here) ∙ h 0 (omega arith) ∙ ap (λ n. get_or xs n 0) there in
    let later : (j : ℕ) → j < k → get_or bytes (i + 1 + j + 1) 0 ≡ get_or xs (at + 1 + j) 0 =
      λ j hj.
        let from : i + 1 + j + 1 ≡ i + suc j + 1 = omega arith in
        let to : at + suc j ≡ at + 1 + j = omega arith in
        ap (λ n. get_or bytes n 0) from ∙ h (suc j) (omega arith) ∙ ap (λ n. get_or xs n 0) to in
    let rest = body-window bytes xs (i + 1) (at + 1) k later in λ n. first n ∷ rest n

-- What a half of 16 bytes makes of the variables of `vd_read`
abbrev pub with_half : Reading → List ℕ → Reading
with_half r bytes = record r {
  buff = copy_bytes r.buff (r.offset * 16) bytes;
  data_len = u8 (r.data_len + 16);
  offset = r.offset + 1;
  taken = if ltb 1 (r.offset + 1) then some (u8 (r.data_len + 16)) else r.taken;
}

pub receive_good :
    {S : SpiLink} (btr : ℕ) (r : Reading) (m : Master S) (half : List ℕ)
    → m.vd_status.cmd_data ≡ 16
    → 16 ≤ btr
    → let sent = S.transfer m.wire (rd_data ∷ 0 ∷ []) 18 in
      get_or sent.1 0 0 ≡ 3
      → body sent.1 0 16 ≡ half
      → get_or sent.1 17 0 ≡ not8 (add_bytes 2 half)
      → receive btr r m ≡ (record m { wire = sent.0 }, with_half r half)
unfolding receive
receive_good btr r m half len b first copied last =
    let k : min m.vd_status.cmd_data btr ≡ 16 = omega arith in
    let closed : u8 (add_bytes 3 half + not8 (add_bytes 2 half)) ≡ 0 =
      omega (arith, add_bytes-total 3 half (omega arith), add_bytes-total 2 half (omega arith)) in
    rw (k, first, copied, last, len, closed) refl

-- Bytes that are copied in two parts
pub copy_bytes-window :
    (xs : List ℕ) (k n at place : ℕ) (buff : List ℕ)
    → copy_bytes (copy_bytes buff place (window xs at k)) (place + k) (window xs (at + k) n)
      ≡ copy_bytes buff place (window xs at (k + n))
unfolding copy_bytes window
copy_bytes-window xs zero n at place buff =
    let here : place + 0 ≡ place = omega arith in
    let from : at + 0 ≡ at = omega arith in
    let all : n ≡ 0 + n = omega arith in λ i. copy_bytes buff (here i) (window xs (from i) (all i))
copy_bytes-window xs (suc k) n at place buff =
    let here : place + suc k ≡ place + 1 + k = omega arith in
    let from : at + suc k ≡ at + 1 + k = omega arith in
    let all : suc (k + n) ≡ suc k + n = omega arith in
    let stored = set buff place (get_or xs at 0) in
    (λ i.
      copy_bytes (copy_bytes stored (place + 1) (window xs (at + 1) k)) (here i)
        (window xs (from i) n))
    ∙ copy_bytes-window xs k n (at + 1) (place + 1) stored
    ∙ ap (λ total. copy_bytes buff place (window xs at total)) all
