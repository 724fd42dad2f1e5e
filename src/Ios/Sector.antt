-- ===== src/Ios/Sector.antt =====
-- READSECT over the 512 bytes of a sector.
use wi_fi_virt_disk.Base.{
  ℕ, zero, suc, ◌+◌, ◌*◌, ◌<◌, ◌≡◌, ◌≢◌, refl, ap, ◌∙◌, sym, subst, List, [], ◌∷◌, ◌++◌,
  append_assoc, arith, length, get_or, ne→==_false, length-append,
}
use wi_fi_virt_disk.Client.Fill.{window}
use wi_fi_virt_disk.Ios.Disk.{Storage, DiskState, first_seek, read_sect, no_operation}
use wi_fi_virt_disk.Ios.Segments.{reads, segment_bytes}

pub window-append :
    (xs : List ℕ) (at a b : ℕ) → window xs at (a + b) ≡ window xs at a ++ window xs (at + a) b
unfolding window
window-append xs at zero b =
    let same : zero + b ≡ b = omega arith in
    let here : at ≡ at + zero = omega arith in ap (window xs at) same ∙ ap (λ k. window xs k b) here
window-append xs at (suc a) b =
    let count : suc a + b ≡ suc (a + b) = omega arith in
    let here : at + 1 + a ≡ at + suc a = omega arith in
    ap (window xs at) count
    ∙ ap (λ ys. get_or xs at 0 ∷ ys)
        (window-append xs (at + 1) a b ∙ ap (λ k. window xs (at + 1) a ++ window xs k b) here)

pub length-window : (xs : List ℕ) (at n : ℕ) → length (window xs at n) ≡ n
unfolding window
length-window xs at zero = refl
length-window xs at (suc n) = ap suc (length-window xs (at + 1) n)

get_or-append_at :
    (pre : List ℕ) (y : ℕ) (ys : List ℕ) → get_or (pre ++ (y ∷ ys)) (length pre) 0 ≡ y
get_or-append_at [] y ys = refl
get_or-append_at (x ∷ pre) y ys = get_or-append_at pre y ys

pub window_self : (pre ys : List ℕ) → window (pre ++ ys) (length pre) (length ys) ≡ ys
unfolding window
window_self pre [] = refl
window_self pre (y ∷ ys) =
    let next : length pre + 1 ≡ length (pre ++ (y ∷ [])) =
      omega (arith, length-append pre (y ∷ [])) in
    let moved : pre ++ (y ∷ ys) ≡ (pre ++ (y ∷ [])) ++ ys = sym (append_assoc pre (y ∷ []) ys) in
    let head = get_or-append_at pre y ys in
    let rest =
      ap (λ k. window (pre ++ (y ∷ ys)) k (length ys)) next
      ∙ ap (λ l. window l (length (pre ++ (y ∷ []))) (length ys)) moved
      ∙ window_self (pre ++ (y ∷ [])) ys in
    λ i. head i ∷ rest i

-- A buffer that holds a window is that window.
window-window : (xs : List ℕ) (at : ℕ) → window (window xs at 32) 0 32 ≡ window xs at 32
window-window xs at =
    ap (window (window xs at 32) 0) (sym (length-window xs at 32))
    ∙ window_self [] (window xs at 32)

module _ {S : Storage} where
  reads-append :
      (a b : ℕ) (d : DiskState S)
      → reads (a + b) d ≡ ((reads b (reads a d).0).0, (reads a d).1 ++ (reads b (reads a d).0).1)
  unfolding reads
  reads-append zero b d = let same : zero + b ≡ b = omega arith in ap (λ k. reads k d) same
  reads-append (suc a) b d =
      let count : suc a + b ≡ suc (a + b) = omega arith in
      let got = read_sect d in
      ap (λ k. reads k d) count
      ∙ ap {B = DiskState S × List ℕ} (λ r. (r.0, got.io_data ∷ r.1)) (reads-append a b got)

  later_seek : (d : DiskState S) → d.io_byte_cnt ≢ 0 → first_seek d ≡ d
  unfolding first_seek
  later_seek d h = rw (ne→==_false d.io_byte_cnt 0 h) refl

  module _ (xs : List ℕ) (at : ℕ) (P : ℕ → S.State → Type 0)
      (feed : (k : ℕ) (s : S.State) (buff : List ℕ)
        → k < 16
        → P k s
        → length buff ≡ 32
        → (after : S.State) × (S.read_sd s buff ≡ (after, 0, window xs (at + 32 * k) 32, 32))
          × P (suc k) after) where
    -- The state behind the sector
    abbrev pub Done : DiskState S → Type 0
    Done d =
        (d.disk_err ≡ 0) × (d.io_byte_cnt ≡ 512) × (d.io_opcode ≡ no_operation) × P 16 d.storage

    one_segment :
        (k : ℕ) (d : DiskState S)
        → k < 16
        → d.io_byte_cnt ≡ 32 * k
        → (first_seek d).disk_err ≡ 0
        → P k (first_seek d).storage
        → length (first_seek d).buffer_sd ≡ 32
        → ((reads 32 d).1 ≡ window xs (at + 32 * k) 32)
          × P (suc k) (reads 32 d).0.storage
          × (length (reads 32 d).0.buffer_sd ≡ 32)
          × ((reads 32 d).0.disk_err ≡ 0)
          × ((reads 32 d).0.io_byte_cnt ≡ 32 * k + 32)
          × (32 * k + 32 ≡ 512 → (reads 32 d).0.io_opcode ≡ no_operation)
    one_segment k d small count ok here size =
        let e = first_seek d in
        let (after, got, there) = feed k e.storage e.buffer_sd small here size in
        let buff = window xs (at + 32 * k) 32 in
        let (bytes, (storage, buffer, fine, counted, _, ended)) =
          segment_bytes d k after buff small count ok got in
        (
          bytes ∙ window-window xs (at + 32 * k),
          subst (P (suc k)) (sym storage) there,
          ap length buffer ∙ length-window xs (at + 32 * k) 32,
          fine,
          counted,
          ended,
        )

    segments :
        (n k : ℕ) (d : DiskState S)
        → n + k ≡ 15
        → d.io_byte_cnt ≡ 32 * k
        → (first_seek d).disk_err ≡ 0
        → P k (first_seek d).storage
        → length (first_seek d).buffer_sd ≡ 32
        → ((reads (32 * n + 32) d).1 ≡ window xs (at + 32 * k) (32 * n + 32))
          × Done (reads (32 * n + 32) d).0
    segments zero k d sum count ok here size =
        let (bytes, there, _, fine, counted, ended) =
          one_segment k d (omega arith) count ok here size in
        let last : suc k ≡ 16 = omega arith in
        let stays = subst (λ j. P j (reads 32 d).0.storage) last there in
        (bytes, (fine, counted ∙ omega arith, ended (omega arith), stays))
    segments (suc n) k d sum count ok here size =
        let (bytes, there, size', fine, counted, _) =
          one_segment k d (omega arith) count ok here size in
        let next = (reads 32 d).0 in
        let keeps = sym (later_seek next (λ z. omega arith)) in
        let (rest, done) =
          segments n (suc k) next (omega arith) (counted ∙ omega arith)
            (subst (λ e. e.disk_err ≡ 0) keeps fine) (subst (λ e. P (suc k) e.storage) keeps there)
            (subst (λ e. length e.buffer_sd ≡ 32) keeps size') in
        let all : 32 * suc n + 32 ≡ 32 + (32 * n + 32) = omega arith in
        let place : at + 32 * suc k ≡ at + 32 * k + 32 = omega arith in
        let split = ap (λ c. reads c d) all ∙ reads-append 32 (32 * n + 32) d in
        (
          ap (λ r. r.1) split
              ∙ (λ i. bytes i ++ rest i)
              ∙ ap (λ p. window xs (at + 32 * k) 32 ++ window xs p (32 * n + 32)) place
              ∙ sym (window-append xs (at + 32 * k) 32 (32 * n + 32))
              ∙ ap (window xs (at + 32 * k)) (sym all),
          subst (λ r. Done r.0) (sym split) done,
        )

    -- The 512 calls of READSECT give 512 bytes in order, if the seek before the first one is good
    -- and the storage gives 32 bytes at each of 16 reads from then on. There is no error, and the
    -- opcode is done.
    pub sector_bytes :
        (d : DiskState S)
        → d.io_byte_cnt ≡ 0
        → (first_seek d).disk_err ≡ 0
        → P 0 (first_seek d).storage
        → length (first_seek d).buffer_sd ≡ 32
        → ((reads 512 d).1 ≡ window xs at 512) × Done (reads 512 d).0
    sector_bytes d count ok here size =
        let start : at + 32 * 0 ≡ at = omega arith in
        let (bytes, done) = segments 15 0 d refl count ok here size in
        (bytes ∙ ap (λ p. window xs p 512) start, done)
