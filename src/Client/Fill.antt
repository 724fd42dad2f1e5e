-- ===== src/Client/Fill.antt =====
-- The loop of VD_CMD_RD_FILE that copies bytes of the buffer into the answer frame, where all of
-- them are there.
use wi_fi_virt_disk.Base.{
  ℕ, zero, suc, ◌+◌, ◌≤◌, ◌<◌, ◌≡◌, refl, ap, ◌∙◌, List, [], ◌∷◌, arith, u8, get_or, set, length,
  length-set, get_or-set_self, get_or-set_ne,
}
use wi_fi_virt_disk.Spi.{add_bytes}
use wi_fi_virt_disk.Hspi.Words.{Bytes}
use wi_fi_virt_disk.Client.State.{VdData}
use wi_fi_virt_disk.Client.Read.{Filled, fill_loop}

-- `k` bytes from place `at` on
unfoldable pub window : List ℕ → ℕ → ℕ → List ℕ
window xs at zero = []
window xs at (suc k) = get_or xs at 0 ∷ window xs (at + 1) k

set-lt : (xs : List ℕ) (i v j : ℕ) → get_or xs j 0 < 256 → v < 256 → get_or (set xs i v) j 0 < 256
set-lt [] i v j h hv = h
set-lt (x ∷ xs) zero v zero h hv = hv
set-lt (x ∷ xs) zero v (suc j) h hv = h
set-lt (x ∷ xs) (suc i) v zero h hv = h
set-lt (x ∷ xs) (suc i) v (suc j) h hv = set-lt xs i v j h hv

pub set-Bytes : (xs : List ℕ) (i v : ℕ) → Bytes xs → v < 256 → Bytes (set xs i v)
set-Bytes xs i v h hv j = set-lt xs i v j (h j) hv

module _ (d : VdData) (start : ℕ) where
  -- the variables after a round that copies a byte
  abbrev copied : Filled → Filled
  copied f = record {
    count = f.count + 1;
    checksum = u8 (f.checksum + get_or d.buffer (start + f.count) 0);
    bytes = set f.bytes (f.count + 1) (get_or d.buffer (start + f.count) 0);
  }

  fill_step :
      (k : ℕ) (f : Filled)
      → start + f.count < 512
      → start + f.count < d.data_len
      → fill_loop d start (suc k) f ≡ fill_loop d start k (copied f)
  unfolding fill_loop
  fill_step k f h h' = ground arith

  fill_none : (f : Filled) → fill_loop d start zero f ≡ f
  unfolding fill_loop
  fill_none f = refl

  pub fill_loop-sums :
      (k : ℕ) (f : Filled)
      → start + f.count + k ≤ 512
      → start + f.count + k ≤ d.data_len
      → ((fill_loop d start k f).count ≡ f.count + k)
        × ((fill_loop d start k f).checksum
            ≡ add_bytes f.checksum (window d.buffer (start + f.count) k))
        × (length (fill_loop d start k f).bytes ≡ length f.bytes)
  unfolding window add_bytes
  fill_loop-sums zero f h h' = rw (fill_none f) (omega arith, refl, refl)
  fill_loop-sums (suc k) f h h' =
      let (n, s, l) = fill_loop-sums k (copied f) (omega arith) (omega arith) in
      let byte = get_or d.buffer (start + f.count) 0 in
      let next : start + (f.count + 1) ≡ start + f.count + 1 = omega arith in
      let sums = ap (λ at. add_bytes (u8 (f.checksum + byte)) (window d.buffer at k)) next in
      rw (fill_step k f (omega arith) (omega arith))
        (omega arith, s ∙ sums, l ∙ length-set f.bytes (f.count + 1) byte)

  pub fill_loop-before :
      (k j : ℕ) (f : Filled)
      → start + f.count + k ≤ 512
      → start + f.count + k ≤ d.data_len
      → j ≤ f.count
      → get_or (fill_loop d start k f).bytes j 0 ≡ get_or f.bytes j 0
  fill_loop-before zero j f h h' hj = rw (fill_none f) refl
  fill_loop-before (suc k) j f h h' hj = rw (fill_step k f (omega arith) (omega arith)) (
      fill_loop-before k j (copied f) (omega arith) (omega arith) (omega arith)
      ∙ get_or-set_ne f.bytes (get_or d.buffer (start + f.count) 0) 0 (λ e. omega arith))

  -- The bytes of the buffer from `start` on stand behind the command byte.
  pub fill_loop-copies :
      (k i : ℕ) (f : Filled)
      → start + f.count + k ≤ 512
      → start + f.count + k ≤ d.data_len
      → f.count + k < length f.bytes
      → i < k
      → get_or (fill_loop d start k f).bytes (f.count + 1 + i) 0
        ≡ get_or d.buffer (start + f.count + i) 0
  fill_loop-copies zero i f h h' l hi = absurd (omega arith)
  fill_loop-copies (suc k) zero f h h' l hi =
      let byte = get_or d.buffer (start + f.count) 0 in
      let place : f.count + 1 + 0 ≡ f.count + 1 = omega arith in
      let source : start + f.count ≡ start + f.count + 0 = omega arith in
      rw (fill_step k f (omega arith) (omega arith), place)
        (fill_loop-before k (f.count + 1) (copied f) (omega arith) (omega arith) (omega arith)
          ∙ get_or-set_self f.bytes (f.count + 1) byte 0 (omega arith)
          ∙ ap (λ at. get_or d.buffer at 0) source)
  fill_loop-copies (suc k) (suc i) f h h' l hi =
      let byte = get_or d.buffer (start + f.count) 0 in
      let place : f.count + 1 + suc i ≡ f.count + 1 + 1 + i = omega arith in
      let source : start + (f.count + 1) + i ≡ start + f.count + suc i = omega arith in
      rw (fill_step k f (omega arith) (omega arith), place)
        (fill_loop-copies k i (copied f) (omega arith) (omega arith)
            (omega (arith, length-set f.bytes (f.count + 1) byte)) (omega arith)
          ∙ ap (λ at. get_or d.buffer at 0) source)

  pub fill_loop-Bytes :
      (k : ℕ) (f : Filled)
      → Bytes d.buffer
      → Bytes f.bytes
      → start + f.count + k ≤ 512
      → start + f.count + k ≤ d.data_len
      → Bytes (fill_loop d start k f).bytes
  fill_loop-Bytes zero f hb hf h h' = rw (fill_none f) hf
  fill_loop-Bytes (suc k) f hb hf h h' =
      let byte = get_or d.buffer (start + f.count) 0 in
      rw (fill_step k f (omega arith) (omega arith)) (
        fill_loop-Bytes k (copied f) hb (set-Bytes f.bytes (f.count + 1) byte hf (hb _))
          (omega arith) (omega arith))
