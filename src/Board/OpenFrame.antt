-- ===== src/Board/OpenFrame.antt =====
-- The name in a frame of `vd_open`, as the client's VD_CMD_SEL_FILE reads it.
use wi_fi_virt_disk.Base.{
  ℕ, zero, suc, ◌+◌, ◌-◌, ◌≤◌, ◌≡◌, ◌≢◌, refl, ap, ◌∙◌, List, [], ◌∷◌, ◌++◌, append_assoc, arith,
  length, length-append, take, drop, u8, c_string, get_or, replicate, drop-cons, take-append_ge,
}
use wi_fi_virt_disk.Packet.{Command, code}
use wi_fi_virt_disk.Spi.{seal_byte}
use wi_fi_virt_disk.Spi.Checksum.{total, seal_byte_closes}
use wi_fi_virt_disk.Client.Control.{byte_at, select_sum, name_sum}
use wi_fi_virt_disk.Ios.Control.{open_frame}
use wi_fi_virt_disk.Board.Wiring.{spi_buffer}

-- No byte of a C string is zero.
abbrev pub IsName : List ℕ → Type 0
IsName [] = Unit {0}
IsName (x ∷ xs) = (x ≢ 0) × IsName xs

place : (i : ℕ) (buf : List ℕ) (s : ℕ) → get_or buf (i + 1 + 1) 0 ≡ s → byte_at buf (i + 2) ≡ s
place i buf s b = let e : i + 2 ≡ i + 1 + 1 = omega arith in ap (byte_at buf) e ∙ b

-- `name_sum` from place `i` on adds the rest of the name and the byte behind the zero.
name_sum-total :
    (buf name rest : List ℕ) (s rounds i checksum : ℕ)
    → IsName name
    → length name ≤ rounds
    → drop (i + 1) buf ≡ name ++ (0 ∷ s ∷ rest)
    → name_sum buf rounds i checksum ≡ u8 (checksum + (total name + s))
unfolding name_sum total
name_sum-total buf [] rest s zero i c v h e =
    let (_, t) = drop-cons (i + 1) buf 0 (s ∷ rest) e 0 in
    let (b, _) = drop-cons (i + 1 + 1) buf s rest t 0 in
    let b' : byte_at buf (i + 2) ≡ s = place i buf s b in rw b' (omega arith)
name_sum-total buf [] rest s (suc rounds) i c v h e =
    let (z, t) = drop-cons (i + 1) buf 0 (s ∷ rest) e 0 in
    let (b, _) = drop-cons (i + 1 + 1) buf s rest t 0 in
    let b' : byte_at buf (i + 2) ≡ s = place i buf s b in rw (z, b') (omega arith)
name_sum-total buf (x ∷ name) rest s zero i c v h e = absurd (omega arith)
name_sum-total buf (x ∷ name) rest s (suc rounds) i c v h e =
    let (b, t) = drop-cons (i + 1) buf x (name ++ (0 ∷ s ∷ rest)) e 0 in
    ground (
      arith,
      b,
      name_sum-total buf name rest s rounds (i + 1) (u8 (c + byte_at buf (i + 1))) v.1 (omega arith)
          t,
    )

c_string-name : (name rest : List ℕ) → IsName name → c_string (name ++ (0 ∷ rest)) ≡ name
c_string-name [] rest v = refl
c_string-name (zero ∷ name) rest v = absurd (v.0 refl)
c_string-name (suc x ∷ name) rest v = ap (λ ys. suc x ∷ ys) (c_string-name name rest v.1)

-- A frame of `vd_open` cut out of a longer text, behind its command
take_frame :
    (n s : ℕ) (name zeros : List ℕ)
    → length name + 2 ≤ n
    → take n ((name ++ (0 ∷ s ∷ [])) ++ zeros)
      ≡ name ++ (0 ∷ s ∷ take (n - (length name + 2)) zeros)
take_frame n s name zeros h =
    let size : length (name ++ (0 ∷ s ∷ [])) ≡ length name + 2 = length-append name (0 ∷ s ∷ []) in
    take-append_ge n (name ++ (0 ∷ s ∷ [])) zeros (omega (arith, size))
    ∙ append_assoc name (0 ∷ s ∷ []) _
    ∙ ap (λ k. name ++ (0 ∷ s ∷ take (n - k) zeros)) size

pub buffer_lem :
    (name : List ℕ)
    → length name ≤ 12
    → spi_buffer (open_frame name)
      ≡ code Command.sel_file
        ∷ (name
            ++ (0
                ∷ seal_byte (code Command.sel_file ∷ name)
                ∷ take (31 - (length name + 2)) (replicate 32 0)))
unfolding spi_buffer open_frame
buffer_lem name short =
    ap (λ t. 2 ∷ t) (take_frame 31 (seal_byte (2 ∷ name)) name (replicate 32 0) (omega arith))

sealed_name_sum :
    (name rest : List ℕ)
    → IsName name
    → length name ≤ 12
    → name_sum (2 ∷ (name ++ (0 ∷ seal_byte (2 ∷ name) ∷ rest))) 13 0 2 ≡ 0
unfolding total
sealed_name_sum name rest v short =
    let buf = 2 ∷ (name ++ (0 ∷ seal_byte (2 ∷ name) ∷ rest)) in
    omega (
      arith,
      name_sum-total buf name rest (seal_byte (2 ∷ name)) 13 0 2 v (omega arith) refl,
      seal_byte_closes (2 ∷ name),
    )

name_field :
    (name rest : List ℕ) (s : ℕ)
    → IsName name
    → length name ≤ 12
    → c_string (take 13 (name ++ (0 ∷ s ∷ rest))) ≡ name
name_field name rest s v short =
    let e : 13 - length name ≡ suc (12 - length name) = omega arith in
    ap c_string (
      take-append_ge 13 name (0 ∷ s ∷ rest) (omega arith)
      ∙ ap (λ k. name ++ take k (0 ∷ s ∷ rest)) e)
    ∙ c_string-name name (take (12 - length name) (s ∷ rest)) v

-- The client accepts a frame of `vd_open` with a name of up to 12 characters, and the C string in
-- the 13 bytes that it copies is that name.
pub open_frame_accepted :
    (name : List ℕ)
    → IsName name
    → length name ≤ 12
    → (select_sum (spi_buffer (open_frame name)) ≡ 0)
      × (c_string (take 13 (drop 1 (spi_buffer (open_frame name)))) ≡ name)
unfolding select_sum
open_frame_accepted name v short =
    rw (buffer_lem name short) (sealed_name_sum name _ v short, name_field name _ _ v short)
