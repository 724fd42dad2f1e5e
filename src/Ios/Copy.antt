-- ===== src/Ios/Copy.antt =====
-- Bytes copied into a buffer one by one.
use wi_fi_virt_disk.Base.{
  ℕ, suc, ◌+◌, ◌≡◌, refl, ap, ◌∙◌, List, [], ◌∷◌, ◌++◌, append_assoc, append-nil, sym, arith,
  length, length-append, set,
}
use wi_fi_virt_disk.Ios.Read.{copy_bytes}

set-append :
    (pre : List ℕ) (y : ℕ) (rest : List ℕ) (b : ℕ)
    → set (pre ++ (y ∷ rest)) (length pre) b ≡ (pre ++ (b ∷ [])) ++ rest
set-append [] y rest b = refl
set-append (x ∷ pre) y rest b = ap (λ xs. x ∷ xs) (set-append pre y rest b)

-- Bytes in the middle of a buffer
pub copy_bytes-middle :
    (xs pre mid rest : List ℕ)
    → length mid ≡ length xs
    → copy_bytes (pre ++ (mid ++ rest)) (length pre) xs ≡ pre ++ (xs ++ rest)
unfolding copy_bytes
copy_bytes-middle [] pre [] rest l = refl
copy_bytes-middle [] pre (y ∷ mid) rest l = absurd (omega arith)
copy_bytes-middle (b ∷ xs) pre [] rest l = absurd (omega arith)
copy_bytes-middle (b ∷ xs) pre (y ∷ mid) rest l =
    let next : length pre + 1 ≡ length (pre ++ (b ∷ [])) =
      omega (arith, length-append pre (b ∷ [])) in
    (λ i. copy_bytes (set-append pre y (mid ++ rest) b i) (next i) xs)
    ∙ copy_bytes-middle xs (pre ++ (b ∷ [])) mid rest (omega arith)
    ∙ append_assoc pre (b ∷ []) (xs ++ rest)

-- Bytes that fill the whole buffer
pub copy_bytes-whole : (buff xs : List ℕ) → length buff ≡ length xs → copy_bytes buff 0 xs ≡ xs
copy_bytes-whole buff xs l =
    ap (λ r. copy_bytes r 0 xs) (sym (append-nil buff))
    ∙ copy_bytes-middle xs [] buff [] l
    ∙ append-nil xs

pub copy_bytes-append :
    (buff xs ys : List ℕ) (place : ℕ)
    → copy_bytes (copy_bytes buff place xs) (place + length xs) ys
      ≡ copy_bytes buff place (xs ++ ys)
unfolding copy_bytes
copy_bytes-append buff [] ys place =
    let here : place + 0 ≡ place = omega arith in ap (λ k. copy_bytes buff k ys) here
copy_bytes-append buff (x ∷ xs) ys place =
    let here : place + suc (length xs) ≡ place + 1 + length xs = omega arith in
    ap (λ k. copy_bytes (copy_bytes (set buff place x) (place + 1) xs) k ys) here
    ∙ copy_bytes-append (set buff place x) xs ys (place + 1)
