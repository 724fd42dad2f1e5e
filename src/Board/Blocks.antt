-- ===== src/Board/Blocks.antt =====
-- The bytes of a block of the image, read through the client's buffer.
use wi_fi_virt_disk.Base.{
  get_or-take, ℕ, zero, suc, ◌+◌, ◌-◌, ◌<◌, ◌≤◌, ◌≡◌, refl, ap, ◌∙◌, sym, List, [], ◌∷◌, ◌++◌,
  arith, get_or, length, take, drop, replicate, get_or-drop, length-take, length-drop,
}
use wi_fi_virt_disk.Hspi.Words.{Bytes}
use wi_fi_virt_disk.Client.Fill.{window}
use wi_fi_virt_disk.Server.Image.{block, zero_padded}

pub take-lt : (n : ℕ) (xs : List ℕ) → Bytes xs → Bytes (take n xs)
take-lt zero xs h i = omega arith
take-lt (suc n) [] h i = omega arith
take-lt (suc n) (x ∷ xs) h zero = h 0
take-lt (suc n) (x ∷ xs) h (suc i) = take-lt n xs (λ j. h (suc j)) i

pub drop-lt : (n : ℕ) (xs : List ℕ) → Bytes xs → Bytes (drop n xs)
drop-lt zero xs h i = h i
drop-lt (suc n) [] h i = omega arith
drop-lt (suc n) (x ∷ xs) h i = drop-lt n xs (λ j. h (suc j)) i

padded-lt : (xs : List ℕ) (n : ℕ) → Bytes xs → Bytes (xs ++ replicate n 0)
padded-lt [] zero h i = omega arith
padded-lt [] (suc n) h zero = omega arith
padded-lt [] (suc n) h (suc i) = padded-lt [] n h i
padded-lt (x ∷ xs) n h zero = h 0
padded-lt (x ∷ xs) n h (suc i) = padded-lt xs n (λ j. h (suc j)) i

pub zero_padded-Bytes :
    (image : List ℕ) (offset : ℕ) → Bytes image → Bytes (zero_padded (block image offset))
zero_padded-Bytes image offset h =
    padded-lt (block image offset) (512 - length (block image offset))
      (take-lt 512 (drop offset image) (drop-lt offset image h))

get_or-append : (xs ys : List ℕ) (i : ℕ) → i < length xs → get_or (xs ++ ys) i 0 ≡ get_or xs i 0
get_or-append [] ys i h = absurd (omega arith)
get_or-append (x ∷ xs) ys zero h = refl
get_or-append (x ∷ xs) ys (suc i) h = get_or-append xs ys i (omega arith)

window-cong :
    (xs ys : List ℕ) (at place k : ℕ)
    → ((j : ℕ) → j < k → get_or xs (at + j) 0 ≡ get_or ys (place + j) 0)
    → window xs at k ≡ window ys place k
unfolding window
window-cong xs ys at place zero h = refl
window-cong xs ys at place (suc k) h =
    let from : at + 0 ≡ at = omega arith in
    let to : place + 0 ≡ place = omega arith in
    let first =
      ap (λ n. get_or xs n 0) (sym from) ∙ h 0 (omega arith) ∙ ap (λ n. get_or ys n 0) to in
    let rest = window-cong xs ys (at + 1) (place + 1) k (λ j hj.
      let a : at + 1 + j ≡ at + suc j = omega arith in
      let b : place + suc j ≡ place + 1 + j = omega arith in
      ap (λ n. get_or xs n 0) a ∙ h (suc j) (omega arith) ∙ ap (λ n. get_or ys n 0) b) in
    λ i. first i ∷ rest i

-- The first bytes of a block that has them are the bytes of the image at its offset.
pub window-block :
    (image : List ℕ) (offset k : ℕ)
    → k ≤ 512
    → offset + k ≤ length image
    → window (zero_padded (block image offset)) 0 k ≡ window image offset k
window-block image offset k small there =
    window-cong (zero_padded (block image offset)) image 0 offset k (λ j hj.
      let inside : 0 + j < length (block image offset) =
        omega (arith, length-take 512 (drop offset image), length-drop offset image) in
      get_or-append (block image offset) (replicate (512 - length (block image offset)) 0) (0 + j)
        inside
      ∙ get_or-take 512 (0 + j) (drop offset image) 0 (omega arith)
      ∙ get_or-drop offset image (0 + j) 0
      ∙ ap (λ n. get_or image n 0) (omega arith))
