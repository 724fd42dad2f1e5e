-- ===== src/Server/Image.antt =====
-- What a client may expect of a disk image in a file: an array of bytes, read and written in blocks
-- of up to 512 bytes at any offset.
use wi_fi_virt_disk.Base.{
  ℕ, ◌+◌, ◌-◌, ◌≡◌, sym, List, [], ◌∷◌, ◌++◌, arith, length, take, drop, replicate, length-take,
  length-append, length-replicate, take-append, drop-append, append_assoc,
}
use wi_fi_virt_disk.Server.Stream.{overwrite}

pub data Request : Type 0 where
  read_at : ℕ → Request
  write_at : ℕ → List ℕ → Request

-- What comes back: a status for a seek, also the bytes and their number for a read, nothing of
-- interest for a write
pub data Answer : Type 0 where
  sought : ℕ → Answer
  got : ℕ → List ℕ → ℕ → Answer
  stored : Answer

-- the bytes at `offset`: at most 512, fewer at the end of the image
abbrev pub block : List ℕ → ℕ → List ℕ
block image offset = take 512 (drop offset image)

-- a buffer of 512 bytes that begins with them
abbrev pub zero_padded : List ℕ → List ℕ
zero_padded bytes = bytes ++ replicate (512 - length bytes) 0

-- A seek comes before each transfer.
unfoldable pub run : List ℕ → List Request → List ℕ × List Answer
run image [] = (image, [])
run image (read_at offset ∷ rs) =
    let (image', answers) = run image rs in
    let bytes = block image offset in
    (image', sought 0 ∷ got 0 (zero_padded bytes) (length bytes) ∷ answers)
run image (write_at offset bytes ∷ rs) =
    let (image', answers) = run (overwrite image offset bytes) rs in
    (image', sought 0 ∷ stored ∷ answers)

-- What stands before `at` in an overwritten image: the image, and zeros behind its end
front : List ℕ → ℕ → List ℕ
front image at = take at image ++ replicate (at - length image) 0

length-front : (image : List ℕ) (at : ℕ) → length (front image at) ≡ at
unfolding front
length-front image at = omega (
  arith,
  length-append (take at image) (replicate (at - length image) 0),
  length-take at image,
  length-replicate {A = ℕ} (at - length image) 0,
)

overwrite-front :
    (image : List ℕ) (at : ℕ) (bytes : List ℕ)
    → overwrite image at bytes ≡ front image at ++ (bytes ++ drop (at + length bytes) image)
unfolding overwrite front
overwrite-front image at bytes = sym (append_assoc (take at image) _ _)

-- A block of 512 bytes that was written into an image is read back, also behind its end.
pub block-overwrite :
    (image : List ℕ) (at : ℕ) (bytes : List ℕ)
    → length bytes ≡ 512
    → block (overwrite image at bytes) at ≡ bytes
block-overwrite image at bytes l =
    rw (overwrite-front image at bytes, drop-append at (front image at) _ (length-front image at))
      (take-append 512 bytes _ l)
