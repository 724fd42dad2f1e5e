-- ===== src/Board/ReadBack.antt =====
-- A sector that the Z80 writes and reads again.
use wi_fi_virt_disk.Base.{
  ℕ, zero, suc, ◌+◌, ◌-◌, ◌*◌, ◌≤◌, ◌≡◌, ap, ◌∙◌, sym, List, [], ◌∷◌, ◌++◌, arith, length, take,
  drop, replicate, length-take, length-append, length-replicate, append-nil, subst,
}
use wi_fi_virt_disk.Hspi.Words.{Bytes}
use wi_fi_virt_disk.Client.Fill.{window}
use wi_fi_virt_disk.Server.Device.{LibDsk}
use wi_fi_virt_disk.Server.State.{Config, Server}
use wi_fi_virt_disk.Server.Stream.{overwrite}
use wi_fi_virt_disk.Server.Image.{zero_padded, block-overwrite}
use wi_fi_virt_disk.Server.Refine.{Serves}
use wi_fi_virt_disk.Ios.Disk.{DiskState, logical_sector}
use wi_fi_virt_disk.Ios.Segments.{reads}
use wi_fi_virt_disk.Ios.Sector.{window_self}
use wi_fi_virt_disk.Ios.Sd.{PetitFs}
use wi_fi_virt_disk.Ios.SectorWrite.{writes}
use wi_fi_virt_disk.Board.Blocks.{take-lt, drop-lt, window-block}
use wi_fi_virt_disk.Board.Seek.{Selected}
use wi_fi_virt_disk.Board.Sector.{disk, sector_read, IsAddressed}
use wi_fi_virt_disk.Board.SectorWrite.{sector_written}

append-Bytes : (xs ys : List ℕ) → Bytes xs → Bytes ys → Bytes (xs ++ ys)
append-Bytes [] ys h k i = k i
append-Bytes (x ∷ xs) ys h k zero = h 0
append-Bytes (x ∷ xs) ys h k (suc i) = append-Bytes xs ys (λ j. h (suc j)) k i

zeros-Bytes : (n : ℕ) → Bytes (replicate n 0)
zeros-Bytes zero i = omega arith
zeros-Bytes (suc n) zero = omega arith
zeros-Bytes (suc n) (suc i) = zeros-Bytes n i

overwrite-Bytes :
    (image : List ℕ) (at : ℕ) (bytes : List ℕ)
    → Bytes image
    → Bytes bytes
    → Bytes (overwrite image at bytes)
unfolding overwrite
overwrite-Bytes image at bytes h k = append-Bytes (take at image) _ (take-lt at image h) (
    append-Bytes (replicate (at - length image) 0) _ (zeros-Bytes (at - length image))
      (append-Bytes bytes _ k (drop-lt (at + length bytes) image h)))

length-overwrite :
    (image : List ℕ) (at : ℕ) (bytes : List ℕ)
    → at + length bytes ≤ length (overwrite image at bytes)
unfolding overwrite
length-overwrite image at bytes =
    let zeros : List ℕ = replicate (at - length image) 0 in
    let rest = drop (at + length bytes) image in
    omega (
      arith,
      length-append (take at image) (zeros ++ (bytes ++ rest)),
      length-append zeros (bytes ++ rest),
      length-append bytes rest,
      length-take at image,
      length-replicate {A = ℕ} (at - length image) 0,
    )

-- The sector of an overwritten image
window-overwrite :
    (image : List ℕ) (at : ℕ) (bytes : List ℕ)
    → length bytes ≡ 512
    → window (overwrite image at bytes) at 512 ≡ bytes
window-overwrite image at bytes l =
    let image' = overwrite image at bytes in
    let there : at + 512 ≤ length image' = omega (arith, length-overwrite image at bytes) in
    let none_left : 512 - length bytes ≡ 0 = omega arith in
    let whole : zero_padded bytes ≡ bytes =
      ap (λ n. bytes ++ replicate n 0) none_left ∙ append-nil bytes in
    sym (window-block image' at 512 (omega arith) there)
    ∙ ap (λ b. window (zero_padded b) 0 512) (block-overwrite image at bytes l)
    ∙ ap (λ b. window b 0 512) whole
    ∙ ap (window bytes 0) (sym l)
    ∙ window_self [] bytes

-- What the Z80 writes to a sector it reads back: after the 512 calls of WRITESECT, and with nothing
-- in between that uses the storage, the 512 calls of READSECT at the same track and sector, with no
-- error before them, give the same 512 bytes, and end without an error. Before the write the server
-- has the file open, the client has it selected, its buffer has its size and no packet is under way;
-- the address is legal. The image need not reach to the sector.
pub sector_read_back :
    {D : LibDsk} (g : Config) (wifi : ℕ) (F : PetitFs) (fuel stray : ℕ) (name path image : List ℕ)
    (s : Server D) (d e : DiskState (disk D g wifi F fuel stray)) (bytes : List ℕ)
    → Serves g name path image s
    → Selected g name s d.storage.master.wire
    → length d.storage.master.wire.vd_data.buffer ≡ 512
    → IsAddressed D g wifi F fuel stray d
    → Bytes image
    → Bytes bytes
    → length bytes ≡ 512
    → IsAddressed D g wifi F fuel stray e
    → e.storage ≡ (writes bytes d).storage
    → e.track_sel ≡ d.track_sel
    → e.sect_sel ≡ d.sect_sel
    → ((reads 512 e).1 ≡ bytes) × ((reads 512 e).0.disk_err ≡ 0)
sector_read_back g wifi F fuel stray name path image s d e bytes serves selected buffer v hi hb l v'
      same same_track same_sect =
    let (_, _, _, _, s', holds, sel) =
      sector_written g wifi F fuel stray name path image s d bytes serves selected buffer v l in
    let ofs = logical_sector d.track_sel d.sect_sel * 512 in
    let image' = overwrite image ofs bytes in
    let at : logical_sector e.track_sel e.sect_sel * 512 ≡ ofs =
      λ i. logical_sector (same_track i) (same_sect i) * 512 in
    let (got, fine, _, _) =
      sector_read g wifi F fuel stray name path image' s' e holds
        (subst (λ st. Selected g name s' st.master.wire) (sym same) sel)
        (overwrite-Bytes image ofs bytes hi hb) v'
        (omega (arith, length-overwrite image ofs bytes)) in
    (got ∙ ap (λ p. window image' p 512) at ∙ window-overwrite image ofs bytes l, fine)
