-- ===== src/Board/Frames.antt =====
-- The frames that the IOS sends, as the client reads them.
use wi_fi_virt_disk.Base.{ℕ, ◌^◌, ◌<◌, ◌≡◌, refl, [], ◌∷◌, arith}
use wi_fi_virt_disk.Packet.{Command, code}
use wi_fi_virt_disk.Spi.{seal_byte}
use wi_fi_virt_disk.Spi.Checksum.{total, seal_byte_closes}
use wi_fi_virt_disk.Client.Control.{byte_at, status_sum, seek_sum, seek_offset}
use wi_fi_virt_disk.Client.Read.{read_sum, next_sum}
use wi_fi_virt_disk.Ios.Control.{status_frame, seek_frame, offset_bytes}
use wi_fi_virt_disk.Ios.Read.{read_frame, next_frame}
use wi_fi_virt_disk.Board.Wiring.{spi_buffer}

status_frame_accepted : status_sum (spi_buffer status_frame) ≡ 0
unfolding spi_buffer status_frame seal_byte wi_fi_virt_disk.Spi.add_bytes
status_frame_accepted = omega (arith, seal_byte_closes (1 ∷ []))

-- The client accepts the seek frame of the IOS for each 32-bit offset, and reads that offset.
pub seek_frame_accepted :
    (ofs : ℕ)
    → ofs < 2 ^ 32
    → (seek_sum (spi_buffer (seek_frame ofs)) ≡ 0)
      × (seek_offset (spi_buffer (seek_frame ofs)) ≡ ofs)
unfolding spi_buffer seek_frame total
seek_frame_accepted ofs h =
    (omega (arith, seal_byte_closes (code Command.seek_file ∷ offset_bytes ofs)), omega arith)

-- The client accepts each read frame of the IOS, and reads the offset and the length of 16.
pub read_frame_accepted :
    (offset : ℕ)
    → let buf = spi_buffer (read_frame offset) in
      (read_sum buf ≡ 0) × (byte_at buf 1 ≡ offset) × (byte_at buf 2 ≡ 16)
unfolding spi_buffer read_frame total
read_frame_accepted offset = (omega (arith, seal_byte_closes (3 ∷ offset ∷ 16 ∷ [])), refl, refl)

pub next_frame_accepted :
    (c : Command) (len : ℕ)
    → let buf = spi_buffer (next_frame c len) in (next_sum buf ≡ 0) × (byte_at buf 1 ≡ len)
unfolding spi_buffer next_frame total
next_frame_accepted c len = (omega (arith, seal_byte_closes (code c ∷ len ∷ [])), refl)
