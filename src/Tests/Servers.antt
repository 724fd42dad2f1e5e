-- ===== src/Tests/Servers.antt =====
-- The server's theorems at a server with one file, `A`, of three bytes, and an emulated disk, `E`.
use wi_fi_virt_disk.Base.{ℕ, ◌+◌, ◌<◌, ◌≡◌, ◌≢◌, refl, List, [], ◌∷◌, arith, length, if◌then◌else◌}
use wi_fi_virt_disk.Packet.{Packet, code, Command, encode, name_of, IsPacket}
use wi_fi_virt_disk.Packet.VdStatus
use wi_fi_virt_disk.Server.Stream.{lookup, content, overwrite}
use wi_fi_virt_disk.Server.State.{replied, silent, emu_index, is_emulated}
use wi_fi_virt_disk.Server.Transfer.{rd_file, wr_file}
use wi_fi_virt_disk.Server.Process.{process_cmd}
use wi_fi_virt_disk.Server.Image
use wi_fi_virt_disk.Server.Image.{Request, read_at, write_at, block, block-overwrite}
use wi_fi_virt_disk.Server.Refine.{Serves, session, session_refines}
use wi_fi_virt_disk.Server.Replies.{is_answered, process_cmd-replies, process_cmd-files}
use wi_fi_virt_disk.Server.Failures.{short_read_breaks}
use wi_fi_virt_disk.Tests.Fixtures.{config, packet_for, image, image_path, server}

abbrev to_a : Command → Packet
to_a = packet_for b'A'

abbrev requests : List Request
requests = write_at 1 (b'x' ∷ []) ∷ read_at 1 ∷ []

server-Serves : Serves config (b'A' ∷ []) image_path image (server (b'A' ∷ []))
unfolding lookup is_emulated emu_index
server-Serves = record { named = refl; plain = refl; opened = refl; at_path = refl; found = refl }

session_refines_example :
    let s = server (b'A' ∷ []) in
    let h = to_a Command.nothing in
    ((session config h s requests).1 ≡ (Image.run image requests).1)
    × Serves config
        (b'A' ∷ [])
        image_path
        (Image.run image requests).0
        (session config h s requests).0
session_refines_example =
    session_refines config (to_a Command.nothing) (b'A' ∷ []) image_path image tt refl requests
      (server (b'A' ∷ [])) server-Serves

process_cmd-replies_example :
    let s = server (b'A' ∷ []) in
    let p = to_a Command.wr_file in
    ((process_cmd config s p).2 ≡ (if is_answered config s p then replied else silent))
    × ((process_cmd config s p).2 ≡ silent → (process_cmd config s p).0 ≡ s)
process_cmd-replies_example = process_cmd-replies config (server (b'A' ∷ [])) (to_a Command.wr_file)

other_path : b'B' ∷ [] ≢ image_path
other_path e = cc

process_cmd-files_example :
    let s = server (b'A' ∷ []) in
    let p = to_a Command.wr_file in
    (lookup (b'B' ∷ []) (process_cmd config s p).0.files ≡ lookup (b'B' ∷ []) s.files)
    × (p.cmd ≢ code Command.wr_file → (process_cmd config s p).0.files ≡ s.files)
process_cmd-files_example =
    process_cmd-files config (server (b'A' ∷ [])) (to_a Command.wr_file) (b'B' ∷ []) other_path

short_content :
    length (content (server (b'A' ∷ [])).files (server (b'A' ∷ [])).file_stream)
    < (server (b'A' ∷ [])).file_stream.at + 512
unfolding content lookup
short_content = omega arith

short_read_breaks_example :
    let s = server (b'A' ∷ []) in
    let after = (rd_file config s (to_a Command.rd_file)).0 in
    let q = to_a Command.wr_file in
    ((rd_file config after q).1.status ≡ VdStatus.ok)
    × ((rd_file config after q).1.data_len ≡ 0)
    × ((wr_file config after q).0.files ≡ s.files)
    × ((wr_file config after q).1 ≡ q)
    × ((wr_file config after q).2 ≡ replied)
unfolding is_emulated emu_index name_of encode
short_read_breaks_example =
    short_read_breaks config (server (b'A' ∷ [])) (to_a Command.rd_file) (to_a Command.wr_file) refl
      refl refl refl short_content

to_a-IsPacket : IsPacket (to_a Command.wr_file)
to_a-IsPacket = record {
  name_13 = refl;
  offset_32 = omega arith;
  track_16 = omega arith;
  payload_512 = refl;
  len_16 = omega arith;
}

abbrev sector_bytes : List ℕ
sector_bytes = (to_a Command.wr_file).payload

block-overwrite_example : block (overwrite image 5 sector_bytes) 5 ≡ sector_bytes
block-overwrite_example = block-overwrite image 5 sector_bytes refl
