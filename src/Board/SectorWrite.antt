-- ===== src/Board/SectorWrite.antt =====
-- WRITESECT of the Z80 with the virtual disk behind it: from the opcode in the IOS through client and
-- server to the file of the image.
use wi_fi_virt_disk.Base.{
  ℕ, suc, ◌+◌, ◌*◌, ◌^◌, ◌<◌, ◌≤◌, ◌≡◌, refl, ap, ◌∙◌, sym, subst, true, false, List, [], ◌++◌,
  none, some, arith, length, length-append,
}
use wi_fi_virt_disk.Client.State.{Client, status_reset}
use wi_fi_virt_disk.Server.Device.{LibDsk}
use wi_fi_virt_disk.Server.State.{Config, Server}
use wi_fi_virt_disk.Server.Stream.{overwrite}
use wi_fi_virt_disk.Server.Refine.{Serves, at_offset}
use wi_fi_virt_disk.Ios.Link.{Master}
use wi_fi_virt_disk.Ios.Control.{vd_lseek}
use wi_fi_virt_disk.Ios.Disk.{DiskState, first_seek, logical_sector, no_operation}
use wi_fi_virt_disk.Ios.Sd.{PetitFs, SdState, write_sd}
use wi_fi_virt_disk.Ios.SectorWrite.{writes, given}
use wi_fi_virt_disk.Ios.SectorWrite.Run.{sector_bytes}
use wi_fi_virt_disk.Board.Wiring.{spi_link, tcp_link}
use wi_fi_virt_disk.Board.Seek.{Selected, sought_client, lseek-sought, reply-IsPacket}
use wi_fi_virt_disk.Board.Sector.{first_seek-done, vd_seek_sd, disk, IsAddressed}
use wi_fi_virt_disk.Board.WriteSegment.{last, vd_write-ends}
use wi_fi_virt_disk.Board.WriteOpen.{IsOpen, fits, going-IsOpen}
use wi_fi_virt_disk.Board.WriteFlush.{full-Selected}
use wi_fi_virt_disk.Board.WriteEnd.{vd_write_sd, vd_end_sd, ended, vd_write-none, ended-Selected}

module _ {D : LibDsk} (g : Config) (wifi : ℕ) (F : PetitFs) (fuel stray : ℕ)
    (name path image : List ℕ) (s : Server D) (serves : Serves g name path image s) where
  abbrev Board : Type 0
  Board = Master (spi_link (tcp_link D g) wifi)

  module _ (ofs : ℕ) where
    -- What the file holds with `bytes` written, and a client that can begin another transfer
    abbrev Stored : List ℕ → Board → Type 0
    Stored bytes m =
        (s' : Server D) × Serves g name path (overwrite image ofs bytes) s'
        × Selected g name s' m.wire

    abbrev Idle : Board → Type 0
    Idle m = (m.wire.vd_data.data_len ≡ 0) × (m.wire.vd_data.file_pos ≡ 0)

    abbrev Alive : SdState (spi_link (tcp_link D g) wifi) F → Type 0
    Alive st = (st.virt_disk_flag ≡ true) × (st.hung ≡ false)

    abbrev P : List ℕ → SdState (spi_link (tcp_link D g) wifi) F → Type 0
    P done st =
        Alive st
        × (length done < 512
            → IsOpen {L = tcp_link D g} (at_offset path s ofs, []) name done st.master.wire)
        × (length done ≡ 512 → Stored done st.master × Idle st.master)

    abbrev Q : List ℕ → SdState (spi_link (tcp_link D g) wifi) F → Type 0
    Q done st = Alive st × Stored done st.master

    feed :
        (done seg : List ℕ) (st : SdState (spi_link (tcp_link D g) wifi) F)
        → length done + 32 ≤ 512
        → length seg ≡ 32
        → P done st
        → (after : SdState (spi_link (tcp_link D g) wifi) F) × (write_sd
              (suc (suc fuel))
              stray
              st
              (some seg)
            ≡ (after, 0, 32))
          × P (done ++ seg) after
    feed done seg st room l (flag, open_yet, _) =
        let net : Server D × List ℕ = (at_offset path s ofs, []) in
        let v = open_yet (omega arith) in
        let fit = fits wifi st.master net name done seg v l room in
        let m' = last wifi st.master seg l fit in
        let sent = vd_write-ends wifi st.master seg l fit 32 (omega arith) in
        let size = length-append done seg in
        (
          record st { master = m' },
          vd_write_sd (suc (suc fuel)) stray st seg m' _ 32 flag.0 sent refl,
          (
            flag,
            (λ more. going-IsOpen wifi st.master net name done seg v l room (omega arith)),
            (λ full.
                let (s', holds, sel, empty, zero_pos) =
                  full-Selected g name path image s serves ofs wifi st.master done seg v l
                    (omega arith) in
                ((s', holds, sel), (empty, zero_pos))),
          ),
        )

    finish :
        (done : List ℕ) (st : SdState (spi_link (tcp_link D g) wifi) F)
        → length done ≡ 512
        → P done st
        → (after : SdState (spi_link (tcp_link D g) wifi) F) × (n : ℕ) × (write_sd
              (suc (suc fuel))
              stray
              st
              none
            ≡ (after, 0, n))
          × Q done after
    finish done st l (flag, _, closes) =
        let ((s', holds, sel), (_, zero_pos)) = closes l in
        let m' = ended wifi st.master in
        (
          record st { master = m' },
          0,
          vd_end_sd (suc (suc fuel)) stray st m' _ 0 flag.0 (vd_write-none wifi st.master) refl,
          (flag, (s', holds, ended-Selected g wifi name s' st.master sel zero_pos)),
        )

  module _ (m : Board) (selected : Selected g name s m.wire)
      (buffer_512 : length m.wire.vd_data.buffer ≡ 512) (ofs : ℕ) (range : ofs < 2 ^ 32) where
    abbrev sought : Client (tcp_link D g)
    sought = sought_client g wifi name path image s serves m selected ofs range

    sought-IsOpen : IsOpen {L = tcp_link D g} (at_offset path s ofs, []) name [] sought
    sought-IsOpen = record {
      quiet = refl;
      name_13 = selected.name_13;
      ends = selected.ends;
      named = selected.named;
      buffer_512 = buffer_512;
      stored = refl;
      place = refl;
      counted = refl;
      packet_fits = reply-IsPacket g wifi name path image s serves m selected ofs range;
      write_cmd = refl;
      write_name = refl;
    }

  write_with :
      (d : DiskState (disk D g wifi F fuel stray)) (m : Board) (selected : Selected g name s m.wire)
      → length m.wire.vd_data.buffer ≡ 512
      → IsAddressed D g wifi F fuel stray d
      → d.storage.master ≡ m
      → (bytes : List ℕ) → length bytes ≡ 512
      → let done = writes bytes d in
        (done.disk_err ≡ 0)
        × (done.io_byte_cnt ≡ 512)
        × (done.io_opcode ≡ no_operation)
        × Q (logical_sector d.track_sel d.sect_sel * 512) bytes done.storage
  write_with d m selected buffer v board bytes l =
      let track = v.track_512 in
      let sect = v.sect_32 in
      let n = logical_sector d.track_sel d.sect_sel in
      let ofs = n * 512 in
      let small : n < 2 ^ 14 = omega arith in
      let range : ofs < 2 ^ 32 = omega arith in
      let here : Board = record {
        wire = sought m selected buffer ofs range;
        vd_status = status_reset;
      } in
      let st : SdState (spi_link (tcp_link D g) wifi) F = record (d.storage) { master = here } in
      let found = lseek-sought g wifi name path image s serves m selected ofs range in
      let there =
        vd_seek_sd (suc (suc fuel)) stray d.storage n v.virtual small
        ∙ ap (λ x. (record (d.storage) { master = (vd_lseek ofs x).0 }, (vd_lseek ofs x).1)) board
        ∙ ap (λ r. (record (d.storage) { master = r.0 }, r.1)) found in
      let begun_seek : (b : ℕ)
          → first_seek (given d b) ≡ record (given d b) { storage = st; disk_err = 0 } =
        λ b. first_seek-done (given d b) st 0 track sect v.no_error v.first_byte there in
      let start : P ofs [] st = (
        (v.virtual, v.alive),
        (λ h. sought-IsOpen m selected buffer ofs range),
        (λ h. absurd (omega arith)),
      ) in
      sector_bytes (P ofs) (Q ofs) (feed ofs) (finish ofs) bytes d l v.first_byte v.segment_32 (λ b.
        (
          ap (λ x. x.disk_err) (begun_seek b),
          subst (λ x. P ofs [] x.storage) (sym (begun_seek b)) start,
        ))

-- The Z80 writes a sector, byte by byte: where the server has the file open, the client has it
-- selected, its buffer has its size and no packet is under way, and where the opcodes have left a
-- legal address and no error, the 512 calls of WRITESECT put the 512 bytes into the file of
-- the image at sector `32 * track + sector`, and leave the rest of it. There is no error, the opcode
-- is done, and the file is still selected for another transfer.
pub sector_written :
    {D : LibDsk} (g : Config) (wifi : ℕ) (F : PetitFs) (fuel stray : ℕ) (name path image : List ℕ)
    (s : Server D) (d : DiskState (disk D g wifi F fuel stray)) (bytes : List ℕ)
    → Serves g name path image s
    → Selected g name s d.storage.master.wire
    → length d.storage.master.wire.vd_data.buffer ≡ 512
    → IsAddressed D g wifi F fuel stray d
    → length bytes ≡ 512
    → let done = writes bytes d in
      let ofs = logical_sector d.track_sel d.sect_sel * 512 in
      (done.disk_err ≡ 0)
      × (done.io_opcode ≡ no_operation)
      × (done.storage.virt_disk_flag ≡ true)
      × (done.storage.hung ≡ false)
      × (s' : Server D) × Serves g name path (overwrite image ofs bytes) s'
      × Selected g name s' done.storage.master.wire
sector_written g wifi F fuel stray name path image s d bytes serves selected buffer v l =
    let (fine, _, over, (still, kept)) =
      write_with g wifi F fuel stray name path image s serves d d.storage.master selected buffer v
        refl bytes l in
    (fine, over, still.0, still.1, kept.0, kept.1, kept.2)
