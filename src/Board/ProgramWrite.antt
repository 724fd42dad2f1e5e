-- ===== src/Board/ProgramWrite.antt =====
-- The program with which the Z80 writes a sector and reads it back: its OUT and IN instructions
-- through the main loop of S220718-R290823_IOS-Z80-MBC2.ino.
use wi_fi_virt_disk.Base.{
  ℕ, ◌+◌, ◌*◌, ◌<◌, ◌≤◌, ◌≡◌, ap, ◌∙◌, sym, true, false, List, [], ◌++◌, none, some, arith, length,
}
use wi_fi_virt_disk.Packet.{IsPacket}
use wi_fi_virt_disk.Hspi.Words.{Bytes}
use wi_fi_virt_disk.Server.Device.{LibDsk}
use wi_fi_virt_disk.Server.Stream.{lookup}
use wi_fi_virt_disk.Server.State.{Config, Server, emu_index}
use wi_fi_virt_disk.Ios.Disk.{DiskState, disk_name, store_opcode}
use wi_fi_virt_disk.Ios.SectorWrite.{writes}
use wi_fi_virt_disk.Ios.Sd.{PetitFs}
use wi_fi_virt_disk.Ios.Wire.{Ports}
use wi_fi_virt_disk.Ios.Machine.{Machine}
use wi_fi_virt_disk.Ios.Machine.Pass.{Signals}
use wi_fi_virt_disk.Ios.Machine.Data.{given}
use wi_fi_virt_disk.Ios.Machine.Exchange.{Access, exchange}
use wi_fi_virt_disk.Ios.Machine.Outputs.{outs, outputs, length-writes}
use wi_fi_virt_disk.Board.Sector.{disk, IsAddressed}
use wi_fi_virt_disk.Board.SectorWrite.{sector_written}
use wi_fi_virt_disk.Board.ReadBack.{sector_read_back}
use wi_fi_virt_disk.Board.DiskRead.{
  select_disk, set_address, address_set, address-IsAddressed, disk-IsAddressed,
}
use wi_fi_virt_disk.Board.Program.{
  select_accesses, address_accesses, read_accesses, select_run, address_run, read_run,
  opcode_unused,
}

-- SELDISK, SELTRACK, SELSECT, WRITESECT of bytes, SELTRACK, SELSECT, and READSECT of a whole sector
abbrev pub write_read_program : ℕ → ℕ → ℕ → ℕ → List ℕ → List Access
write_read_program number low high sector bytes =
    select_accesses number
    ++ (address_accesses 0x0C low high sector ++ (outs bytes ++ read_accesses low high sector))

module _ {D : LibDsk} {P : Ports} (g : Config) (wifi : ℕ) (F : PetitFs) (fuel stray : ℕ)
    (f : ℕ → Signals) (number low high sector : ℕ) (bytes : List ℕ)
    (m : Machine (disk D g wifi F fuel stray) P) (size : length bytes ≡ 512) where
  -- The state of the disk before the transfer, with the opcode in `ioData`
  abbrev before : DiskState (disk D g wifi F fuel stray)
  before = given 0x0C (store_opcode 0x0C (set_address low high sector (select_disk number m.disk)))

  -- The program up to the end of WRITESECT
  write_run :
      (k : ℕ) × (m' : Machine (disk D g wifi F fuel stray) P) × (exchange f 0
          (write_read_program number low high sector bytes)
          m
        ≡ exchange f k (read_accesses low high sector) m')
      × (m'.disk ≡ writes bytes before)
  unfolding store_opcode
  write_run =
      let third = outs bytes ++ read_accesses low high sector in
      let (m1, same1, disk1) =
        select_run f 0 number (address_accesses 0x0C low high sector ++ third) m in
      let (m2, same2, disk2) = address_run f 2 0x0C low high sector third m1 in
      let reached : m2.disk ≡ before =
        disk2
        ∙ ap (λ d. given 0x0C (store_opcode 0x0C d))
            (ap (set_address low high sector) disk1
              ∙ opcode_unused low high sector (select_disk number m.disk)) in
      let (k, m', same3, disk3) =
        outputs f bytes 8 (read_accesses low high sector) m2 (λ more. ap (λ d. d.io_opcode) reached)
          (omega (arith, ap (λ d. d.io_byte_cnt) reached, size)) in
      (k, m', same1 ∙ (same2 ∙ same3), disk3 ∙ ap (writes bytes) reached)

-- A sector that the Z80 writes it reads back, all of it by OUT and IN instructions, each a pass of
-- the IOS's main loop, whatever interrupts the IOS raises and whatever the times: it selects disk
-- `number`, track `high * 256 + low` and a sector, writes 512 bytes with WRITESECT, selects track
-- and sector again and reads with READSECT. It reads the bytes that it wrote, and there is no
-- error. The number is at most 99, the track below 512, the sector below 32. The virtual disk is in
-- use, `bufferSD` has 32 bytes, the client's buffer its 512, no call hangs before and no packet is
-- under way, and the client's packet has the sizes of its C types. The name is that of a file of
-- bytes and of no emulated disk; the file need not reach to the sector.
pub program_reads_back :
    {D : LibDsk} {P : Ports} (g : Config) (wifi : ℕ) (F : PetitFs) (fuel stray : ℕ) (image : List ℕ)
    (s : Server D) (m : Machine (disk D g wifi F fuel stray) P) (f : ℕ → Signals)
    (number low high sector : ℕ) (bytes : List ℕ)
    → m.disk.storage.virt_disk_flag ≡ true
    → m.disk.storage.hung ≡ false
    → length m.disk.buffer_sd ≡ 32
    → m.disk.storage.master.wire.net ≡ (s, [])
    → IsPacket m.disk.storage.master.wire.packet
    → length m.disk.storage.master.wire.vd_data.buffer ≡ 512
    → emu_index g.disk_emu_filename (disk_name m.disk.disk_set number) ≡ none
    → lookup (g.file_path ++ disk_name m.disk.disk_set number) s.files ≡ some image
    → Bytes image
    → Bytes bytes
    → length bytes ≡ 512
    → number ≤ 99
    → low < 256
    → high * 256 + low < 512
    → sector < 32
    → let (m', got) = exchange f 0 (write_read_program number low high sector bytes) m in
      (got ≡ bytes) × (m'.disk.disk_err ≡ 0)
program_reads_back {D} {P} g wifi F fuel stray image s m f number low high sector bytes flag alive
      buff quiet fits room plain there hi hb size few l t h =
    let name = disk_name m.disk.disk_set number in
    let chosen = select_disk number m.disk in
    let d' = before {D = D} {P = P} g wifi F fuel stray f number low high sector bytes m size in
    let (v, _, kept, s', serves, selected) =
      disk-IsAddressed g wifi F fuel stray 0x0C image s m.disk number low high sector flag alive
        buff quiet fits plain there few l t h in
    let v' : IsAddressed D g wifi F fuel stray d' = record {
      virtual = v.virtual;
      alive = v.alive;
      track_512 = v.track_512;
      sect_32 = v.sect_32;
      no_error = v.no_error;
      first_byte = v.first_byte;
      segment_32 = v.segment_32;
    } in
    let (k, m3, same, reached) =
      write_run {P = P} g wifi F fuel stray f number low high sector bytes m size in
    let (_, _, virtual, living, _, _, _) =
      sector_written g wifi F fuel stray name (g.file_path ++ name) image s' d' bytes serves
        selected (kept ∙ room) v' size in
    let from = ap (λ d. d.storage) reached in
    let w =
      address-IsAddressed {D = D} g wifi F fuel stray 0x86 low high sector m3.disk
        (ap (λ x. x.virt_disk_flag) from ∙ virtual) (ap (λ x. x.hung) from ∙ living)
        (ap (λ d. length d.buffer_sd) reached ∙ (length-writes bytes d' ∙ v.segment_32)) l t h in
    let (_, _, track, sect, _, _) = address_set 0x0C low high sector chosen l t h in
    let (held, _, track', sect', _, _) = address_set 0x86 low high sector m3.disk l t h in
    let (got, ok) =
      sector_read_back g wifi F fuel stray name (g.file_path ++ name) image s' d'
        (store_opcode 0x86 (set_address low high sector m3.disk)) bytes serves selected
        (kept ∙ room) v' hi hb size w (held ∙ from) (track' ∙ sym track) (sect' ∙ sym sect) in
    let (back, _, done) = read_run f k low high sector m3 ok in
    (
      ap (λ r. r.1) same ∙ (back ∙ got),
      ap (λ r. r.0.disk.disk_err) same ∙ (ap (λ d. d.disk_err) done ∙ ok),
    )
