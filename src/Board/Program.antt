-- ===== src/Board/Program.antt =====
-- The program with which the Z80 reads a sector: its OUT and IN instructions through the main loop
-- of S220718-R290823_IOS-Z80-MBC2.ino.
use wi_fi_virt_disk.Base.{
  ℕ, suc, ◌+◌, ◌*◌, ◌<◌, ◌≤◌, ◌≡◌, refl, ap, ◌∙◌, true, false, List, [], ◌∷◌, ◌++◌, none, some,
  arith, length, replicate,
}
use wi_fi_virt_disk.Packet.{IsPacket}
use wi_fi_virt_disk.Hspi.Words.{Bytes}
use wi_fi_virt_disk.Client.Fill.{window}
use wi_fi_virt_disk.Server.Device.{LibDsk}
use wi_fi_virt_disk.Server.Stream.{lookup}
use wi_fi_virt_disk.Server.State.{Config, Server, emu_index}
use wi_fi_virt_disk.Ios.Disk.{
  Storage, DiskState, disk_name, store_opcode, sel_track, sel_sect, no_operation,
}
use wi_fi_virt_disk.Ios.Sd.{PetitFs}
use wi_fi_virt_disk.Ios.Wire.{Ports}
use wi_fi_virt_disk.Ios.Machine.{Machine}
use wi_fi_virt_disk.Ios.Machine.Pass.{Signals}
use wi_fi_virt_disk.Ios.Machine.Data.{given}
use wi_fi_virt_disk.Ios.Machine.Exchange.{Access, out, inp, access, exchange, inputs}
use wi_fi_virt_disk.Ios.Machine.Select.{store_access, select_program, track_program, sector_program}
use wi_fi_virt_disk.Board.Sector.{disk}
use wi_fi_virt_disk.Board.DiskRead.{select_disk, set_address, read_all, disk_read}

-- SELDISK
abbrev pub select_accesses : ℕ → List Access
select_accesses number = out true 0x09 ∷ out false number ∷ []

-- SELTRACK and SELSECT, and the opcode of a transfer
abbrev pub address_accesses : ℕ → ℕ → ℕ → ℕ → List Access
address_accesses opcode low high sector =
    out true 0x0A
    ∷ out false low
    ∷ out false high
    ∷ out true 0x0B
    ∷ out false sector
    ∷ out true opcode
    ∷ []

-- READSECT of a whole sector, and what comes before
abbrev pub read_accesses : ℕ → ℕ → ℕ → List Access
read_accesses low high sector = address_accesses 0x86 low high sector ++ replicate 512 (inp false)

abbrev pub read_program : ℕ → ℕ → ℕ → ℕ → List Access
read_program number low high sector = select_accesses number ++ read_accesses low high sector

module _ {S : Storage} where
  abbrev track_stored : ℕ → ℕ → DiskState S → DiskState S
  track_stored low high d =
      sel_track
        (record (sel_track (record (store_opcode 0x0A d) { io_data = low })) { io_data = high })

  abbrev sector_stored : ℕ → ℕ → DiskState S → DiskState S
  sector_stored opcode sector d = store_opcode opcode (
      given opcode (record (sel_sect (record (store_opcode 0x0B d) { io_data = sector })) {
        io_opcode = no_operation;
      }))

  -- The opcode that SELDISK leaves is not used.
  pub opcode_unused :
      (low high sector : ℕ) (d : DiskState S)
      → set_address low high sector (record d { io_opcode = no_operation })
        ≡ set_address low high sector d
  unfolding store_opcode sel_track sel_sect
  opcode_unused low high sector d = refl

module _ {S : Storage} {P : Ports} where
  -- The program up to the transfer
  pub select_run :
      (f : ℕ → Signals) (k number : ℕ) (rest : List Access) (m : Machine S P)
      → (m' : Machine S P) × (exchange f k (select_accesses number ++ rest) m
          ≡ exchange f (suc (suc k)) rest m')
        × (m'.disk ≡ record (select_disk number m.disk) { io_opcode = no_operation })
  unfolding exchange
  select_run f k number rest m = (
    access (out false number) (f (suc k)) (access (out true 0x09) (f k) m),
    refl,
    select_program number (f k) (f (suc k)) m,
  )

  pub address_run :
      (f : ℕ → Signals) (k opcode low high sector : ℕ) (rest : List Access) (m : Machine S P)
      → (m' : Machine S P) × (exchange f k (address_accesses opcode low high sector ++ rest) m
          ≡ exchange f (suc (suc (suc (suc (suc (suc k)))))) rest m')
        × (m'.disk ≡ given opcode (store_opcode opcode (set_address low high sector m.disk)))
  unfolding exchange store_opcode sel_track sel_sect
  address_run f k opcode low high sector rest m =
      let k2 = suc (suc k) in
      let k4 = suc (suc k2) in
      let m3 =
        access (out false high) (f k2)
          (access (out false low) (f (suc k)) (access (out true 0x0A) (f k) m)) in
      let m5 = access (out false sector) (f k4) (access (out true 0x0B) (f (suc k2)) m3) in
      (
        access (out true opcode) (f (suc k4)) m5,
        refl,
        store_access opcode (f (suc k4)) m5
            ∙ (ap (λ e. store_opcode opcode (given opcode e))
                  (sector_program sector (f (suc k2)) (f k4) m3)
                ∙ ap (λ e. sector_stored opcode sector e)
                    (track_program low high (f k) (f (suc k)) (f k2) m)),
      )

  -- READSECT of a whole sector from an address on
  pub read_run :
      (f : ℕ → Signals) (k low high sector : ℕ) (m : Machine S P)
      → let (done, bytes) = read_all (set_address low high sector m.disk) in
        done.disk_err ≡ 0
        → let (m', got) = exchange f k (read_accesses low high sector) m in
          (got ≡ bytes) × (y : ℕ) × (m'.disk ≡ given y done)
  unfolding store_opcode
  read_run f k low high sector m ok =
      let (m', same, disk) = address_run f k 0x86 low high sector (replicate 512 (inp false)) m in
      let d = store_opcode 0x86 (set_address low high sector m.disk) in
      let (bytes, y, done) =
        inputs f 512 (suc (suc (suc (suc (suc (suc k)))))) 0x86 m' d disk (λ more. refl)
          (omega arith) ok in
      (ap (λ r. r.1) same ∙ bytes, y, ap (λ r. r.0.disk) same ∙ done)

  program_run :
      (f : ℕ → Signals) (number low high sector : ℕ) (m : Machine S P)
      → let (done, bytes) = read_all (set_address low high sector (select_disk number m.disk)) in
        done.disk_err ≡ 0
        → let (m', got) = exchange f 0 (read_program number low high sector) m in
          (got ≡ bytes) × (y : ℕ) × (m'.disk ≡ given y done)
  program_run f number low high sector m ok =
      let (m', same, disk) = select_run f 0 number (read_accesses low high sector) m in
      let chosen : set_address low high sector m'.disk
          ≡ set_address low high sector (select_disk number m.disk) =
        ap (set_address low high sector) disk
        ∙ opcode_unused low high sector (select_disk number m.disk) in
      let (bytes, y, done) =
        read_run f 2 low high sector m' (ap (λ e. (read_all e).0.disk_err) chosen ∙ ok) in
      (
        ap (λ r. r.1) same ∙ (bytes ∙ ap (λ e. (read_all e).1) chosen),
        y,
        ap (λ r. r.0.disk) same ∙ (done ∙ ap (λ e. given y (read_all e).0) chosen),
      )

-- The Z80 selects disk `number`, track `high * 256 + low` and a sector and reads 512 bytes, all of
-- it by OUT and IN instructions, each a pass of the IOS's main loop, whatever interrupts the IOS
-- raises and whatever the times: the bytes are those of the file `DSsNnn.DSK` of the server at that
-- sector, there is no error, and no call hangs. The number is at most 99, the track below 512, the
-- sector below 32. The virtual disk is in use, `bufferSD` has 32 bytes, no call hangs before and no
-- packet is under way, and the client's packet has the sizes of its C types. The name is that of a
-- file of bytes and of no emulated disk, and the file has the sector.
pub program_reads :
    {D : LibDsk} {P : Ports} (g : Config) (wifi : ℕ) (F : PetitFs) (fuel stray : ℕ) (image : List ℕ)
    (s : Server D) (m : Machine (disk D g wifi F fuel stray) P) (f : ℕ → Signals)
    (number low high sector : ℕ)
    → m.disk.storage.virt_disk_flag ≡ true
    → m.disk.storage.hung ≡ false
    → length m.disk.buffer_sd ≡ 32
    → m.disk.storage.master.wire.net ≡ (s, [])
    → IsPacket m.disk.storage.master.wire.packet
    → emu_index g.disk_emu_filename (disk_name m.disk.disk_set number) ≡ none
    → lookup (g.file_path ++ disk_name m.disk.disk_set number) s.files ≡ some image
    → Bytes image
    → number ≤ 99
    → low < 256
    → high * 256 + low < 512
    → sector < 32
    → ((high * 256 + low) * 32 + sector) * 512 + 512 ≤ length image
    → let (m', got) = exchange f 0 (read_program number low high sector) m in
      (got ≡ window image (((high * 256 + low) * 32 + sector) * 512) 512)
      × (m'.disk.disk_err ≡ 0)
      × (m'.disk.storage.hung ≡ false)
program_reads g wifi F fuel stray image s m f number low high sector flag alive buff quiet fits
      plain there bytes few l t h size =
    let (read, fine, over, living) =
      disk_read g wifi F fuel stray image s m.disk number low high sector flag alive buff quiet fits
        plain there bytes few l t h size in
    let (same, y, reached) = program_run f number low high sector m fine in
    (same ∙ read, ap (λ d. d.disk_err) reached ∙ fine, ap (λ d. d.storage.hung) reached ∙ living)
