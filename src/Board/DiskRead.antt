-- ===== src/Board/DiskRead.antt =====
-- The opcodes with which the Z80 reads a sector of a disk by its number, from SELDISK on.
use wi_fi_virt_disk.Base.{
  ℕ, suc, ◌+◌, ◌-◌, ◌*◌, ◌/◌, ◌<◌, ◌≤◌, ◌≡◌, refl, ap, ◌∙◌, sym, subst, true, false, List, [], ◌∷◌,
  ◌++◌, none, some, arith, length,
}
use wi_fi_virt_disk.Packet.{IsPacket}
use wi_fi_virt_disk.Hspi.Words.{Bytes}
use wi_fi_virt_disk.Client.Fill.{window}
use wi_fi_virt_disk.Server.Device.{LibDsk}
use wi_fi_virt_disk.Server.Stream.{lookup}
use wi_fi_virt_disk.Server.State.{Config, Server, emu_index}
use wi_fi_virt_disk.Ios.Link.{SpiLink}
use wi_fi_virt_disk.Ios.Control.{vd_open}
use wi_fi_virt_disk.Ios.Disk.{
  Storage, DiskState, disk_name, store_opcode, sel_disk, sel_track, sel_sect, no_operation,
}
use wi_fi_virt_disk.Ios.Segments.{reads}
use wi_fi_virt_disk.Ios.Sd.{PetitFs, sd, open_sd}
use wi_fi_virt_disk.Board.OpenFrame.{IsName}
use wi_fi_virt_disk.Board.Open.{file_opened}
use wi_fi_virt_disk.Server.Refine.{Serves}
use wi_fi_virt_disk.Board.Seek.{Selected}
use wi_fi_virt_disk.Board.Sector.{disk, IsAddressed, sector_read}

module _ {S : Storage} where
  -- An opcode and its first byte
  abbrev with_opcode : ℕ → ℕ → DiskState S → DiskState S
  with_opcode opcode byte d = record (store_opcode opcode d) { io_data = byte }

  -- SELDISK
  abbrev pub select_disk : ℕ → DiskState S → DiskState S
  select_disk number d = sel_disk (with_opcode 0x09 number d)

  -- SELTRACK with its two bytes, and SELSECT
  abbrev pub set_address : ℕ → ℕ → ℕ → DiskState S → DiskState S
  set_address low high sector d =
      let tracked = sel_track (record (sel_track (with_opcode 0x0A low d)) { io_data = high }) in
      sel_sect (with_opcode 0x0B sector tracked)

  -- READSECT of a whole sector
  abbrev pub read_all : DiskState S → DiskState S × List ℕ
  read_all d = reads 512 (store_opcode 0x86 d)

  pub address_set :
      (opcode low high sector : ℕ) (d : DiskState S)
      → low < 256
      → high * 256 + low < 512
      → sector < 32
      → let e = store_opcode opcode (set_address low high sector d) in
        (e.storage ≡ d.storage)
        × (e.buffer_sd ≡ d.buffer_sd)
        × (e.track_sel ≡ high * 256 + low)
        × (e.sect_sel ≡ sector)
        × (e.disk_err ≡ 0)
        × (e.io_byte_cnt ≡ 0)
  unfolding store_opcode sel_track sel_sect
  address_set opcode low high sector d l t h = (refl, refl, omega arith, refl, ground arith, refl)

pub disk_name-IsName : (set number : ℕ) → IsName (disk_name set number)
disk_name-IsName set number =
    let tens = number / 10 + 48 in
    let ones = number - number / 10 * 10 + 48 in
    let suffix : IsName (b'.' ∷ b'D' ∷ b'S' ∷ b'K' ∷ []) =
      (λ e. omega arith, (λ e. omega arith, (λ e. omega arith, (λ e. omega arith, tt)))) in
    let digits : IsName (tens ∷ ones ∷ b'.' ∷ b'D' ∷ b'S' ∷ b'K' ∷ []) =
      (λ e. omega arith, (λ e. omega arith, suffix)) in
    (λ e. omega arith, (λ e. omega arith, (λ e. omega arith, (λ e. omega arith, digits))))

opened-disk :
    {L : SpiLink} {F : PetitFs} (fuel stray number : ℕ) (d : DiskState (sd L F fuel stray))
    → d.storage.virt_disk_flag ≡ true
    → number ≤ 99
    → let (m', e) = vd_open (disk_name d.disk_set number) d.storage.master in
      let done = select_disk number d in
      (done.storage ≡ record (d.storage) { master = m' })
      × (done.disk_err ≡ e)
      × (done.buffer_sd ≡ d.buffer_sd)
unfolding store_opcode sel_disk open_sd
opened-disk fuel stray number d flag small =
    (ground (arith, flag), ground (arith, flag), ground (arith, flag))

-- SELTRACK and SELSECT make a state ready for a transfer.
pub address-IsAddressed :
    {D : LibDsk} (g : Config) (wifi : ℕ) (F : PetitFs) (fuel stray opcode low high sector : ℕ)
    (d : DiskState (disk D g wifi F fuel stray))
    → d.storage.virt_disk_flag ≡ true
    → d.storage.hung ≡ false
    → length d.buffer_sd ≡ 32
    → low < 256
    → high * 256 + low < 512
    → sector < 32
    → IsAddressed D g wifi F fuel stray (store_opcode opcode (set_address low high sector d))
address-IsAddressed g wifi F fuel stray opcode low high sector d flag alive buff l t h =
    let (held, same_buff, track, sect, fine, first) = address_set opcode low high sector d l t h in
    record {
      virtual = ap (λ x. x.virt_disk_flag) held ∙ flag;
      alive = ap (λ x. x.hung) held ∙ alive;
      track_512 = omega (arith, track);
      sect_32 = omega (arith, sect);
      no_error = fine;
      first_byte = first;
      segment_32 = ap length same_buff ∙ buff;
    }

-- What the opcodes before READSECT or WRITESECT give: the file is open and selected, and the address
-- is set.
pub disk-IsAddressed :
    {D : LibDsk} (g : Config) (wifi : ℕ) (F : PetitFs) (fuel stray opcode : ℕ) (image : List ℕ)
    (s : Server D) (d : DiskState (disk D g wifi F fuel stray)) (number low high sector : ℕ)
    → d.storage.virt_disk_flag ≡ true
    → d.storage.hung ≡ false
    → length d.buffer_sd ≡ 32
    → d.storage.master.wire.net ≡ (s, [])
    → IsPacket d.storage.master.wire.packet
    → emu_index g.disk_emu_filename (disk_name d.disk_set number) ≡ none
    → lookup (g.file_path ++ disk_name d.disk_set number) s.files ≡ some image
    → number ≤ 99
    → low < 256
    → high * 256 + low < 512
    → sector < 32
    → let name = disk_name d.disk_set number in
      let e = store_opcode opcode (set_address low high sector (select_disk number d)) in
      IsAddressed D g wifi F fuel stray e
      × (e.track_sel * 32 + e.sect_sel ≡ (high * 256 + low) * 32 + sector)
      × (length e.storage.master.wire.vd_data.buffer ≡ length d.storage.master.wire.vd_data.buffer)
      × (s' : Server D) × Serves g name (g.file_path ++ name) image s'
      × Selected g name s' e.storage.master.wire
disk-IsAddressed {D} g wifi F fuel stray opcode image s d number low high sector flag alive buff
      quiet fits plain there few l t h =
    let name = disk_name d.disk_set number in
    let (result, _, room, s', serves, selected) =
      file_opened g wifi name image s d.storage.master (disk_name-IsName d.disk_set number)
        (omega arith) plain there quiet fits in
    let (storage, err, kept) = opened-disk (suc (suc fuel)) stray number d flag few in
    let chosen = select_disk number d in
    let (same, _, track, sect, _, _) = address_set opcode low high sector chosen l t h in
    let held = same ∙ storage in
    let v =
      address-IsAddressed {D = D} g wifi F fuel stray opcode low high sector chosen
        (ap (λ x. x.virt_disk_flag) storage ∙ flag) (ap (λ x. x.hung) storage ∙ alive)
        (ap length kept ∙ buff) l t h in
    (
      v,
      omega (arith, track, sect),
      ap (λ x. length x.master.wire.vd_data.buffer) held ∙ room,
      s',
      serves,
      subst (λ x. Selected g name s' x.master.wire) (sym held) selected,
    )

-- The Z80 selects disk `number`, track `high * 256 + low` and a sector, and reads it: without an
-- error, the 512 bytes are those of the file `DSsNnn.DSK` of the server at that sector, and no call
-- hangs. The number is at most 99, the track below 512, the sector below 32. The virtual disk is in
-- use, `bufferSD` has 32 bytes, no call hangs before and no packet is under way, and the client's
-- packet has the sizes of its C types. The name is that of a file of bytes and of no emulated disk,
-- and the file has the sector.
pub disk_read :
    {D : LibDsk} (g : Config) (wifi : ℕ) (F : PetitFs) (fuel stray : ℕ) (image : List ℕ)
    (s : Server D) (d : DiskState (disk D g wifi F fuel stray)) (number low high sector : ℕ)
    → d.storage.virt_disk_flag ≡ true
    → d.storage.hung ≡ false
    → length d.buffer_sd ≡ 32
    → d.storage.master.wire.net ≡ (s, [])
    → IsPacket d.storage.master.wire.packet
    → emu_index g.disk_emu_filename (disk_name d.disk_set number) ≡ none
    → lookup (g.file_path ++ disk_name d.disk_set number) s.files ≡ some image
    → Bytes image
    → number ≤ 99
    → low < 256
    → high * 256 + low < 512
    → sector < 32
    → ((high * 256 + low) * 32 + sector) * 512 + 512 ≤ length image
    → let (done, got) = read_all (set_address low high sector (select_disk number d)) in
      (got ≡ window image (((high * 256 + low) * 32 + sector) * 512) 512)
      × (done.disk_err ≡ 0)
      × (done.io_opcode ≡ no_operation)
      × (done.storage.hung ≡ false)
disk_read g wifi F fuel stray image s d number low high sector flag alive buff quiet fits plain
      there bytes few l t h size =
    let name = disk_name d.disk_set number in
    let ready = store_opcode 0x86 (set_address low high sector (select_disk number d)) in
    let (v, at, _, s', serves, selected) =
      disk-IsAddressed g wifi F fuel stray 0x86 image s d number low high sector flag alive buff
        quiet fits plain there few l t h in
    let (got, fine, over, living) =
      sector_read g wifi F fuel stray name (g.file_path ++ name) image s' ready serves selected
        bytes v (omega (arith, at, size)) in
    (got ∙ ap (λ n. window image (n * 512) 512) at, fine, over, living)
