-- ===== src/Board/Sector.antt =====
-- READSECT of the Z80 with the virtual disk behind it: from the opcode in the IOS through client and
-- server to the image and back.
use wi_fi_virt_disk.Base.{
  ℕ, suc, ◌+◌, ◌*◌, ◌^◌, ◌<◌, ◌≤◌, ◌≡◌, refl, ap, ◌∙◌, sym, subst, true, false, List, some, arith,
  length, drop, length-take, length-drop, u8, u16, u32, lt→ltb, if◌then◌else◌, ◌==◌, ◌||◌,
}
use wi_fi_virt_disk.Hspi.Words.{Bytes}
use wi_fi_virt_disk.Client.State.{VdData, status_reset}
use wi_fi_virt_disk.Client.Read.{advance}
use wi_fi_virt_disk.Client.Fill.{window}
use wi_fi_virt_disk.Client.Answer.{loaded}
use wi_fi_virt_disk.Server.Device.{LibDsk}
use wi_fi_virt_disk.Server.State.{Config, Server}
use wi_fi_virt_disk.Server.Image.{block, zero_padded}
use wi_fi_virt_disk.Server.Refine.{Serves}
use wi_fi_virt_disk.Ios.Link.{SpiLink, Master}
use wi_fi_virt_disk.Ios.Control.{vd_lseek}
use wi_fi_virt_disk.Ios.Read.{Reading, copy_bytes, vd_read}
use wi_fi_virt_disk.Ios.Copy.{copy_bytes-whole}
use wi_fi_virt_disk.Ios.Disk.{Storage, DiskState, first_seek, logical_sector, no_operation}
use wi_fi_virt_disk.Ios.Segments.{reads}
use wi_fi_virt_disk.Ios.Sector.{sector_bytes, length-window}
use wi_fi_virt_disk.Ios.Sd.{PetitFs, SdState, sd, seek_sd, read_sd, vd_result}
use wi_fi_virt_disk.Board.Wiring.{spi_link, tcp_link}
use wi_fi_virt_disk.Board.Blocks.{zero_padded-Bytes, window-block}
use wi_fi_virt_disk.Board.Seek.{Selected, lseek-sought}
use wi_fi_virt_disk.Board.ReadRounds.{loaded-kept}
use wi_fi_virt_disk.Board.ReadSegment.{segment_read}
use wi_fi_virt_disk.Board.SeekRead.{after_seek, loaded-sector}

vd_read_sd :
    {S : SpiLink} {F : PetitFs} (fuel stray : ℕ) (s : SdState S F) (buff : List ℕ)
    (out : Master S × Reading) (n : ℕ)
    → s.virt_disk_flag ≡ true
    → vd_read fuel buff 32 s.master ≡ some out
    → out.1.taken ≡ some n
    → read_sd fuel stray s buff ≡ (record s { master = out.0 }, out.1.status, out.1.buff, u8 n)
unfolding read_sd vd_result
vd_read_sd fuel stray s buff out n flag done count = rw (flag, done, count) refl

pub vd_seek_sd :
    {S : SpiLink} {F : PetitFs} (fuel stray : ℕ) (s : SdState S F) (n : ℕ)
    → s.virt_disk_flag ≡ true
    → n < 2 ^ 14
    → seek_sd fuel stray s n
      ≡ (record s { master = (vd_lseek (n * 512) s.master).0 }, (vd_lseek (n * 512) s.master).1)
unfolding seek_sd
vd_seek_sd fuel stray s n flag small =
    let same : u32 (u16 n * 512) ≡ n * 512 = omega arith in rw (flag, same) refl

pub first_seek-done :
    {S : Storage} (d : DiskState S) (st : S.State) (e : ℕ)
    → d.track_sel < 512
    → d.sect_sel < 32
    → d.disk_err ≡ 0
    → d.io_byte_cnt ≡ 0
    → S.seek_sd d.storage (logical_sector d.track_sel d.sect_sel) ≡ (st, e)
    → first_seek d ≡ record d { storage = st; disk_err = e }
unfolding first_seek
first_seek-done d st e track sect ok count sought =
    rw (count, ok, lt→ltb d.track_sel 512 track, lt→ltb d.sect_sel 32 sect, sought) refl

-- The storage of the opcodes with the virtual disk
abbrev pub disk : LibDsk → Config → ℕ → PetitFs → ℕ → ℕ → Storage
disk D g wifi F fuel stray = sd (spi_link (tcp_link D g) wifi) F (suc (suc fuel)) stray

-- The virtual disk is in use and no call hangs; SELTRACK and SELSECT have left a legal address and no
-- error; no byte has been exchanged; `bufferSD` has its size.
pub record IsAddressed (D : LibDsk) (g : Config) (wifi : ℕ) (F : PetitFs) (fuel stray : ℕ)
    (d : DiskState (disk D g wifi F fuel stray)) : Type 0 where
  pub virtual : d.storage.virt_disk_flag ≡ true
  pub alive : d.storage.hung ≡ false
  pub track_512 : d.track_sel < 512
  pub sect_32 : d.sect_sel < 32
  pub no_error : d.disk_err ≡ 0
  pub first_byte : d.io_byte_cnt ≡ 0
  pub segment_32 : length d.buffer_sd ≡ 32

module _ {D : LibDsk} (g : Config) (wifi : ℕ) (F : PetitFs) (fuel stray : ℕ)
    (name path image : List ℕ) (s : Server D) (serves : Serves g name path image s)
    (m : Master (spi_link (tcp_link D g) wifi)) (selected : Selected g name s m.wire)
    (bytes : Bytes image) where
  abbrev Sd : Storage
  Sd = disk D g wifi F fuel stray

  module _ (ofs : ℕ) (range : ofs < 2 ^ 32) (there : ofs + 512 ≤ length image) where
    abbrev block_bytes : List ℕ
    block_bytes = zero_padded (block image ofs)

    -- The client's buffer when `k` segments have been read
    abbrev at_segment : ℕ → VdData
    at_segment k = record (m.wire.vd_data) {
      buffer = block_bytes;
      data_len = 512;
      file_pos = 32 * k;
    }

    abbrev Ready : ℕ → Sd.State → Type 0
    Ready k st =
        (st.virt_disk_flag ≡ true)
        × (st.hung ≡ false)
        × (k < 16 → (loaded st.master.wire).vd_data ≡ at_segment k)

    advanced : (k : ℕ) → k < 15 → advance (at_segment k) 32 ≡ at_segment (suc k)
    unfolding advance
    advanced k h =
        let place : 32 * k + 32 ≡ 32 * suc k = omega arith in
        let kept : (if 32 * k + 32 == 512 || 32 * k + 32 == 512 then 0 else 512) ≡ 512 =
          ground arith in
        λ i. record (m.wire.vd_data) { buffer = block_bytes; data_len = kept i; file_pos = place i }

    feed :
        (k : ℕ) (st : Sd.State) (buff : List ℕ)
        → k < 16
        → Ready k st
        → length buff ≡ 32
        → (after : Sd.State) × (Sd.read_sd st buff
            ≡ (after, 0, window block_bytes (0 + 32 * k) 32, 32))
          × Ready (suc k) after
    feed k st buff small (flag, alive, here) size =
        let now = here small in
        let (out, done, ok, count, got, moved) =
          segment_read wifi st.master
            (subst (λ d. Bytes d.buffer) (sym now) (zero_padded-Bytes image ofs bytes))
            (subst (λ d. d.file_pos + 32 ≤ 512) (sym now) (omega arith))
            (subst (λ d. d.file_pos + 32 ≤ d.data_len) (sym now) (omega arith)) fuel 32 buff
            (omega arith) in
        let w = window block_bytes (32 * k) 32 in
        let place : 32 * k ≡ 0 + 32 * k = omega arith in
        let from = ap (λ p. window block_bytes p 32) place in
        let whole = copy_bytes-whole buff w (size ∙ sym (length-window block_bytes (32 * k) 32)) in
        let filled =
          got ∙ ap (λ d. copy_bytes buff 0 (window d.buffer d.file_pos 32)) now ∙ whole in
        (
          record st { master = out.0 },
          vd_read_sd (suc (suc fuel)) stray st buff out 32 flag done count ∙ λ i.
              (record st { master = out.0 }, ok i, (filled ∙ from) i, 32),
          (
            flag,
            alive,
            λ next.
                loaded-kept out.0.wire (at_segment (suc k))
                  (moved ∙ ap (λ d. advance d 32) now ∙ advanced k (omega arith)) (omega arith),
          ),
        )

  -- with the master of the section
  read_with :
      (d : DiskState Sd)
      → IsAddressed D g wifi F fuel stray d
      → d.storage.master ≡ m
      → logical_sector d.track_sel d.sect_sel * 512 + 512 ≤ length image
      → let (done, got) = reads 512 d in
        (got ≡ window image (logical_sector d.track_sel d.sect_sel * 512) 512)
        × (done.disk_err ≡ 0)
        × (done.io_opcode ≡ no_operation)
        × (done.storage.hung ≡ false)
  read_with d v board there =
      let track = v.track_512 in
      let sect = v.sect_32 in
      let n = logical_sector d.track_sel d.sect_sel in
      let small : n < 2 ^ 14 = omega arith in
      let ofs = n * 512 in
      let range : ofs < 2 ^ 32 = omega arith in
      let here : Master (spi_link (tcp_link D g) wifi) = record {
        wire = after_seek g wifi name path image s serves m selected ofs range;
        vd_status = status_reset;
      } in
      let st : Sd.State = record (d.storage) { master = here } in
      let found = lseek-sought g wifi name path image s serves m selected ofs range in
      let sought : Sd.seek_sd d.storage n ≡ (st, 0) =
        vd_seek_sd (suc (suc fuel)) stray d.storage n v.virtual small
        ∙ ap (λ x. (record (d.storage) { master = (vd_lseek ofs x).0 }, (vd_lseek ofs x).1)) board
        ∙ ap (λ r. (record (d.storage) { master = r.0 }, r.1)) found in
      let begun = first_seek-done d st 0 track sect v.no_error v.first_byte sought in
      let full : length (block image ofs) ≡ 512 =
        omega (arith, length-take 512 (drop ofs image), length-drop ofs image) in
      let first : (loaded here.wire).vd_data ≡ at_segment ofs range there 0 =
        loaded-sector g wifi name path image s serves m selected ofs range ∙ λ i.
        record (m.wire.vd_data) {
          buffer = zero_padded (block image ofs);
          data_len = full i;
          file_pos = 0;
        } in
      let ready : Ready ofs range there 0 st = (v.virtual, v.alive, λ h. first) in
      let (got, (fine, _, over, (_, living, _))) =
        sector_bytes (zero_padded (block image ofs)) 0 (Ready ofs range there)
          (feed ofs range there) d v.first_byte (ap (λ x. x.disk_err) begun)
          (subst (λ x. Ready ofs range there 0 x.storage) (sym begun) ready)
          (ap (λ x. length x.buffer_sd) begun ∙ v.segment_32) in
      (got ∙ window-block image ofs 512 (omega arith) there, fine, over, living)

-- The Z80 reads a sector of the image, byte by byte: where the server has the file open, the client
-- has it selected and no packet is under way, where the opcodes have left a legal address and no
-- error, and the image of bytes has the whole sector, the 512 calls of READSECT give the 512 bytes of the
-- image at sector `32 * track + sector`. There is no error, the opcode is done, and no call hangs.
pub sector_read :
    {D : LibDsk} (g : Config) (wifi : ℕ) (F : PetitFs) (fuel stray : ℕ) (name path image : List ℕ)
    (s : Server D) (d : DiskState (disk D g wifi F fuel stray))
    → Serves g name path image s
    → Selected g name s d.storage.master.wire
    → Bytes image
    → IsAddressed D g wifi F fuel stray d
    → logical_sector d.track_sel d.sect_sel * 512 + 512 ≤ length image
    → let (done, got) = reads 512 d in
      (got ≡ window image (logical_sector d.track_sel d.sect_sel * 512) 512)
      × (done.disk_err ≡ 0)
      × (done.io_opcode ≡ no_operation)
      × (done.storage.hung ≡ false)
sector_read g wifi F fuel stray name path image s d serves selected bytes v there =
    read_with g wifi F fuel stray name path image s serves d.storage.master selected bytes d v refl
      there
