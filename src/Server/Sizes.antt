-- ===== src/Server/Sizes.antt =====
-- The sizes of the packets that the server sends and of its sector buffer (virtDisk.cpp of
-- WiFi-VirtDisk-Server/src).
use wi_fi_virt_disk.Base.{
  ℕ, ◌-◌, ◌≤◌, ◌≡◌, refl, ◌∙◌, List, ◌++◌, if◌then◌else◌, ◌==◌, str_eq, arith, length, drop,
  replicate, length-append, length-take, length-replicate, ap, if-cases, subst, sym,
}
use wi_fi_virt_disk.Packet.{Packet, IsPacket, code, Command, name_of}
use wi_fi_virt_disk.Packet.VdStatus
use wi_fi_virt_disk.Server.Stream.{Stream, Files, read, content}
use wi_fi_virt_disk.Server.Device.{LibDsk}
use wi_fi_virt_disk.Server.State.{
  sector_of, Config, Server, Outcome, message, is_emulated, err, replied, silent,
}
use wi_fi_virt_disk.Server.Select.{
  sel_file, seek_file, select_emulated, select_plain, seek_plain, close_previous, open_image,
}
use wi_fi_virt_disk.Server.Transfer.{
  rd_file, wr_file, read_plain, read_emulated, write_plain, write_emulated,
}
use wi_fi_virt_disk.Server.Process.{process_cmd}

-- `dsk_lread` fills the buffer that it is given.
abbrev pub FillsBuffer : LibDsk → Type 0
FillsBuffer D =
    (disks : D.Disks) (dev : D.Driver) (geom : D.Geometry) (buffer : List ℕ) (n : ℕ)
    → length (D.dsk_lread disks dev geom buffer n).1 ≡ length buffer

-- The array `sector` of the server and the arrays of the packet
pub record IsSized {D : LibDsk} (o : Outcome D) : Type 0 where
  pub sector_512 : length o.0.sector ≡ 512
  pub packet_sizes : IsPacket o.1

read-length : (s : Stream) (files : Files) (n : ℕ) → length (read s files n).1 ≤ n
unfolding read
read-length s files n = ground (arith, length-take n (drop s.at (content files s)))

status-IsPacket : (p : Packet) (st : ℕ) → IsPacket p → IsPacket (record p { status = st })
status-IsPacket p st v = record {
  name_13 = v.name_13;
  offset_32 = v.offset_32;
  track_16 = v.track_16;
  payload_512 = v.payload_512;
  len_16 = v.len_16;
}

read-IsPacket :
    (p : Packet) (bytes : List ℕ) (count st : ℕ)
    → IsPacket p
    → length bytes ≡ 512
    → count ≤ 512
    → IsPacket (record p { payload = bytes; data_len = count; status = st })
read-IsPacket p bytes count st v l h = record {
  name_13 = v.name_13;
  offset_32 = v.offset_32;
  track_16 = v.track_16;
  payload_512 = l;
  len_16 = omega arith;
}

module _ {D : LibDsk} (fills : FillsBuffer D) (g : Config) (s : Server D) (p : Packet)
    (sector : length s.sector ≡ 512) (v : IsPacket p) where
  sel_file-keeps :
      ((sel_file g s p).0.sector ≡ s.sector)
      × ((sel_file g s p).1 ≡ record p { status = (sel_file g s p).1.status })
  unfolding sel_file select_emulated select_plain close_previous open_image message
  sel_file-keeps = (ground arith, ground arith)

  seek_file-keeps :
      ((seek_file g s p).0.sector ≡ s.sector)
      × ((seek_file g s p).1 ≡ record p { status = (seek_file g s p).1.status })
  unfolding seek_file seek_plain
  seek_file-keeps = (ground arith, ground arith)

  -- the sizes of an outcome that keeps the sector and all of the packet but its status
  kept-IsSized :
      (o : Outcome D)
      → (o.0.sector ≡ s.sector) × (o.1 ≡ record p { status = o.1.status })
      → IsSized o
  kept-IsSized o (same, packet) = record {
    sector_512 = ap length same ∙ sector;
    packet_sizes = subst IsPacket (sym packet) (status-IsPacket p o.1.status v);
  }

  read_emulated-IsSized : IsSized (read_emulated s p)
  unfolding read_emulated message
  read_emulated-IsSized =
      let l = fills s.disks s.drive.dev s.drive.geom s.sector (sector_of s.file_pos) ∙ sector in
      record {
        sector_512 = ground (arith, l);
        packet_sizes = read-IsPacket p _ 512 _ v l (omega arith);
      }

  read_plain-IsSized : IsSized (read_plain s p)
  unfolding read_plain
  read_plain-IsSized =
      let got = (read s.file_stream s.files 512).1 in
      let small = read-length s.file_stream s.files 512 in
      let l : length (got ++ replicate (512 - length got) 0) ≡ 512 = omega (
        arith,
        length-append got (replicate (512 - length got) 0),
        length-replicate {A = ℕ} (512 - length got) 0,
      ) in
      record { sector_512 = sector; packet_sizes = read-IsPacket p _ (length got) _ v l small }

  rd_file-IsSized : IsSized (rd_file g s p)
  unfolding rd_file message
  rd_file-IsSized =
      let named = str_eq s.filename (name_of p) in
      let answer = if is_emulated g s.filename then read_emulated s p else read_plain s p in
      let refused : Outcome D =
        (message err s, record p { status = VdStatus.file_rd_error }, replied) in
      if-cases IsSized named answer refused
        (λ t.
          if-cases IsSized (is_emulated g s.filename) (read_emulated s p) (read_plain s p)
            (λ u. read_emulated-IsSized) (λ f. read_plain-IsSized))
        (λ f. kept-IsSized refused (refl, refl))

  wr_file-sector : length (wr_file g s p).0.sector ≡ 512
  unfolding wr_file write_plain write_emulated message
  wr_file-sector = ground (arith, sector, v.payload_512)

  wr_file-packet : (wr_file g s p).1 ≡ p
  unfolding wr_file write_plain write_emulated
  wr_file-packet = ground arith

  wr_file-IsSized : IsSized (wr_file g s p)
  wr_file-IsSized = record { sector_512 = wr_file-sector; packet_sizes = rw wr_file-packet v }

  -- For a packet with arrays and numbers of the sizes of their C types the server leaves such a
  -- packet in the buffer, and its sector buffer keeps its 512 bytes. A logical read of LibDsk fills
  -- the buffer that it is given.
  pub process_cmd-IsSized : IsSized (process_cmd g s p)
  unfolding process_cmd
  process_cmd-IsSized =
      let cmd = p.cmd in
      let sized : IsSized (sel_file g s p) = kept-IsSized (sel_file g s p) sel_file-keeps in
      let sought : IsSized (seek_file g s p) = kept-IsSized (seek_file g s p) seek_file-keeps in
      let ignored : Outcome D = (s, p, silent) in
      let seek = if cmd == code Command.seek_file then seek_file g s p else ignored in
      let write = if cmd == code Command.wr_file then wr_file g s p else seek in
      let read = if cmd == code Command.rd_file then rd_file g s p else write in
      if-cases IsSized (cmd == code Command.sel_file) (sel_file g s p) read (λ t. sized)
        (λ f.
          if-cases IsSized (cmd == code Command.rd_file) (rd_file g s p) write
            (λ t. rd_file-IsSized)
            (λ f.
              if-cases IsSized (cmd == code Command.wr_file) (wr_file g s p) seek
                (λ t. wr_file-IsSized)
                (λ f.
                  if-cases IsSized (cmd == code Command.seek_file) (seek_file g s p) ignored
                    (λ t. sought) (λ f. kept-IsSized ignored (refl, refl)))))
