-- ===== src/Server/Failures.antt =====
-- What the server does where a disk or a file fails it.
use wi_fi_virt_disk.Base.{
  ℕ, ◌+◌, ◌<◌, ◌≡◌, ◌≢◌, ap, ◌∙◌, true, false, List, ◌++◌, none, some, arith, str_eq, pos, length,
  ne→==_false,
}
use wi_fi_virt_disk.Packet.{Packet, name_of}
use wi_fi_virt_disk.Packet.VdStatus
use wi_fi_virt_disk.Server.Stream.{lookup, open_file, close, clear, seekg, seekp, tellg, content}
use wi_fi_virt_disk.Server.Stream.Laws.{read_short, failed_transfers}
use wi_fi_virt_disk.Server.Device.{LibDsk}
use wi_fi_virt_disk.Server.State.{
  Config, Server, is_emulated, emu_index, replied, message, sector_of, add_sector,
}
use wi_fi_virt_disk.Server.Select.{
  sel_file, select_emulated, select_plain, close_previous, open_image,
}
use wi_fi_virt_disk.Server.Transfer.{
  rd_file, wr_file, read_emulated, read_plain, write_plain, write_emulated,
}

module _ {D : LibDsk} (g : Config) (s : Server D) (p : Packet) where
  -- The selection of a name that is no emulated disk and no file: the reply says so, no file is
  -- open, and an error was printed.
  select_missing :
      emu_index g.disk_emu_filename (name_of p) ≡ none
      → lookup (g.file_path ++ name_of p) s.files ≡ none
      → let o = sel_file g s p in
        (o.1.status ≡ VdStatus.disk_not_found)
        × (o.2 ≡ replied)
        × (o.0.file_stream.is_open ≡ false)
        × (o.0.is_error ≡ true)
  unfolding sel_file select_plain open_file close message
  select_missing e m = ground arith

  -- The selection of a file that is there, and is no emulated disk: it is open at its beginning,
  -- whatever was open before, and the reply is 0.
  pub select_found :
      (image : List ℕ)
      → emu_index g.disk_emu_filename (name_of p) ≡ none
      → lookup (g.file_path ++ name_of p) s.files ≡ some image
      → let o = sel_file g s p in
        (o.1.status ≡ VdStatus.ok)
        × (o.2 ≡ replied)
        × (o.0.filename ≡ name_of p)
        × (o.0.file_pos ≡ pos 0)
        × (o.0.file_stream ≡ record {
          is_open = true;
          path = g.file_path ++ name_of p;
          at = 0;
          at_eof = false;
          bad = false;
        })
  unfolding sel_file select_plain open_file close clear seekg seekp tellg
  select_found image e m = ground arith

  -- The selection of an emulated disk leaves the position and the open file as they were, and is
  -- answered with 0 also if LibDsk cannot open the disk; then an error was printed.
  select_emulated_result :
      (i : ℕ)
      → emu_index g.disk_emu_filename (name_of p) ≡ some i
      → let o = sel_file g s p in
        (o.1.status ≡ VdStatus.ok)
        × (o.2 ≡ replied)
        × (o.0.file_pos ≡ s.file_pos)
        × (o.0.file_stream ≡ s.file_stream)
        × (o.0.drive.opened ≡ false → o.0.is_error ≡ true)
  unfolding sel_file select_emulated open_image close_previous message
  select_emulated_result i e =
      (ground arith, ground arith, ground arith, ground arith, λ h. ground arith)

  -- A read of the selected emulated disk is answered with status 0 and length 512 whatever LibDsk says of
  -- it. Its error is only printed: the bytes are what LibDsk left in the buffer.
  emulated_read_result :
      str_eq s.filename (name_of p) ≡ true
      → is_emulated g s.filename ≡ true
      → let r = D.dsk_lread s.disks s.drive.dev s.drive.geom s.sector (sector_of s.file_pos) in
        let o = rd_file g s p in
        (o.1.status ≡ VdStatus.ok)
        × (o.1.data_len ≡ 512)
        × (o.1.payload ≡ r.1)
        × (o.2 ≡ replied)
        × (o.0.file_pos ≡ add_sector s.file_pos)
        × (r.2 ≢ 0 → o.0.is_error ≡ true)
  unfolding rd_file read_emulated message
  emulated_read_result named emulated = (
    ground arith,
    ground arith,
    ground arith,
    ground arith,
    ground arith,
    λ h. ground (
      arith,
      ne→==_false (D.dsk_lread s.disks s.drive.dev s.drive.geom s.sector (sector_of s.file_pos)).2 0
          h,
    ),
  )

  -- A write to the selected emulated disk is answered with the packet as it was sent, whatever LibDsk
  -- says of it; its error is only printed.
  emulated_write_result :
      str_eq s.filename (name_of p) ≡ true
      → is_emulated g s.filename ≡ true
      → let r = D.dsk_lwrite s.disks s.drive.dev s.drive.geom p.payload (sector_of s.file_pos) in
        let o = wr_file g s p in
        (o.1 ≡ p)
        × (o.2 ≡ replied)
        × (o.0.file_pos ≡ add_sector s.file_pos)
        × (o.0.disks ≡ r.0)
        × (r.1 ≢ 0 → o.0.is_error ≡ true)
  unfolding wr_file write_emulated message
  emulated_write_result named emulated = (
    ground arith,
    ground arith,
    ground arith,
    ground arith,
    λ h. ground (
      arith,
      ne→==_false (D.dsk_lwrite s.disks s.drive.dev s.drive.geom p.payload (sector_of s.file_pos)).1
          0 h,
    ),
  )

-- The server after a short read of a file
after_short_read :
    {D : LibDsk} (g : Config) (s : Server D) (p : Packet)
    → str_eq s.filename (name_of p) ≡ true
    → is_emulated g s.filename ≡ false
    → length (content s.files s.file_stream) < s.file_stream.at + 512
    → let after = (rd_file g s p).0 in
      (after.filename ≡ s.filename)
      × (after.files ≡ s.files)
      × (after.file_stream.bad ≡ true)
      × (after.file_stream.is_open ≡ s.file_stream.is_open)
unfolding rd_file read_plain
after_short_read g s p np plain short =
    ground (arith, read_short s.file_stream s.files 512 (omega arith) short)

-- A server whose stream has failed, in transfers of the selected file
failed_stream :
    {D : LibDsk} (g : Config) (s : Server D) (q : Packet)
    → str_eq s.filename (name_of q) ≡ true
    → is_emulated g s.filename ≡ false
    → s.file_stream.is_open ≡ true
    → s.file_stream.bad ≡ true
    → let r = rd_file g s q in
      let w = wr_file g s q in
      (r.1.status ≡ VdStatus.ok)
      × (r.1.data_len ≡ 0)
      × (w.0.files ≡ s.files)
      × (w.1 ≡ q)
      × (w.2 ≡ replied)
unfolding rd_file read_plain wr_file write_plain
failed_stream g s q nq plain opened bad =
    ground (arith, failed_transfers s.file_stream s.files 512 q.payload bad)

-- A read of the selected file that finds fewer than 512 bytes makes the stream fail: a read after
-- it gives no bytes, with the status 0, and a write after it changes no file and is answered with
-- the packet as it was sent.
pub short_read_breaks :
    {D : LibDsk} (g : Config) (s : Server D) (p q : Packet)
    → str_eq s.filename (name_of p) ≡ true
    → str_eq s.filename (name_of q) ≡ true
    → is_emulated g s.filename ≡ false
    → s.file_stream.is_open ≡ true
    → length (content s.files s.file_stream) < s.file_stream.at + 512
    → let after = (rd_file g s p).0 in
      let r = rd_file g after q in
      let w = wr_file g after q in
      (r.1.status ≡ VdStatus.ok)
      × (r.1.data_len ≡ 0)
      × (w.0.files ≡ s.files)
      × (w.1 ≡ q)
      × (w.2 ≡ replied)
short_read_breaks g s p q np nq plain opened short =
    let (name, files, bad, still) = after_short_read g s p np plain short in
    let after = (rd_file g s p).0 in
    let nq' = ap (λ n. str_eq n (name_of q)) name ∙ nq in
    let plain' = ap (is_emulated g) name ∙ plain in
    let (a, b, c, d, e) = failed_stream g after q nq' plain' (still ∙ opened) bad in
    (a, b, c ∙ files, d, e)
