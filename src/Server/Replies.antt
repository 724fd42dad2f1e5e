-- ===== src/Server/Replies.antt =====
-- Which packets get a reply, and what a command leaves alone.
use wi_fi_virt_disk.Base.{ℕ, ◌≡◌, ◌≢◌, Bool, ◌&&◌, ◌||◌, List, arith, str_eq, if◌then◌else◌, ◌==◌}
use wi_fi_virt_disk.Packet.{Packet, code, Command, name_of}
use wi_fi_virt_disk.Server.Stream.{lookup}
use wi_fi_virt_disk.Server.Stream.Laws.{write-lookup_ne}
use wi_fi_virt_disk.Server.Device.{LibDsk}
use wi_fi_virt_disk.Server.State.{Config, Server, is_emulated, replied, silent, message}
use wi_fi_virt_disk.Server.Select.{
  sel_file, seek_file, select_emulated, select_plain, seek_plain, close_previous, open_image,
}
use wi_fi_virt_disk.Server.Transfer.{
  rd_file, wr_file, read_plain, read_emulated, write_plain, write_emulated,
}
use wi_fi_virt_disk.Server.Process.{process_cmd}

-- A selection or a read is always answered; a write or a seek if it names the selected disk and
-- there is something to write to.
abbrev pub is_answered : {D : LibDsk} → Config → Server D → Packet → Bool
is_answered g s p =
    p.cmd == code Command.sel_file
    || p.cmd == code Command.rd_file
    || ((p.cmd == code Command.wr_file || p.cmd == code Command.seek_file)
        && (str_eq s.filename (name_of p) && (is_emulated g s.filename || s.file_stream.is_open)))

module _ {D : LibDsk} (g : Config) (s : Server D) (p : Packet) where
  sel_file-replied : (sel_file g s p).2 ≡ replied
  unfolding sel_file select_emulated select_plain
  sel_file-replied = ground arith

  rd_file-replied : (rd_file g s p).2 ≡ replied
  unfolding rd_file read_plain read_emulated
  rd_file-replied = ground arith

  -- A packet gets a reply exactly if `is_answered` says so; without one the server's state is as
  -- it was.
  pub process_cmd-replies :
      ((process_cmd g s p).2 ≡ (if is_answered g s p then replied else silent))
      × ((process_cmd g s p).2 ≡ silent → (process_cmd g s p).0 ≡ s)
  unfolding process_cmd wr_file write_plain write_emulated seek_file
  process_cmd-replies = (
    ground (arith, sel_file-replied, rd_file-replied),
    λ h. ground (arith, sel_file-replied, rd_file-replied),
  )

  sel_file-files : (sel_file g s p).0.files ≡ s.files
  unfolding sel_file select_emulated select_plain close_previous open_image message
  sel_file-files = ground arith

  rd_file-files : (rd_file g s p).0.files ≡ s.files
  unfolding rd_file read_plain read_emulated message
  rd_file-files = ground arith

  seek_file-files : (seek_file g s p).0.files ≡ s.files
  unfolding seek_file seek_plain
  seek_file-files = ground arith

  wr_file-files :
      (other : List ℕ)
      → other ≢ s.file_stream.path
      → lookup other (wr_file g s p).0.files ≡ lookup other s.files
  unfolding wr_file write_plain write_emulated message
  wr_file-files other ne = ground (arith, write-lookup_ne s.file_stream s.files p.payload other ne)

  -- No command changes a file other than the selected one, and only a write changes any.
  pub process_cmd-files :
      (other : List ℕ)
      → other ≢ s.file_stream.path
      → (lookup other (process_cmd g s p).0.files ≡ lookup other s.files)
        × (p.cmd ≢ code Command.wr_file → (process_cmd g s p).0.files ≡ s.files)
  unfolding process_cmd
  process_cmd-files other ne = (
    ground (arith, sel_file-files, rd_file-files, seek_file-files, wr_file-files other ne),
    λ h. ground (arith, sel_file-files, rd_file-files, seek_file-files),
  )
