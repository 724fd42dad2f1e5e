-- ===== src/Tests/Sectors.antt =====
-- The theorems on whole sectors, at a server with a file of 1024 bytes.
use wi_fi_virt_disk.Base.{ℕ, ◌≡◌, refl, List, [], ◌∷◌, none, arith, replicate, true, false}
use wi_fi_virt_disk.Client.State.{status_reset}
use wi_fi_virt_disk.Client.Fill.{window}
use wi_fi_virt_disk.Server.Stream.{lookup, overwrite}
use wi_fi_virt_disk.Server.State.{Server, is_emulated, emu_index}
use wi_fi_virt_disk.Server.Refine.{Serves}
use wi_fi_virt_disk.Ios.Disk.{DiskState, no_operation}
use wi_fi_virt_disk.Ios.Segments.{reads}
use wi_fi_virt_disk.Ios.Sd.{PetitFs}
use wi_fi_virt_disk.Ios.SectorWrite.{writes}
use wi_fi_virt_disk.Board.Seek.{Selected}
use wi_fi_virt_disk.Board.Sector.{disk, IsAddressed, sector_read}
use wi_fi_virt_disk.Board.SectorWrite.{sector_written}
use wi_fi_virt_disk.Tests.Chain.{connected_to, connected_to-Selected}
use wi_fi_virt_disk.Tests.Bytes.{replicate-Bytes}
use wi_fi_virt_disk.Tests.Fixtures.{bad_disks, config, image_path, serving}

-- A card that always fails
abbrev pub no_card : PetitFs
no_card = record {
  Fat = ℕ;
  pf_mount = λ f. (f, 2);
  pf_open = λ f name. (f, 3);
  pf_read = λ f buff n. (f, 1, buff, none);
  pf_write = λ f buff n. (f, 1, none);
  pf_lseek = λ f ofs. (f, 1);
}

abbrev pub disk_image : List ℕ
disk_image = replicate 1024 7

abbrev disk_server : Server bad_disks
disk_server = serving disk_image (b'A' ∷ [])

disk_server-Serves : Serves config (b'A' ∷ []) image_path disk_image disk_server
unfolding lookup is_emulated emu_index
disk_server-Serves = record {
  named = refl;
  plain = refl;
  opened = refl;
  at_path = refl;
  found = refl;
}

-- READSECT or WRITESECT of the second sector
abbrev second : DiskState (disk bad_disks config 3 no_card 8 0)
second = record {
  storage = record {
    virt_disk_flag = true;
    master = record { wire = connected_to disk_server; vd_status = status_reset };
    fat = 0;
    hung = false;
  };
  disk_set = 0;
  track_sel = 0;
  sect_sel = 1;
  disk_err = 0;
  buffer_sd = replicate 32 0;
  io_data = 0;
  io_opcode = 0x86;
  io_byte_cnt = 0;
}

second-IsAddressed : IsAddressed bad_disks config 3 no_card 8 0 second
second-IsAddressed = record {
  virtual = refl;
  alive = refl;
  track_512 = omega arith;
  sect_32 = omega arith;
  no_error = refl;
  first_byte = refl;
  segment_32 = refl;
}

sector_read_example :
    let (done, got) = reads 512 second in
    (got ≡ window disk_image 512 512)
    × (done.disk_err ≡ 0)
    × (done.io_opcode ≡ no_operation)
    × (done.storage.hung ≡ false)
sector_read_example =
    sector_read config 3 no_card 8 0 (b'A' ∷ []) image_path disk_image disk_server second
      disk_server-Serves (connected_to-Selected disk_server) (replicate-Bytes 1024 7 (omega arith))
      second-IsAddressed (omega arith)

abbrev nines : List ℕ
nines = replicate 512 9

sector_written_example :
    let done = writes nines second in
    (done.disk_err ≡ 0)
    × (done.io_opcode ≡ no_operation)
    × (done.storage.virt_disk_flag ≡ true)
    × (done.storage.hung ≡ false)
    × (s' : Server bad_disks) × Serves config
        (b'A' ∷ [])
        image_path
        (overwrite disk_image 512 nines)
        s'
    × Selected config (b'A' ∷ []) s' done.storage.master.wire
sector_written_example =
    sector_written config 3 no_card 8 0 (b'A' ∷ []) image_path disk_image disk_server second nines
      disk_server-Serves (connected_to-Selected disk_server) refl second-IsAddressed refl

-- READSECT of that sector after it has been written
abbrev again : DiskState (disk bad_disks config 3 no_card 8 0)
again = record second { storage = (writes nines second).storage }

written_states :
    ((writes nines second).storage.virt_disk_flag ≡ true)
    × ((writes nines second).storage.hung ≡ false)
written_states =
    let (_, _, flag, alive, _, _, _) =
      sector_written config 3 no_card 8 0 (b'A' ∷ []) image_path disk_image disk_server second nines
        disk_server-Serves (connected_to-Selected disk_server) refl second-IsAddressed refl in
    (flag, alive)

again-IsAddressed : IsAddressed bad_disks config 3 no_card 8 0 again
again-IsAddressed = record {
  virtual = written_states.0;
  alive = written_states.1;
  track_512 = omega arith;
  sect_32 = omega arith;
  no_error = refl;
  first_byte = refl;
  segment_32 = refl;
}
