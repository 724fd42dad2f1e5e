-- ===== src/Tests/DiskReads.antt =====
-- The theorems on the programs of the Z80 for a sector, at a server with a file for disk 1.
use wi_fi_virt_disk.Base.{
  ℕ, ◌+◌, ◌*◌, ◌≡◌, refl, List, [], ◌∷◌, ◌++◌, arith, replicate, true, false,
}
use wi_fi_virt_disk.Client.State.{status_reset}
use wi_fi_virt_disk.Client.Fill.{window}
use wi_fi_virt_disk.Server.Stream.{lookup}
use wi_fi_virt_disk.Server.State.{Server, emu_index}
use wi_fi_virt_disk.Ios.Disk.{DiskState, disk_name, no_operation}
use wi_fi_virt_disk.Board.Sector.{disk}
use wi_fi_virt_disk.Ios.Machine.{Machine}
use wi_fi_virt_disk.Ios.Machine.Pass.{Signals}
use wi_fi_virt_disk.Ios.Machine.Exchange.{exchange}
use wi_fi_virt_disk.Board.Program.{read_program, program_reads}
use wi_fi_virt_disk.Board.ProgramWrite.{write_read_program, program_reads_back}
use wi_fi_virt_disk.Tests.Machines.{desk, machine, at_rest}
use wi_fi_virt_disk.Tests.Bytes.{replicate-Bytes}
use wi_fi_virt_disk.Tests.Chain.{connected_to, nothing-IsPacket}
use wi_fi_virt_disk.Tests.Fixtures.{bad_disks, config, server}
use wi_fi_virt_disk.Tests.Sectors.{no_card, disk_image}

-- The server with that file, and still with `A` open
abbrev pub with_disk : Server bad_disks
with_disk = record (server (b'A' ∷ [])) {
  files = (config.file_path ++ disk_name 0 1, disk_image) ∷ [];
}

abbrev pub started : DiskState (disk bad_disks config 3 no_card 8 0)
started = record {
  storage = record {
    virt_disk_flag = true;
    master = record { wire = connected_to with_disk; vd_status = status_reset };
    fat = 0;
    hung = false;
  };
  disk_set = 0;
  track_sel = 0;
  sect_sel = 0;
  disk_err = 0;
  buffer_sd = replicate 32 0;
  io_data = 0;
  io_opcode = no_operation;
  io_byte_cnt = 0;
}

abbrev name : List ℕ
name = disk_name 0 1

abbrev busy : Machine (disk bad_disks config 3 no_card 8 0) desk
busy = machine started

-- Every second pass is at a new time.
abbrev times : ℕ → Signals
times k = record (at_rest) { now = k * 100; later = k * 100 + 1 }

program_reads_example :
    let (m', got) = exchange times 0 (read_program 1 0 0 1) busy in
    (got ≡ window disk_image 512 512) × (m'.disk.disk_err ≡ 0) × (m'.disk.storage.hung ≡ false)
unfolding emu_index lookup
program_reads_example =
    program_reads config 3 no_card 8 0 disk_image with_disk busy times 1 0 0 1 refl refl refl refl
      nothing-IsPacket refl refl (replicate-Bytes 1024 7 (omega arith)) (omega arith) (omega arith)
      (omega arith) (omega arith) (omega arith)

program_reads_back_example :
    let (m', got) = exchange times 0 (write_read_program 1 0 0 1 (replicate 512 9)) busy in
    (got ≡ replicate 512 9) × (m'.disk.disk_err ≡ 0)
unfolding emu_index lookup
program_reads_back_example =
    program_reads_back config 3 no_card 8 0 disk_image with_disk busy times 1 0 0 1
      (replicate 512 9) refl refl refl refl nothing-IsPacket refl refl refl
      (replicate-Bytes 1024 7 (omega arith)) (replicate-Bytes 512 9 (omega arith)) refl
      (omega arith) (omega arith) (omega arith) (omega arith)
