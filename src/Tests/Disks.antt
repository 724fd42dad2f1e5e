-- ===== src/Tests/Disks.antt =====
-- A state for the disk opcodes, at a storage that always reads the same 32 bytes.
use wi_fi_virt_disk.Base.{ℕ, replicate}
use wi_fi_virt_disk.Ios.Disk.{Storage, DiskState}

abbrev pub nines : Storage
nines = record {
  State = ℕ;
  mount_sd = λ s. (s, 0);
  open_sd = λ s name. (s, 0);
  seek_sd = λ s sector. (sector, 0);
  read_sd = λ s buff. (s, 0, replicate 32 9, 32);
  write_sd = λ s buff. (s, 0, 32);
}

abbrev pub ready : DiskState nines
ready = record {
  storage = 0;
  disk_set = 0;
  track_sel = 2;
  sect_sel = 3;
  disk_err = 0;
  buffer_sd = replicate 32 0;
  io_data = 0;
  io_opcode = 0x86;
  io_byte_cnt = 0;
}
