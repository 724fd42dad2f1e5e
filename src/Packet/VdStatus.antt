-- ===== src/Packet/VdStatus.antt =====
-- `enum vdStatus` (virtDisk.hpp), the values that the code uses
use wi_fi_virt_disk.Base.{ℕ}

abbrev pub ok : ℕ
ok = 0

abbrev pub file_rd_error : ℕ
file_rd_error = 3

abbrev pub disk_not_found : ℕ
disk_not_found = 4
