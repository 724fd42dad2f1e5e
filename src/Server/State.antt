-- ===== src/Server/State.antt =====
-- The globals of virtDisk.cpp, WiFi-VirtDisk-Server.cpp and message.cpp (WiFi-VirtDisk-Server/src)
-- that the commands of the client read and change.
use wi_fi_virt_disk.Base.{
  ℕ, suc, ◌+◌, ◌-◌, ◌/◌, ◌%◌, ◌^◌, Bool, true, false, List, [], ◌∷◌, Option, none, some,
  if◌then◌else◌, str_eq, ltb, ℤ, pos, negsuc,
}
use wi_fi_virt_disk.Packet.{Packet}
use wi_fi_virt_disk.Server.Stream.{Stream, Files}
use wi_fi_virt_disk.Server.Device.{LibDsk, Device}

-- `MsgType`
pub data MsgType : Type 0 where
  info warn err : MsgType

-- `filePath` and the three parallel vectors of the emulated disks
pub record Config : Type 0 where
  pub file_path : List ℕ
  pub disk_emu_path : List (List ℕ)
  pub disk_emu_filename : List (List ℕ)
  pub disk_emu_format : List (List ℕ)

-- The disks, files, `vdData` (`track` and `sector` are not used), `drive.dev`, `sector`,
-- `diskPath`, `devopts` (whose part behind the comma is `format`) and `_isError`
pub record Server (D : LibDsk) : Type 0 where
  pub files : Files
  pub disks : D.Disks
  pub file_stream : Stream
  pub file_pos : ℤ
  pub filename : List ℕ
  pub drive : Device D
  pub sector : List ℕ
  pub disk_path : List ℕ
  pub devopts : List ℕ
  pub is_error : Bool

-- `message`: the text goes out; an error is remembered.
unfoldable pub message : {D : LibDsk} → MsgType → Server D → Server D
message err s = record s { is_error = true }
message warn s = s
message info s = s

-- The index of the first emulated disk of that name: the loop of VD_CMD_SEL_FILE, and `std::find`
unfoldable pub emu_index : List (List ℕ) → List ℕ → Option ℕ
emu_index [] name = none
emu_index (n ∷ names) name =
    let later = emu_index names name in
    if str_eq name n then some 0 else elim later [ none ↦ none | some i ↦ some (suc i) ]

unfoldable pub is_emulated : Config → List ℕ → Bool
unfolding emu_index
is_emulated g name = elim (emu_index g.disk_emu_filename name) [ none ↦ false | some _ ↦ true ]

-- `vdData.filePos / 512` as an unsigned long: C rounds towards zero and wraps.
abbrev pub sector_of : ℤ → ℕ
sector_of (pos n) = n / 512
sector_of (negsuc n) = (2 ^ 64 - (n + 1) / 512) % 2 ^ 64

-- `vdData.filePos += 512`
abbrev pub add_sector : ℤ → ℤ
add_sector (pos n) = pos (n + 512)
add_sector (negsuc n) = if ltb n 512 then pos (511 - n) else negsuc (n - 512)

-- `vdProcessCmd` returns 0 for a reply to the client and -1 for none.
abbrev pub replied : ℤ
replied = pos 0

abbrev pub silent : ℤ
silent = negsuc 0

-- The state, the packet in `buffer`, and the return value
abbrev pub Outcome : LibDsk → Type 0
Outcome D = Server D × Packet × ℤ
