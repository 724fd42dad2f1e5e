-- ===== src/Server/Stream.antt =====
-- `std::fstream` as virtDisk.cpp of WiFi-VirtDisk-Server/src uses it: opened for reading and
-- writing, binary, on files that must exist. A `filebuf` has one position for both directions.
pub mod Laws
use wi_fi_virt_disk.Base.{
  ℕ, ◌+◌, ◌-◌, Bool, true, false, not, ◌&&◌, ◌||◌, List, [], ◌∷◌, ◌++◌, Option, none, some,
  if◌then◌else◌, ltb, length, take, drop, replicate, str_eq, ℤ, pos, negsuc,
}

-- The files of the host that can be opened, by their paths
abbrev pub Files : Type 0
Files = List (List ℕ × List ℕ)

unfoldable pub lookup : List ℕ → Files → Option (List ℕ)
lookup path [] = none
lookup path ((p, bytes) ∷ files) = if str_eq p path then some bytes else lookup path files

-- A write to a file that is there; to another path it does nothing.
unfoldable pub update : List ℕ → List ℕ → Files → Files
update path new [] = []
update path new ((p, bytes) ∷ files) =
    if str_eq p path then (p, new) ∷ files else (p, bytes) ∷ update path new files

-- `bad` is failbit or badbit, `at_eof` is eofbit.
pub record Stream : Type 0 where
  pub is_open : Bool
  pub path : List ℕ
  pub at : ℕ
  pub at_eof : Bool
  pub bad : Bool

abbrev pub good : Stream → Bool
good s = not (s.at_eof || s.bad)

unfoldable pub close : Stream → Stream
close s = if s.is_open then record s { is_open = false } else record s { bad = true }

unfoldable pub open_file : Stream → Files → List ℕ → Stream
open_file s files path =
    let failed = record s { bad = true } in
    if s.is_open then failed else elim (lookup path files) [
      | none ↦ failed
      | some _ ↦ record { is_open = true; path = path; at = 0; at_eof = false; bad = false }
    ]

unfoldable pub clear : Stream → Stream
clear s = record s { at_eof = false; bad = false }

-- `seekg` first clears eofbit; neither function moves a stream that has failed.
unfoldable pub seekg : Stream → ℕ → Stream
seekg s offset =
    let cleared = record s { at_eof = false } in
    if s.bad
    then cleared
    else if s.is_open
    then record cleared { at = offset }
    else record cleared { bad = true }

unfoldable pub seekp : Stream → ℕ → Stream
seekp s offset =
    if s.bad then s else if s.is_open then record s { at = offset } else record s { bad = true }

unfoldable pub tellg : Stream → ℤ
tellg s = if s.bad then negsuc 0 else pos s.at

-- the bytes of the opened file; a stream with no file reads as empty
unfoldable pub content : Files → Stream → List ℕ
content files s =
    let found : List ℕ = elim (lookup s.path files) [ none ↦ [] | some bytes ↦ bytes ] in
    if s.is_open then found else []

-- `read( buffer, n )` and `gcount()`: what was read, and the stream. A read that finds fewer bytes
-- sets eofbit and failbit; a stream that is not good gives nothing.
unfoldable pub read : Stream → Files → ℕ → Stream × List ℕ
read s files n =
    let got = take n (drop s.at (content files s)) in
    let moved = record s { at = s.at + length got } in
    if good s
    then if ltb (length got) n
      then (record moved { at_eof = true; bad = true }, got)
      else (moved, got)
    else (record s { bad = true }, [])

-- `bytes` in place of those from `at` on; a gap behind the end is filled with zeros.
unfoldable pub overwrite : List ℕ → ℕ → List ℕ → List ℕ
overwrite file at bytes =
    take at file ++ (replicate (at - length file) 0 ++ (bytes ++ drop (at + length bytes) file))

-- `write( buffer, n )` and `flush()`
unfoldable pub write : Stream → Files → List ℕ → Stream × Files
write s files bytes =
    if good s && s.is_open
    then (
      record s { at = s.at + length bytes },
      update s.path (overwrite (content files s) s.at bytes) files,
    )
    else (record s { bad = true }, files)
