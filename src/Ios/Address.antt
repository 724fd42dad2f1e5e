-- ===== src/Ios/Address.antt =====
-- SELTRACK and SELSECT: the address that READSECT and WRITESECT seek to.
use wi_fi_virt_disk.Base.{ℕ, ◌+◌, ◌*◌, ◌^◌, ◌<◌, ◌≤◌, ◌≡◌, refl, arith}
use wi_fi_virt_disk.Ios.Disk.{Storage, DiskState, sel_track, sel_sect, logical_sector}

module _ {S : Storage} where
  abbrev with_data : DiskState S → ℕ → DiskState S
  with_data d x = record d { io_data = x }

  -- The Z80 gives a track in two bytes, then a sector.
  abbrev pub addressed : DiskState S → ℕ → ℕ → ℕ → DiskState S
  addressed d low high sector =
      let tracked = sel_track (with_data (sel_track (with_data d low)) high) in
      sel_sect (with_data tracked sector)

  -- The bytes of a track and a sector, each below 256, set the address. There is no error exactly
  -- for the 512 tracks and 32 sectors, and then the sector's offset lies in a file of 8 MB.
  address_checked :
      (d : DiskState S) (low high sector : ℕ)
      → low < 256
      → high < 256
      → d.io_byte_cnt ≡ 0
      → let e = addressed d low high sector in
        (e.track_sel ≡ high * 256 + low)
        × (e.sect_sel ≡ sector)
        × (e.disk_err ≡ 0 → (high * 256 + low < 512) × (sector < 32))
        × (high * 256 + low < 512 → sector < 32 → e.disk_err ≡ 0)
        × (e.disk_err ≡ 0 → logical_sector e.track_sel e.sect_sel * 512 + 512 ≤ 2 ^ 23)
  unfolding sel_track sel_sect
  address_checked d low high sector l h c =
      (ground arith, refl, λ ok. ground arith, λ t s. ground arith, λ ok. ground arith)
