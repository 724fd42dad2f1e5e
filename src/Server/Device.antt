-- ===== src/Server/Device.antt =====
-- The device layer of the emulated disks (cpmtools/device_libdsk.c of WiFi-VirtDisk-Server/src),
-- as far as the server calls it, over the functions of LibDsk.
use wi_fi_virt_disk.Base.{
  ℕ, Bool, true, false, List, [], ◌∷◌, Option, none, some, if◌then◌else◌, ◌==◌, str_eq, take,
}

-- LibDsk. `Disks` is all that it changes outside of the program, the host's directories among it;
-- a `dsk_err_t` is a number, and zero is DSK_ERR_OK. `std_formats` lists what `dg_stdformat` gives
-- for the formats from FMT_180K on, up to the first that it does not know.
pub record LibDsk : Type 1 where
  pub Disks : Type 0
  pub Driver : Type 0
  pub Geometry : Type 0
  pub std_formats : List (List ℕ × Geometry)
  pub dsk_open : Disks → List ℕ → List ℕ → Disks × Driver × ℕ
  pub dsk_close : Disks → Driver → Disks × Driver × ℕ
  pub dsk_getgeom : Disks → Driver → Geometry → Geometry
  pub dsk_lread : Disks → Driver → Geometry → List ℕ → ℕ → Disks × List ℕ × ℕ
  pub dsk_lwrite : Disks → Driver → Geometry → List ℕ → ℕ → Disks × ℕ

-- What the functions return in place of a string: NULL, a text of LibDsk, or that of `lookupFormat`
pub data DeviceError : Type 0 where
  no_error : DeviceError
  dsk_error : ℕ → DeviceError
  bad_geometry : DeviceError

module _ (D : LibDsk) where
  open D use {Disks, Driver, Geometry, std_formats, dsk_open, dsk_close, dsk_getgeom}

  -- `struct Device`, the fields that the server uses
  pub record Device : Type 0 where
    pub opened : Bool
    pub dev : Driver
    pub geom : Geometry

  unfoldable pub lookup_format :
      Geometry → List (List ℕ × Geometry) → List ℕ → Geometry × DeviceError
  lookup_format geom [] name = (geom, bad_geometry)
  lookup_format geom ((fname, found) ∷ formats) name =
      if str_eq name fname then (found, no_error) else lookup_format geom formats name

  -- `strchr( driverName, ',' )`: the text before the first comma and, if there is one, that after it
  unfoldable pub split_comma : List ℕ → List ℕ × Option (List ℕ)
  split_comma [] = ([], none)
  split_comma (c ∷ cs) =
      let (before, after) = split_comma cs in
      if c == b',' then ([], some cs) else (c ∷ before, after)

  -- the geometry of an opened image: by the format's name, or as LibDsk finds it
  unfoldable pub choose_format :
      Geometry → Disks → Driver → Option (List ℕ) → Geometry × DeviceError
  choose_format geom disks dev none = (dsk_getgeom disks dev geom, no_error)
  choose_format geom disks dev (some name) = lookup_format geom std_formats name

  -- `Device_open` with options, which the server always gives. The copy of them ends after 79
  -- bytes.
  unfoldable pub device_open : Device → Disks → List ℕ → List ℕ → Device × Disks × DeviceError
  device_open device disks filename options =
      let (driver_name, format) = split_comma (take 79 options) in
      let (disks', dev', e) = dsk_open disks filename driver_name in
      let closed = record device { opened = false; dev = dev' } in
      let (geom', boo) = choose_format device.geom disks' dev' format in
      if e == 0
      then (record closed { opened = true; geom = geom' }, disks', boo)
      else (closed, disks', dsk_error e)

  -- `Device_close`
  unfoldable pub device_close : Device → Disks → Device × Disks × DeviceError
  device_close device disks =
      let (disks', dev', e) = dsk_close disks device.dev in
      let closed = record device { opened = false; dev = dev' } in
      (closed, disks', if e == 0 then no_error else dsk_error e)
