-- ===== src/Server/Settings.antt =====
-- The configuration file of the server (`readConfig` in WiFi-VirtDisk-Server.cpp), with SimpleIni
-- as a parameter.
use wi_fi_virt_disk.Base.{
  ℕ, zero, suc, ◌+◌, ◌<◌, ◌^◌, ◌≡◌, refl, ap, ◌∙◌, Bool, true, false, List, [], ◌∷◌, ◌++◌, Option,
  none, some, if◌then◌else◌, ◌==◌, ℤ, pos, negsuc, arith, length, length-append,
}
use wi_fi_virt_disk.Decimal.{to_string, stoi, stoi-to_string}
use wi_fi_virt_disk.Server.State.{Config}

-- A section and a name in it that `readConfig` asks for; an emulated disk by its number
pub data IniKey : Type 0 where
  server_port file_path : IniKey
  disk_emu_filename disk_emu_path disk_emu_format : ℕ → IniKey

-- `std::filesystem::exists` and SimpleIni: whether the file exists, whether `LoadFile` fails, and
-- `GetValue`, with `none` for a key that is not there
pub record Ini : Type 0 where
  pub exists : Bool
  pub load_failed : Bool
  pub get_value : IniKey → Option (List ℕ)

pub record Settings : Type 0 where
  pub server_port : List ℕ
  pub dbg_server_port : List ℕ
  pub config : Config

-- `GetValue` with a default that is not NULL
abbrev or_default : Option (List ℕ) → List ℕ → List ℕ
or_default none d = d
or_default (some v) d = v

-- `std::stoi( serverPort ) + 1` as text. A sum that does not fit into an `int` is left open by C++.
abbrev next_port : ℤ → List ℕ
next_port (pos n) = to_string (n + 1)
next_port (negsuc n) = if n == 0 then to_string 0 else b'-' ∷ to_string n

-- A round of the loop over the emulated disks: only one with all three values counts.
abbrev add_disk : Option (List ℕ) → Option (List ℕ) → Option (List ℕ) → Config → Config
add_disk (some name) (some path) (some format) g = record g {
  disk_emu_filename = g.disk_emu_filename ++ (name ∷ []);
  disk_emu_path = g.disk_emu_path ++ (path ∷ []);
  disk_emu_format = g.disk_emu_format ++ (format ∷ []);
}
add_disk _ _ _ g = g

-- The loop, with the rounds left
unfoldable pub read_disks : Ini → ℕ → ℕ → Config → Config
read_disks ini zero disk_num g = g
read_disks ini (suc rounds) disk_num g = read_disks ini rounds (disk_num + 1) (
    add_disk (ini.get_value (disk_emu_filename disk_num)) (ini.get_value (disk_emu_path disk_num))
      (ini.get_value (disk_emu_format disk_num)) g)

-- What follows the loading, with the result of `std::stoi`
abbrev with_port : Ini → Settings → List ℕ → Option ℤ → Option Settings
with_port ini s port none = none
with_port ini s port (some n) = some (record {
  server_port = port;
  dbg_server_port = next_port n;
  config =
      read_disks ini 4 0
        (record (s.config) { file_path = or_default (ini.get_value file_path) s.config.file_path });
})

-- `none` is an exception of `std::stoi`, which nothing catches.
unfoldable pub read_values : Ini → Settings → Option Settings
read_values ini s =
    let port = or_default (ini.get_value server_port) s.server_port in
    with_port ini s port (stoi port)

-- `readConfig`: the settings and the result, which is true also where the file cannot be loaded
unfoldable pub read_config : Ini → Settings → Option (Settings × Bool)
read_config ini s =
    let loaded : Option (Settings × Bool) = elim (read_values ini s) [
      | none ↦ none
      | some s' ↦ some (s', true)
    ] in
    if ini.exists then if ini.load_failed then some (s, true) else loaded else some (s, false)

-- The three vectors are parallel.
pub record IsParallel (g : Config) : Type 0 where
  pub paths : length g.disk_emu_path ≡ length g.disk_emu_filename
  pub formats : length g.disk_emu_format ≡ length g.disk_emu_filename

add_disk-IsParallel :
    (name path format : Option (List ℕ)) (g : Config)
    → IsParallel g
    → IsParallel (add_disk name path format g)
add_disk-IsParallel (some name) (some path) (some format) g v = record {
  paths = omega (
    arith,
    v.paths,
    length-append g.disk_emu_path (path ∷ []),
    length-append g.disk_emu_filename (name ∷ []),
  );
  formats = omega (
    arith,
    v.formats,
    length-append g.disk_emu_format (format ∷ []),
    length-append g.disk_emu_filename (name ∷ []),
  );
}
add_disk-IsParallel none _ _ g v = v
add_disk-IsParallel (some _) none _ g v = v
add_disk-IsParallel (some _) (some _) none g v = v

read_disks-IsParallel :
    (ini : Ini) (rounds disk_num : ℕ) (g : Config)
    → IsParallel g
    → IsParallel (read_disks ini rounds disk_num g)
unfolding read_disks
read_disks-IsParallel ini zero disk_num g v = v
read_disks-IsParallel ini (suc rounds) disk_num g v =
    read_disks-IsParallel ini rounds (disk_num + 1) _ (add_disk-IsParallel _ _ _ g v)

read_values-given :
    (ini : Ini) (s : Settings) (port : ℕ)
    → ini.get_value server_port ≡ some (to_string port)
    → stoi (to_string port) ≡ some (pos port)
    → read_values ini s
      ≡ some (record {
        server_port = to_string port;
        dbg_server_port = to_string (port + 1);
        config = read_disks ini 4 0 (record (s.config) {
          file_path = or_default (ini.get_value file_path) s.config.file_path;
        });
      })
unfolding read_values
read_values-given ini s port given read =
    ap (λ v. with_port ini s (or_default v s.server_port) (stoi (or_default v s.server_port))) given
    ∙ ap (with_port ini s (to_string port)) read

inner_branch :
    {A : Type 0} (b c : Bool) (x y z : A)
    → b ≡ true
    → c ≡ false
    → (if b then if c then x else y else z) ≡ y
inner_branch b c x y z e e' = rw (e, e') refl

-- With a configuration file that can be loaded and gives a port below 2^31 - 1 in decimal, the debug
-- server gets the next port, the result is true, and the three vectors of the emulated disks are
-- still parallel.
pub read_config-IsParallel :
    (ini : Ini) (s : Settings) (port : ℕ)
    → ini.exists ≡ true
    → ini.load_failed ≡ false
    → ini.get_value server_port ≡ some (to_string port)
    → port + 1 < 2 ^ 31
    → IsParallel s.config
    → (s' : Settings) × (read_config ini s ≡ some (s', true))
      × (stoi s'.server_port ≡ some (pos port))
      × (stoi s'.dbg_server_port ≡ some (pos (port + 1)))
      × IsParallel s'.config
unfolding read_config
read_config-IsParallel ini s port there fine given small v =
    let read = stoi-to_string port (omega arith) in
    let path = or_default (ini.get_value file_path) s.config.file_path in
    let g : Config = record (s.config) { file_path = path } in
    let loaded : Option Settings → Option (Settings × Bool) =
      λ o. elim o [ none ↦ none | some s' ↦ some (s', true) ] in
    let values = read_values-given ini s port given read in
    (
      record {
        server_port = to_string port;
        dbg_server_port = to_string (port + 1);
        config = read_disks ini 4 0 g;
      },
      inner_branch ini.exists ini.load_failed (some (s, true)) (loaded (read_values ini s))
            (some (s, false)) there fine
          ∙ ap loaded values,
      read,
      stoi-to_string (port + 1) small,
      read_disks-IsParallel ini 4 0 g (record { paths = v.paths; formats = v.formats }),
    )
