-- ===== src/Ios/Boot.antt =====
-- The boot program from the storage: "Read the selected file from SD and load it into RAM until an EOF
-- is reached" in `setup` of S220718-R290823_IOS-Z80-MBC2.ino.
pub mod Card
pub mod Load
pub mod Memory
use wi_fi_virt_disk.Base.{
  ℕ, zero, suc, ◌+◌, ◌-◌, ◌*◌, ◌<◌, ◌≤◌, ◌≡◌, ◌≢◌, refl, ap, ◌∙◌, sym, Bool, true, false, ◌&&◌,
  List, ◌++◌, Option, none, some, if◌then◌else◌, ◌==◌, arith, length, take, drop, min, ne→==_false,
  append_assoc, append-nil, take-append-drop, take-all, drop-all, length-drop, length-take,
}
use wi_fi_virt_disk.Ios.Disk.{Storage}
use wi_fi_virt_disk.Ios.Inject.{LoadStep, load_bytes}

-- The variables of the load. `ram_steps` is all that has been done to the bus of the Z80 so far.
pub record Boot (S : Storage) : Type 0 where
  pub storage : S.State
  pub buffer_sd : List ℕ
  pub err_code_sd : ℕ
  pub ram_steps : List LoadStep

module _ {S : Storage} where
  open S use {seek_sd, read_sd}

  -- A segment into the RAM with `loadByteToRAM`, and the number of bytes read. With more than 32 C would
  -- go on behind the buffer.
  unfoldable pub load_segment : Boot S → Boot S × ℕ
  load_segment b =
      let (storage', e, buffer', n) = read_sd b.storage b.buffer_sd in
      (
        record {
          storage = storage';
          buffer_sd = buffer';
          err_code_sd = e;
          ram_steps = b.ram_steps ++ load_bytes (take n buffer');
        },
        n,
      )

  -- The inner loop, on fuel; `none` where the fuel ends
  unfoldable pub load_segments : ℕ → Boot S → Option (Boot S)
  load_segments zero b = none
  load_segments (suc fuel) b =
      let (b', n) = load_segment b in
      let rest = load_segments fuel b' in
      if (n == 32) && (b'.err_code_sd == 0) then rest else some b'

  -- "Reset the sector pointer"
  unfoldable pub rewind : Boot S → Boot S
  rewind b = record b { storage = (seek_sd b.storage 0).0 }

  -- What follows the inner loop: the result, or another round with a key of the user
  abbrev pub ended : Option (Boot S) → (Boot S → Option (Boot S)) → Option (Boot S)
  ended none again = none
  ended (some b) again = if b.err_code_sd == 0 then some b else again (rewind b)

  -- The outer loop
  unfoldable pub load_file : ℕ → ℕ → Boot S → Option (Boot S)
  load_file fuel zero b = none
  load_file fuel (suc tries) b = ended (load_segments fuel b) (load_file fuel tries)

  segments-last :
      (fuel n : ℕ) (b b' : Boot S)
      → load_segment b ≡ (b', n)
      → n ≢ 32
      → load_segments (suc fuel) b ≡ some b'
  unfolding load_segments
  segments-last fuel n b b' e short = rw (e, ne→==_false n 32 short) refl

  segments-next :
      (fuel n : ℕ) (b b' : Boot S)
      → load_segment b ≡ (b', n)
      → n ≡ 32
      → b'.err_code_sd ≡ 0
      → load_segments (suc fuel) b ≡ load_segments fuel b'
  unfolding load_segments
  segments-next fuel n b b' e full fine = rw (e, full, fine) refl

  load_file-ended :
      (fuel tries : ℕ) (b b' : Boot S)
      → load_segments fuel b ≡ some b'
      → load_file fuel (suc tries) b
        ≡ (if b'.err_code_sd == 0 then some b' else load_file fuel tries (rewind b'))
  unfolding load_file
  load_file-ended fuel tries b b' e = ap (λ o. ended o (load_file fuel tries)) e
